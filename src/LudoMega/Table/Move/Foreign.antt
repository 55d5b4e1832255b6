-- ===== src/LudoMega/Table/Move/Foreign.antt =====
-- table.entity.ts: `movePawn` with the id of a pawn that is not the player's.
use empire_backend.Base.{
  ℕ, zero, suc, ◌+◌, ◌≡◌, refl, sym, subst, ap, ◌∙◌, ◌⊎◌, Bool, true, false, not, ◌||◌, inl, inr,
  some, List, [], ◌∷◌, get_elem?, modify, get_elem?-modify_self, Bool-cases, ==_self, arith,
}
use mathlib.Core.Option.{some-injective}
use empire_backend.Base.Int.{ℤ, pos, negsuc, ◌+ℤ◌, ◌-ℤ◌, ◌≤ℤ◌}
use empire_backend.Base.Results.{ok}
use empire_backend.LudoMega.{
  Player, same_player, Position, base, cell, home_path, home, position_eq, is_home, is_safe,
  is_move_pawn,
}
use empire_backend.LudoMega.Pawn.{Pawn, get_pawn_id, get_next_position}
use empire_backend.LudoMega.Table.{Table, is_mine, increment_counter_and_timeout}
use empire_backend.LudoMega.Table.Offers.{is_empty}
use empire_backend.LudoMega.Table.Turn.{end_turn, credit_action_bonus}
use empire_backend.LudoMega.Table.Move.{
  Moved, moved, move_pawn_on, move_response, has_dice, gains_move, have_extra_chance,
  get_other_pawns_to_kill_on_position, is_to_kill, indices_from, land, after_move, after_landing,
  check_moves, update_score, is_stuck,
}
use empire_backend.LudoMega.Table.Valid.{IsTable, ArePawns}
use empire_backend.LudoMega.Table.Valid.Offered.{move_pawn_on-eq, find_index-has_id}

same_player_self : (p : Player) → same_player p p ≡ true
unfolding same_player
same_player_self p = ==_self _

pub position_eq_self : (q : Position) → position_eq q q ≡ true
unfolding position_eq
position_eq_self (base p) = same_player_self p
position_eq_self (cell n) = ==_self n
position_eq_self (home_path p n) = rw (same_player_self p) (==_self n)
position_eq_self home = refl

indices_from-filled {ℓ} :
    {A : Type ℓ} (p : A → Bool) (n : ℕ) (xs : List A) (i : ℕ) {x : A}
    → get_elem? xs i ≡ some x
    → p x ≡ true
    → is_empty (indices_from p n xs) ≡ false
indices_from-filled p n [] i here passes = cc
indices_from-filled p n (y ∷ xs) zero {x} here passes = rw (some-injective y x here, passes) refl
indices_from-filled p n (y ∷ xs) (suc i) here passes = elim (Bool-cases (p y)) [
  | inl hit ↦ rw hit refl
  | inr miss ↦ rw miss (indices_from-filled p (n + 1) xs i here passes)
]

land-is_to_kill :
    (q : Position) (p : Pawn)
    → is_mine p ≡ false
    → is_safe q ≡ false
    → is_to_kill q (land q p) ≡ true
unfolding is_to_kill
land-is_to_kill q p other unsafe = elim (Bool-cases (is_home q)) [
  | inl e ↦ rw (e, other, unsafe, position_eq_self q) refl
  | inr e ↦ rw (e, other, unsafe, position_eq_self q) refl
]

or-not_empty : (a b : Bool) → b ≡ false → (a || not b) ≡ true
or-not_empty true b h = refl
or-not_empty false b h = rw h refl

-- The pawn is among those that it sends back.
foreign-gains :
    (target : ℕ) (q : Position) (pawns : List Pawn) (p : Pawn)
    → get_elem? pawns target ≡ some p
    → is_mine p ≡ false
    → is_safe q ≡ false
    → gains_move target q pawns ≡ true
unfolding have_extra_chance get_other_pawns_to_kill_on_position
foreign-gains target q pawns p here other unsafe = or-not_empty (is_home q) _ (
    indices_from-filled (is_to_kill q) 0 (modify (land q) pawns target) target
      (get_elem?-modify_self (land q) pawns target here) (land-is_to_kill q p other unsafe))

le-one_more : (m : ℤ) → (m ≤ℤ (m +ℤ pos 1)) × (m ≤ℤ ((m +ℤ pos 1) -ℤ pos 1))
unfolding ◌+ℤ◌ ◌-ℤ◌
le-one_more (pos n) = ground arith
le-one_more (negsuc zero) = ground arith
le-one_more (negsuc (suc n)) = ground arith

check_moves-remaining :
    (t : Table)
    → ((check_moves t).remaining_moves ≡ t.remaining_moves)
      ⊎ ((check_moves t).remaining_moves ≡ t.remaining_moves -ℤ pos 1)
unfolding check_moves end_turn
check_moves-remaining t = elim (Bool-cases (is_stuck t)) [
  | inl stuck ↦ inr (rw stuck refl)
  | inr free ↦ inl (rw free refl)
]

after_landing-remaining :
    (target d : ℕ) (q : Position) (t : Table)
    → gains_move target q t.pawns ≡ true
    → (after_landing target d q t).remaining_moves ≡ t.remaining_moves +ℤ pos 1
unfolding after_landing
after_landing-remaining target d q t gains = rw gains refl

after_move-remaining :
    (now target d : ℕ) (q : Position) (t : Table)
    → gains_move target q t.pawns ≡ true
    → t.remaining_moves ≤ℤ (after_move now target d q t).remaining_moves
unfolding after_move update_score credit_action_bonus increment_counter_and_timeout
after_move-remaining now target d q t gains =
    let more = after_landing-remaining target d q t gains in
    elim (check_moves-remaining (after_landing target d q t)) [
      | inl e ↦
          subst (λ m. t.remaining_moves ≤ℤ m) (sym (e ∙ more)) (le-one_more t.remaining_moves).0
      | inr e ↦
          subst (λ m. t.remaining_moves ≤ℤ m) (sym (e ∙ ap (λ m. m -ℤ pos 1) more))
            (le-one_more t.remaining_moves).1
    ]

-- In a valid table where a pawn has to be moved, a pawn of another player, from which a dice that is
-- there leads to a square that is not safe, moves with success, and the player gains an extra move,
-- so that no move is used up.
pub move_pawn_on-foreign :
    (now i d : ℕ) (t : Table) (p : Pawn) (q : Position)
    → IsTable t
    → is_move_pawn t.action ≡ true
    → has_dice d t.dices ≡ true
    → get_elem? t.pawns i ≡ some p
    → is_mine p ≡ false
    → get_next_position d p ≡ ok q
    → is_safe q ≡ false
    → (r : Moved) × (move_pawn_on now (get_pawn_id p) d t ≡ ok r)
      × (r.0.got_extra_move ≡ true)
      × (t.remaining_moves ≤ℤ r.1.remaining_moves)
unfolding IsTable ArePawns move_response
move_pawn_on-foreign now i d t p q ((ids, _), _, _) acting having here other next unsafe =
    let gains = foreign-gains i q t.pawns p here other unsafe in
    (
      moved now d i t p q,
      move_pawn_on-eq now (get_pawn_id p) d t i p q acting having
          (find_index-has_id t.pawns i p ids here) here next,
      gains,
      after_move-remaining now i d q t gains,
    )
