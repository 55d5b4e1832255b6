-- ===== src/LudoMega/Table/Valid/Progress.antt =====
-- table.entity.ts: as long as the game is not to end the player has an action that succeeds.
use empire_backend.Base.{
  ℕ, suc, ◌≡◌, refl, ◌∙◌, ap, subst, Bool, true, false, not, ◌||◌, inl, inr, none, some, List, [],
  ◌∷◌, ◌++◌, map, filter, length, Bool-cases, Option-cases, ◌==◌,
}
use empire_backend.Base.Int.{pos, ltb_ℤ}
use empire_backend.Base.Results.{ok}
use empire_backend.LudoMega.{
  pl1, PawnId, same_player, is_home, GameAction, roll_dice, move_pawn, skip_turn, end_game,
  leave_table, start_game, discard_game, is_roll_dice,
}
use empire_backend.LudoMega.Pawn.{Pawn, get_pawn_id}
use empire_backend.LudoMega.Table.{Table, is_mine}
use empire_backend.LudoMega.Table.Offers.Exact.{get_can_move_pawns-is_in}
use empire_backend.LudoMega.Table.Turn.{
  Rolled, roll_dice_on, settle_dice, skip_move, first_out, skip_with, finish_roll, start_move,
  after_dice, after_three_6, keep_action_bonus, got_three_6, should_end_game, get_home_pawn_count,
}
use empire_backend.LudoMega.Table.Move.{Moved, move_pawn_on, is_stuck}
use empire_backend.LudoMega.Table.Valid.{IsTable, ArePawns, IsPlayable}
use empire_backend.LudoMega.Table.Valid.Offered.{IsOffered, offered-ok, player_of}

-- Any roll succeeds, or some move of the player does.
pub CanGoOn : GameAction → Table → Type 0
CanGoOn roll_dice t =
    (extra : Bool) (now dice : ℕ) → (r : Rolled) × (roll_dice_on extra now dice t ≡ ok r)
CanGoOn move_pawn t =
    (now : ℕ) → (id : PawnId) × (d : ℕ) × (r : Moved) × (move_pawn_on now id d t ≡ ok r)
CanGoOn _ t = ⊥

-- When no own pawn is out, all four are at home.
home_pawns :
    (pawns : List Pawn)
    → first_out pawns ≡ none
    → get_home_pawn_count pawns ≡ length (filter is_mine pawns)
unfolding get_home_pawn_count
home_pawns [] h = refl
home_pawns (p ∷ pawns) h = elim (Bool-cases (is_mine p)) [
  | inr other ↦ rw other (home_pawns pawns (rw other at h))
  | inl mine ↦ elim (Bool-cases (is_home p.position)) [
    | inl home ↦ rw (mine, home) (ap suc (home_pawns pawns (rw (mine, home) at h)))
    | inr out ↦ absurd (cc (rw (mine, out) at h))
  ]
]

length-own :
    (pawns : List Pawn)
    → length (filter is_mine pawns)
      ≡ length (filter (λ id. same_player (player_of id) pl1) (map get_pawn_id pawns))
unfolding get_pawn_id
length-own [] = refl
length-own (p ∷ pawns) = elim (Bool-cases (is_mine p)) [
  | inl mine ↦ rw mine (ap suc (length-own pawns))
  | inr other ↦ rw other (length-own pawns)
]

all_home : (a b : Bool) (n : ℕ) → n ≡ 4 → (a || (b || n == 4)) ≡ true
all_home true b n h = refl
all_home false true n h = refl
all_home false false n h = rw h refl

first_out-some :
    (t : Table) → IsTable t → should_end_game t ≡ false → (p : Pawn) × (first_out t.pawns ≡ some p)
unfolding IsTable ArePawns should_end_game same_player
first_out-some t ((ids, _), _, _) goes_on = elim (Option-cases (first_out t.pawns)) [
  | inr found ↦ found
  | inl e ↦
      let four : get_home_pawn_count t.pawns ≡ 4 =
        home_pawns t.pawns e
        ∙ length-own t.pawns
        ∙ ap (λ l. length (filter (λ id. same_player (player_of id) pl1) l)) ids in
      absurd (
        cc (
          all_home (not (ltb_ℤ (pos 0) t.remaining_moves)) (ltb_ℤ t.lives (pos 0)) _ four,
          goes_on,
        ))
]

pub after_dice-pawns : (now dice : ℕ) (t : Table) → (after_dice now dice t).pawns ≡ t.pawns
unfolding after_dice after_three_6 keep_action_bonus
after_dice-pawns now dice t = elim (Bool-cases (got_three_6 (t.dices ++ (dice ∷ [])))) [
  | inl three ↦ rw three refl
  | inr other ↦ rw other refl
]

pub settle_dice-ok :
    (extra : Bool) (now dice : ℕ) (t : Table) (p : Pawn)
    → first_out t.pawns ≡ some p
    → (r : Rolled) × (settle_dice extra now dice t ≡ ok r)
unfolding settle_dice skip_move
settle_dice-ok extra now dice t p out = elim (Bool-cases (not (dice == 6) || not extra)) [
  | inr again ↦ ((none, t), rw again refl)
  | inl over ↦ elim (Bool-cases (is_stuck t)) [
    | inl stuck ↦ (skip_with now t p, rw (over, stuck, out) refl)
    | inr free ↦ ((none, start_move t), rw (over, free) refl)
  ]
]

pub roll_dice_on-eq :
    (extra : Bool) (now dice : ℕ) (t : Table) (r : Rolled)
    → is_roll_dice t.action ≡ true
    → settle_dice extra now dice (after_dice now dice t) ≡ ok r
    → roll_dice_on extra now dice t ≡ ok (finish_roll now r)
unfolding roll_dice_on
roll_dice_on-eq extra now dice t r acting settled = rw (acting, settled) refl

roll_dice-CanGoOn :
    (t : Table)
    → IsTable t
    → should_end_game t ≡ false
    → t.action ≡ roll_dice
    → (extra : Bool) (now dice : ℕ) → (r : Rolled) × (roll_dice_on extra now dice t ≡ ok r)
roll_dice-CanGoOn t valid goes_on acting extra now dice =
    let (p, out) = first_out-some t valid goes_on in
    let (r, settled) =
      settle_dice-ok extra now dice (after_dice now dice t) p
        (ap first_out (after_dice-pawns now dice t) ∙ out) in
    (finish_roll now r, roll_dice_on-eq extra now dice t r (rw acting refl) settled)

move_pawn-CanGoOn :
    (t : Table)
    → IsTable t
    → t.action ≡ move_pawn
    → (now : ℕ) → (id : PawnId) × (d : ℕ) × (r : Moved) × (move_pawn_on now id d t ≡ ok r)
unfolding IsTable IsPlayable IsOffered
move_pawn-CanGoOn t valid acting now =
    let playable : is_stuck t ≡ false = subst (λ a. IsPlayable a (is_stuck t)) acting valid.2 in
    let (id, d, offered) = get_can_move_pawns-is_in t playable in
    let (r, moves) = offered-ok now id d t valid (rw acting refl) offered in (id, d, r, moves)

pub IsTable-CanGoOn :
    (t : Table) (a : GameAction)
    → IsTable t
    → should_end_game t ≡ false
    → t.action ≡ a
    → CanGoOn a t
unfolding CanGoOn IsTable IsPlayable
IsTable-CanGoOn t roll_dice valid goes_on e = roll_dice-CanGoOn t valid goes_on e
IsTable-CanGoOn t move_pawn valid goes_on e = move_pawn-CanGoOn t valid e
IsTable-CanGoOn t skip_turn valid goes_on e = subst (λ a. IsPlayable a (is_stuck t)) e valid.2
IsTable-CanGoOn t end_game valid goes_on e = subst (λ a. IsPlayable a (is_stuck t)) e valid.2
IsTable-CanGoOn t leave_table valid goes_on e = subst (λ a. IsPlayable a (is_stuck t)) e valid.2
IsTable-CanGoOn t start_game valid goes_on e = subst (λ a. IsPlayable a (is_stuck t)) e valid.2
IsTable-CanGoOn t discard_game valid goes_on e = subst (λ a. IsPlayable a (is_stuck t)) e valid.2
