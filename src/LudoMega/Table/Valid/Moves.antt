-- ===== src/LudoMega/Table/Valid/Moves.antt =====
-- table.entity.ts: a move of a pawn keeps a table valid.
use empire_backend.Base.{
  ℕ, zero, suc, ◌≡◌, sym, ◌∙◌, subst, Bool, true, false, not, inl, inr, Option, none, some, List,
  [], ◌∷◌, All, get_elem?, All-get_elem?, ==_iff, find_index, Bool-cases, not-false, ◌==◌, arith,
}
use mathlib.Core.Option.{some-injective}
use empire_backend.Base.Results.{
  ok, type_error, bad_request, throw_if, ◌>>=◌, ◌>>◌, >>=-eq-ok, throw_if-eq-ok, or_throw-eq-ok,
  ok-injective, err-ne-ok,
}
use empire_backend.LudoMega.{
  PawnId, Position, GameAction, roll_dice, move_pawn, skip_turn, end_game, leave_table, start_game,
  discard_game, is_move_pawn,
}
use empire_backend.LudoMega.Pawn.{Pawn, get_next_position, move_to}
use empire_backend.LudoMega.Pawn.Paths.{advance, IsAdvance, get_next_position-IsAdvance}
use empire_backend.LudoMega.Table.{Table, increment_counter_and_timeout}
use empire_backend.LudoMega.Table.Offers.{get_can_move_pawns}
use empire_backend.LudoMega.Table.Turn.{end_turn, credit_action_bonus}
use empire_backend.LudoMega.Table.Move.{
  Moved, moved, find_pawn, move_target, has_dice, move_pawn_on, move_found, after_move,
  after_landing, check_moves, update_score, is_stuck, remove_first, has_id,
}
use empire_backend.LudoMega.Table.Valid.{
  IsTable, ArePawns, IsDice, IsOnPath, IsPlayable, pawns_after-ArePawns,
}
use empire_backend.LudoMega.Table.Valid.Kept.{AreThings}

All-remove_first : (d : ℕ) (dices : List ℕ) → All IsDice dices → All IsDice (remove_first d dices)
All-remove_first d [] h = tt
All-remove_first d (e ∷ dices) h = elim (Bool-cases (d == e)) [
  | inl hit ↦ rw hit h.1
  | inr miss ↦ rw miss (h.0, All-remove_first d dices h.1)
]

-- Where the pawn that has the id lands.
move_found-IsOnPath :
    (d : ℕ) (p : Pawn) (q : Position)
    → IsOnPath p
    → IsDice d
    → get_next_position d p ≡ ok q
    → IsOnPath (move_to q p)
unfolding IsOnPath IsDice IsAdvance
move_found-IsOnPath zero p q on_path is_dice next = absurd (omega arith)
move_found-IsOnPath (suc d) p q (i, here) is_dice next =
    lands (advance i (suc d)) (get_next_position-IsAdvance p i d here (omega arith))
  where
    lands : (o : Option ℕ) → IsAdvance (suc d) p o → IsOnPath (move_to q p)
    lands none (refused, _) = absurd (err-ne-ok bad_request q (sym refused ∙ next))
    lands (some j) (q', found, there, _) =
        (j, rw (sym (ok-injective q' q (sym found ∙ next))) there)

after_landing-AreThings :
    (target d : ℕ) (q : Position) (t : Table)
    → ((p : Pawn) → get_elem? t.pawns target ≡ some p → IsOnPath (move_to q p))
    → AreThings t
    → AreThings (after_landing target d q t)
unfolding after_landing AreThings
after_landing-AreThings target d q t lands (pawns, dices) =
    (pawns_after-ArePawns target q t.pawns lands pawns, All-remove_first d t.dices dices)

move_pawn-IsPlayable :
    (a : GameAction) (stuck : Bool) → is_move_pawn a ≡ true → stuck ≡ false → IsPlayable a stuck
unfolding IsPlayable
move_pawn-IsPlayable roll_dice stuck h free = tt
move_pawn-IsPlayable move_pawn stuck h free = free
move_pawn-IsPlayable skip_turn stuck h free = cc
move_pawn-IsPlayable end_game stuck h free = cc
move_pawn-IsPlayable leave_table stuck h free = cc
move_pawn-IsPlayable start_game stuck h free = cc
move_pawn-IsPlayable discard_game stuck h free = cc

-- After a move there is a move left, or the dice is rolled.
check_moves-IsTable :
    (t : Table) → is_move_pawn t.action ≡ true → AreThings t → IsTable (check_moves t)
unfolding check_moves AreThings IsTable IsPlayable end_turn get_can_move_pawns
check_moves-IsTable t moving (pawns, dices) = elim (Bool-cases (is_stuck t)) [
  | inl stuck ↦ rw stuck (pawns, tt, tt)
  | inr free ↦ rw free (pawns, dices, move_pawn-IsPlayable t.action (is_stuck t) moving free)
]

after_move-IsTable :
    (now target d : ℕ) (q : Position) (t : Table)
    → IsTable (check_moves (after_landing target d q t))
    → IsTable (after_move now target d q t)
unfolding after_move IsTable update_score credit_action_bonus increment_counter_and_timeout
    get_can_move_pawns
after_move-IsTable now target d q t h = h

-- What a move that succeeds has passed.
unfoldable pub IsMove : ℕ → PawnId → ℕ → Table → Moved → Type 0
IsMove now id d t r =
    (target : ℕ) × (p : Pawn) × (q : Position) × (is_move_pawn t.action ≡ true)
    × (has_dice d t.dices ≡ true)
    × (find_index (has_id id) t.pawns ≡ some target)
    × (get_elem? t.pawns target ≡ some p)
    × (get_next_position d p ≡ ok q)
    × (moved now d target t p q ≡ r)

pub move_pawn_on-IsMove :
    (now : ℕ) (id : PawnId) (d : ℕ) (t : Table) {r : Moved}
    → move_pawn_on now id d t ≡ ok r
    → IsMove now id d t r
unfolding move_pawn_on move_target move_found IsMove
move_pawn_on-IsMove now id d t {r} h =
    let finding = find_pawn id t >>= move_target now d t in
    let (acting, h1) =
      throw_if-eq-ok (not (is_move_pawn t.action)) bad_request
        (throw_if (not (has_dice d t.dices)) bad_request >> finding) h in
    let (having, h2) = throw_if-eq-ok (not (has_dice d t.dices)) bad_request finding h1 in
    let (target, found, h3) =
      or_throw-eq-ok (find_index (has_id id) t.pawns) bad_request (move_target now d t) h2 in
    let (p, here, h4) =
      or_throw-eq-ok (get_elem? t.pawns target) type_error (move_found now d target t) h3 in
    let (q, next, h5) = >>=-eq-ok (get_next_position d p) (λ q. ok (moved now d target t p q)) h4 in
    (
      target,
      p,
      q,
      not-false (is_move_pawn t.action) acting,
      not-false (has_dice d t.dices) having,
      found,
      here,
      next,
      ok-injective (moved now d target t p q) r h5,
    )

pub has_dice-IsDice :
    (d : ℕ) (dices : List ℕ) → All IsDice dices → has_dice d dices ≡ true → IsDice d
has_dice-IsDice d [] h e = cc
has_dice-IsDice d (x ∷ dices) h e = elim (Bool-cases (d == x)) [
  | inl same ↦ rw ((==_iff d x).0 same) h.0
  | inr other ↦ has_dice-IsDice d dices h.1 (rw other at e)
]

pub move_pawn_on-IsTable :
    (now : ℕ) (id : PawnId) (d : ℕ) (t : Table) {r : Moved}
    → IsTable t
    → move_pawn_on now id d t ≡ ok r
    → IsTable r.1
unfolding IsMove IsTable AreThings ArePawns after_landing
move_pawn_on-IsTable now id d t (pawns, dices, playable) h =
    let (target, p, q, acting, having, found, here, next, result) =
      move_pawn_on-IsMove now id d t h in
    let lands : (p' : Pawn) → get_elem? t.pawns target ≡ some p' → IsOnPath (move_to q p') =
      λ p' at.
        move_found-IsOnPath d p' q (All-get_elem? IsOnPath t.pawns target pawns.1 at)
          (has_dice-IsDice d t.dices dices having)
          (rw (sym (some-injective p p' (sym here ∙ at))) next) in
    subst (λ x. IsTable x.1) result
      (after_move-IsTable now target d q t (
        check_moves-IsTable (after_landing target d q t) acting
          (after_landing-AreThings target d q t lands (pawns, dices))))
