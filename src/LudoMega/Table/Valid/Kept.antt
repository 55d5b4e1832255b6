-- ===== src/LudoMega/Table/Valid/Kept.antt =====
-- table.entity.ts: every operation keeps a table valid.
use empire_backend.Base.{
  ℕ, ◌≡◌, refl, ◌∙◌, subst, Bool, true, not, ◌||◌, inl, inr, none, List, [], ◌∷◌, ◌++◌, map, All,
  Bool-cases, not-false, ◌==◌,
}
use empire_backend.Base.Results.{
  ok, type_error, bad_request, ◌>>=◌, >>=-eq-ok, throw_if-eq-ok, or_throw-eq-ok, ok-injective,
}
use empire_backend.LudoMega.{
  GameAction, roll_dice, move_pawn, skip_turn, end_game, leave_table, start_game, discard_game,
  is_roll_dice,
}
use empire_backend.LudoMega.Pawn.{PawnPosition, from_pawn_position}
use empire_backend.LudoMega.Table.{Table, create, increment_counter_and_timeout}
use empire_backend.LudoMega.Table.Offers.{get_can_move_pawns}
use empire_backend.LudoMega.Table.Turn
use empire_backend.LudoMega.Table.Turn.{
  Rolled, skip_with, turn_over, finish_roll, first_out, got_three_6, MovePawnResponseEvent,
  roll_dice_on, settle_dice, skip_move, after_dice, after_three_6, keep_action_bonus, push_dice,
  start_move, end_turn, credit_action_bonus,
}
use empire_backend.LudoMega.Table.Move.{is_stuck}
use empire_backend.LudoMega.Table.Valid.{IsTable, ArePawns, IsDice, IsPlayable}

pub create-IsTable :
    (now id tournament_id user_id total_moves : ℕ) (positions : List PawnPosition)
    → ArePawns (map from_pawn_position positions)
    → IsTable (create now id tournament_id user_id total_moves positions)
unfolding create IsTable IsPlayable
create-IsTable now id tournament_id user_id total_moves positions h = (h, tt, tt)

pub skip_turn-IsTable : (now : ℕ) (t : Table) → IsTable t → IsTable (Turn.skip_turn now t)
unfolding Turn.skip_turn IsTable IsPlayable increment_counter_and_timeout
skip_turn-IsTable now t (pawns, dices, playable) = (pawns, tt, tt)

All-append_one :
    (dices : List ℕ) (d : ℕ) → All IsDice dices → IsDice d → All IsDice (dices ++ (d ∷ []))
All-append_one [] d h last = (last, tt)
All-append_one (e ∷ dices) d h last = (h.0, All-append_one dices d h.1 last)

-- The pawns and the dices of a valid table.
unfoldable pub AreThings : Table → Type 0
unfolding ArePawns IsDice
AreThings t = ArePawns t.pawns × All IsDice t.dices

after_dice-AreThings :
    (now dice : ℕ) (t : Table) → IsDice dice → AreThings t → AreThings (after_dice now dice t)
unfolding after_dice after_three_6 keep_action_bonus AreThings
after_dice-AreThings now dice t is_dice (pawns, dices) =
    elim (Bool-cases (got_three_6 (t.dices ++ (dice ∷ [])))) [
      | inl three ↦ rw three (pawns, tt)
      | inr other ↦ rw other (pawns, All-append_one t.dices dice dices is_dice)
    ]

after_dice-action :
    (now dice : ℕ) (t : Table) → is_roll_dice (after_dice now dice t).action ≡ is_roll_dice t.action
unfolding after_dice after_three_6 keep_action_bonus
after_dice-action now dice t = elim (Bool-cases (got_three_6 (t.dices ++ (dice ∷ [])))) [
  | inl three ↦ rw three refl
  | inr other ↦ rw other refl
]

is_roll_dice-eq : (a : GameAction) → is_roll_dice a ≡ true → a ≡ roll_dice
is_roll_dice-eq roll_dice h = refl
is_roll_dice-eq move_pawn h = cc
is_roll_dice-eq skip_turn h = cc
is_roll_dice-eq end_game h = cc
is_roll_dice-eq leave_table h = cc
is_roll_dice-eq start_game h = cc
is_roll_dice-eq discard_game h = cc

roll_dice-IsPlayable : (a : GameAction) (stuck : Bool) → is_roll_dice a ≡ true → IsPlayable a stuck
unfolding IsPlayable
roll_dice-IsPlayable a stuck h = rw (is_roll_dice-eq a h) tt

skip_move-IsTable :
    (now : ℕ) (t : Table) {r : Rolled}
    → is_roll_dice t.action ≡ true
    → ArePawns t.pawns
    → skip_move now t ≡ ok r
    → IsTable r.1
unfolding skip_move IsTable end_turn credit_action_bonus
skip_move-IsTable now t roll pawns h =
    let (p, found, result) =
      or_throw-eq-ok (first_out t.pawns) type_error (λ p. ok (skip_with now t p)) h in
    subst (λ x. IsTable x.1) (ok-injective (skip_with now t p) _ result)
      (pawns, tt, roll_dice-IsPlayable t.action _ roll)

settle_dice-IsTable :
    (extra : Bool) (now dice : ℕ) (t : Table) {r : Rolled}
    → is_roll_dice t.action ≡ true
    → AreThings t
    → settle_dice extra now dice t ≡ ok r
    → IsTable r.1
unfolding settle_dice AreThings IsTable
settle_dice-IsTable extra now dice t roll (pawns, dices) h =
    elim (Bool-cases (not (dice == 6) || not extra)) [
      | inr again ↦
          subst (λ x. IsTable x.1) (ok-injective (none, t) _ (rw again at h))
            (pawns, dices, roll_dice-IsPlayable t.action _ roll)
      | inl over ↦ elim (Bool-cases (is_stuck t)) [
        | inl stuck ↦ skip_move-IsTable now t roll pawns (rw (over, stuck) at h)
        | inr free ↦
            subst (λ x. IsTable x.1) (ok-injective (none, start_move t) _ (rw (over, free) at h))
              (pawns, dices, free)
      ]
    ]

pub roll_dice_on-IsTable :
    (extra : Bool) (now dice : ℕ) (t : Table) {r : Rolled}
    → IsDice dice
    → IsTable t
    → roll_dice_on extra now dice t ≡ ok r
    → IsTable r.1
unfolding roll_dice_on IsTable AreThings increment_counter_and_timeout get_can_move_pawns
roll_dice_on-IsTable extra now dice t is_dice (pawns, dices, playable) h =
    let settling = settle_dice extra now dice (after_dice now dice t) in
    let (roll, rolled) =
      throw_if-eq-ok (not (is_roll_dice t.action)) bad_request
        (settling >>= λ r. ok (finish_roll now r)) h in
    let (s, settled, result) = >>=-eq-ok settling (λ r. ok (finish_roll now r)) rolled in
    let (pawns', dices') = after_dice-AreThings now dice t is_dice (pawns, dices) in
    let kept =
      settle_dice-IsTable extra now dice (after_dice now dice t)
        (after_dice-action now dice t ∙ not-false (is_roll_dice t.action) roll) (pawns', dices')
        settled in
    subst (λ x. IsTable x.1) (ok-injective (finish_roll now s) _ result) kept
