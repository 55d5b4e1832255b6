-- ===== src/LudoMega/Gameplay/Late.antt =====
-- gameplay.use-cases.ts: a game that is to end waits for half a second, and the table is still there.
use empire_backend.Base.{ℕ, ◌≡◌, refl, ap, ◌∙◌, Bool, true, Bool-cases, inl, inr, none, some}
use empire_backend.Base.Actions.{◌>>=◌, ◌>>◌}
use empire_backend.Base.Results.{Result, ok, err}
use empire_backend.LudoMega.{is_roll_dice}
use empire_backend.LudoMega.Pawn.{Pawn}
use empire_backend.LudoMega.Table.{TableData, Table, from_data}
use empire_backend.LudoMega.Table.Turn.{Rolled, first_out, finish_roll, after_dice, should_end_game}
use empire_backend.LudoMega.Table.Valid.Progress.{settle_dice-ok, roll_dice_on-eq, after_dice-pawns}
use empire_backend.LudoMega.Gameplay.{
  World, after_roll, go_on, handle_roll_dice, retrieve_game_table, store_game_table, then_run, lift,
}

after_roll-ok : (table_id : ℕ) (r : Rolled) (w : World) → (after_roll table_id r w).0 ≡ ok tt
unfolding after_roll store_game_table go_on ◌>>=◌ ◌>>◌
after_roll-ok table_id (none, t) w = elim (Bool-cases (should_end_game t)) [
  | inl over ↦ rw over refl
  | inr more ↦ rw more refl
]
after_roll-ok table_id (some e, t) w = elim (Bool-cases (should_end_game t)) [
  | inl over ↦ rw over refl
  | inr more ↦ rw more refl
]

then_run-value :
    (r : Result (Unit {0}) × World) (dice : ℕ)
    → r.0 ≡ ok tt
    → (then_run r (λ _. lift (ok dice))).0 ≡ ok dice
then_run-value (ok u, w) dice h = refl
then_run-value (err e, w) dice h = cc

-- A roll is accepted whenever a roll is next and an own pawn is not at home, also when no move is
-- left and the game is to end.
pub handle_roll_dice-late :
    (extra : Bool) (now dice table_id user_id : ℕ) (w : World) (d : TableData) (p : Pawn)
    → w.tables table_id ≡ some d
    → is_roll_dice d.action ≡ true
    → first_out (from_data d).pawns ≡ some p
    → should_end_game (from_data d) ≡ true
    → (handle_roll_dice extra now dice table_id user_id w).0 ≡ ok dice
unfolding handle_roll_dice retrieve_game_table ◌>>=◌ ◌>>◌ from_data
handle_roll_dice-late extra now dice table_id user_id w d p here acting out ending =
    let t : Table = from_data d in
    let (r, settled) =
      settle_dice-ok extra now dice (after_dice now dice t) p
        (ap first_out (after_dice-pawns now dice t) ∙ out) in
    let rolled = roll_dice_on-eq extra now dice t r acting settled in
    rw (here, rolled)
      (then_run-value (after_roll table_id (finish_roll now r) w) dice
        (after_roll-ok table_id (finish_roll now r) w))
