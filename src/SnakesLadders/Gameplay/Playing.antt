-- ===== src/SnakesLadders/Gameplay/Playing.antt =====
-- gameplay.usecases .ts: `handleRollDice`, `handleMovePawn` and `handleNext`. The locks are not
-- modelled: a handler is one step.
use empire_backend.Base.{ℕ, ◌||◌, ◌==◌, if◌then◌else◌, find?}
use empire_backend.Base.Results.{ok, type_error, or_throw}
use empire_backend.SnakesLadders.Types.{PawnId, GameAction, Board}
use empire_backend.SnakesLadders.Table.{User, Table}
use empire_backend.SnakesLadders.Table.Turn.{
  get_random_dice_outcome, is_user, set_next_turn, roll_dice, check_if_pass_turn_to_next,
  generate_next_action,
}
use empire_backend.SnakesLadders.Table.Move.{MoveResult, move_pawn, should_end_game}
use empire_backend.SnakesLadders.Gameplay.{
  roll_dice_res, move_pawn_res, next_action, pawn_killed, Action, ◌>>=◌, ◌>>◌, lift, done,
  retrieve_game_table, store_game_table, start_game_timer, emit, skip_timer,
}
use empire_backend.SnakesLadders.Gameplay.Ending.{handle_end_game}

-- What both branches of `handleRollDice` do with the table.
unfoldable pub announce_roll : ℕ → ℕ → ℕ → ℕ → Table → Action (Unit {0})
unfolding store_game_table generate_next_action
announce_roll now table_id player_id dice t = do
  store_game_table (record t { updated_at = now })
  start_game_timer (skip_timer t)
  emit 0 (roll_dice_res table_id player_id dice)
  emit 1000 (next_action (generate_next_action t))

-- `handleRollDice` after `rollDice`.
unfoldable pub after_roll : ℕ → ℕ → ℕ → Table → ℕ → Action (Unit {0})
unfolding check_if_pass_turn_to_next set_next_turn announce_roll
after_roll now table_id dice t player_id =
    if check_if_pass_turn_to_next t
    then (lift (set_next_turn t.current_turn (record t { action = GameAction.roll_dice }))
        >>= announce_roll now table_id player_id dice)
    else announce_roll now table_id player_id dice (record t { action = GameAction.move_pawn })

abbrev pub player_id_of : User → ℕ
player_id_of u = u.player_id

unfoldable pub roll_for : ℕ → ℕ → ℕ → ℕ → Table → Action (Unit {0})
unfolding roll_dice after_roll
roll_for now outcome user_id table_id t = do
  (dice, t') ← lift (roll_dice now outcome t)
  u ← lift (or_throw (find? (is_user user_id) t'.users) type_error)
  after_roll now table_id dice t' (player_id_of u)

-- The random number of the dice is `num / den`.
unfoldable pub handle_roll_dice : ℕ → ℕ → ℕ → ℕ → ℕ → Action (Unit {0})
unfolding retrieve_game_table get_random_dice_outcome roll_for
handle_roll_dice now num den user_id table_id = do
  t ← retrieve_game_table table_id
  (if user_id == t.current_turn
      then roll_for now (get_random_dice_outcome num den) user_id table_id t
      else done)

abbrev pub roll_next : ℕ → Table → Table
roll_next now t = record t { action = GameAction.roll_dice; dice = 0; updated_at = now }

-- The table that is stored after a move, and the event of a killed pawn.
unfoldable pub settle_move : ℕ → ℕ → MoveResult → Table → Action Table
unfolding set_next_turn store_game_table
settle_move now table_id r t =
    if r.is_home_flag || r.kill_pawn_flag
    then (store_game_table (roll_next now t)
        >> ((if r.kill_pawn_flag then emit 1000 (pawn_killed table_id r.kill_response) else done)
            >> lift (ok (roll_next now t))))
    else (lift (set_next_turn t.current_turn t) >>= λ t'.
        store_game_table (roll_next now t') >> lift (ok (roll_next now t')))

-- The end of `handleMovePawn`.
unfoldable pub end_or_continue : ℕ → ℕ → ℕ → Table → Action (Unit {0})
unfolding should_end_game handle_end_game generate_next_action
end_or_continue now table_id delay t =
    if should_end_game t
    then handle_end_game now table_id
    else (emit delay (next_action (generate_next_action t)) >> start_game_timer (skip_timer t))

unfoldable pub handle_move_pawn : ℕ → Board → ℕ → PawnId → Action (Unit {0})
unfolding retrieve_game_table move_pawn settle_move end_or_continue
handle_move_pawn now board table_id pawn_id = do
  t ← retrieve_game_table table_id
  (r, t') ← lift (move_pawn now table_id pawn_id t.dice board t)
  emit 0 (move_pawn_res r.response)
  moved ← settle_move now table_id r t'
  end_or_continue now table_id (if r.require_longer_delay then 1500 else 1000) moved

unfoldable pub handle_next : ℕ → Action (Unit {0})
unfolding retrieve_game_table generate_next_action
handle_next table_id = do
  t ← retrieve_game_table table_id
  emit 1000 (next_action (generate_next_action t))
