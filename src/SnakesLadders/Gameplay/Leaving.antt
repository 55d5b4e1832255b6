-- ===== src/SnakesLadders/Gameplay/Leaving.antt =====
-- gameplay.usecases .ts: `handleSkipTurn` and `handleLeaveTable`, and `handleTimeout` of
-- game-timer.usecases.ts, which calls them.
pub mod Timers
use empire_backend.Base.{
  ℕ, ◌+◌, Bool, true, false, not, ◌&&◌, Option, none, some, List, [], ◌∷◌, map, leb, ◌==◌,
  if◌then◌else◌, length, get_elem?, set, find_index, find?,
}
use empire_backend.Base.Results.{ok, type_error, or_throw}
use empire_backend.SnakesLadders.Types.{GameAction}
use empire_backend.SnakesLadders.Table.{User, Table}
use empire_backend.SnakesLadders.Table.Turn.{
  is_user, increment_counter_and_timeout, set_next_turn, generate_next_action,
}
use empire_backend.SnakesLadders.Table.Move.{should_end_game}
use empire_backend.SnakesLadders.Table.Skip.{skip_turn}
use empire_backend.SnakesLadders.Gameplay.{
  GameTimerOption, turn_skipped, leave_table, next_action, Action, ◌>>=◌, ◌>>◌, lift, done,
  retrieve_game_table, store_game_table, delete_user_table_cache, start_game_timer, emit,
  create_history, skip_timer,
}
use empire_backend.SnakesLadders.Gameplay.Winners.{get_remaining_players}
use empire_backend.SnakesLadders.Gameplay.Ending.{id_of, handle_end_game}
use empire_backend.SnakesLadders.Gameplay.Playing.{player_id_of, end_or_continue, handle_next}

-- `leftPlayer.didLeave = true`
unfoldable pub without_player : ℕ → ℕ → User → Table → Table
without_player now index u t = record t {
  users = set t.users index (record u { did_leave = true });
  updated_at = now;
}

-- The turn goes on where the player who left had it.
unfoldable pub pass_turn_on : ℕ → ℕ → Table → Action (Unit {0})
unfolding set_next_turn increment_counter_and_timeout store_game_table generate_next_action
pass_turn_on now user_id t = do
  t' ← lift (set_next_turn user_id t)
  let next = record (increment_counter_and_timeout now t') {
    action = GameAction.roll_dice;
    updated_at = now;
  }
  store_game_table next
  emit 1000 (next_action (generate_next_action next))
  start_game_timer (skip_timer next)

-- What follows the departure: the game ends with one player left.
unfoldable pub after_leave : ℕ → ℕ → Table → Action (Unit {0})
unfolding get_remaining_players handle_end_game pass_turn_on
after_leave now user_id t =
    if length (get_remaining_players t) == 1
    then handle_end_game now t.id
    else if user_id == t.current_turn
    then pass_turn_on now user_id t
    else done

-- `handleLeaveTable` after the table and the player are found.
unfoldable pub leave_from : ℕ → ℕ → Table → ℕ → User → Action (Unit {0})
unfolding get_remaining_players delete_user_table_cache without_player store_game_table after_leave
leave_from now user_id t index u = do
  emit 0 (leave_table (map id_of (get_remaining_players t)) t.id u.player_id)
  delete_user_table_cache user_id
  store_game_table (without_player now index u t)
  after_leave now u.user_id (without_player now index u t)
  create_history t.id (some user_id)

unfoldable pub handle_leave_table : ℕ → ℕ → ℕ → Action (Unit {0})
unfolding retrieve_game_table leave_from
handle_leave_table now table_id user_id = do
  t ← retrieve_game_table table_id
  index ← lift (or_throw (find_index (is_user user_id) t.users) type_error)
  u ← lift (or_throw (get_elem? t.users index) type_error)
  leave_from now user_id t index u

-- `handleSkipTurn` for a player who stays, on the table read again.
unfoldable pub skip_and_stay : ℕ → ℕ → Table → Action (Unit {0})
unfolding get_remaining_players set_next_turn store_game_table end_or_continue
skip_and_stay now table_id t = do
  u ← lift (or_throw (find? (is_user t.current_turn) t.users) type_error)
  emit 0 (turn_skipped (map id_of (get_remaining_players t)) u.player_id u.lives)
  t' ← lift (set_next_turn t.current_turn t)
  let next = record t' { dice = 0 }
  store_game_table next
  end_or_continue now table_id 1000 next

unfoldable pub skip_or_leave : ℕ → ℕ → Table → Action (Unit {0})
unfolding skip_turn store_game_table retrieve_game_table handle_leave_table skip_and_stay
skip_or_leave now table_id pre_table = do
  (t, should_leave) ← lift (skip_turn now pre_table)
  store_game_table (record t { updated_at = now })
  new_table ← retrieve_game_table table_id
  (if should_leave
      then handle_leave_table now new_table.id new_table.current_turn
      else skip_and_stay now table_id new_table)

unfoldable pub handle_skip_turn : ℕ → ℕ → ℕ → Action (Unit {0})
unfolding retrieve_game_table skip_or_leave
handle_skip_turn now table_id user_id = do
  pre_table ← retrieve_game_table table_id
  (if pre_table.current_turn == user_id then skip_or_leave now table_id pre_table else done)

abbrev pub is_end_game : GameAction → Bool
is_end_game GameAction.end_game = true
is_end_game _ = false

-- The `switch` of `handleTimeout`.
unfoldable pub dispatch : ℕ → ℕ → ℕ → GameAction → Action (Unit {0})
unfolding handle_next handle_skip_turn handle_end_game
dispatch now table_id current_turn GameAction.next = handle_next table_id
dispatch now table_id current_turn GameAction.skip_turn = handle_skip_turn now table_id current_turn
dispatch now table_id current_turn GameAction.end_game = handle_end_game now table_id
dispatch now table_id current_turn _ = done

-- `handleTimeout` catches whatever is raised while the table is read; the handlers it starts are
-- returned without being awaited, so what they raise goes to nobody.
unfoldable pub handle_timeout : ℕ → GameTimerOption → Action (Unit {0})
unfolding retrieve_game_table dispatch
handle_timeout now o = do
  t ← retrieve_game_table o.table_id
  (if leb o.target_counter t.counter && not (is_end_game o.action)
      then done
      else dispatch now o.table_id t.current_turn o.action)
