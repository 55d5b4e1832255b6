-- ===== src/Cricket/Handlers.antt =====
-- apps/epl-gameplay/src/domain/use-cases/gameplay.usecases.ts: the handlers of a running game.
use mathlib.Core.Option.{get_or}
use empire_backend.Base.{
  ℕ, ◌+◌, Bool, true, false, not, ◌&&◌, Option, none, some, List, map, ltb, ◌==◌, if◌then◌else◌,
  find?, find_index, set, get_elem?, filter, length,
}
use empire_backend.Base.Results.{bad_request, internal, type_error, or_throw, throw_if}
use empire_backend.Base.Actions.{Action, ◌>>=◌, ◌>>◌, lift, done}
use empire_backend.Cricket.{
  Role, batsman, bowler, GameStatus, Player, Table, inning_start, inning_end, turn_events,
  PlayerResult, turn_timeout, inning_started, turn_result, game_ended, player_left, World,
  is_batsman, is_bowler, is_completed, retrieve_game_table, store_game_table, store_and_cache,
  delete_user_table_cache, emit, start_job, debit_join_fee, create,
}

abbrev pub total_number_of_turns : ℕ
total_number_of_turns = 6

abbrev pub user_ids : Table → List ℕ
user_ids t = map (λ (p : Player). p.user_id) t.users

unfoldable pub handle_turn_timeout : ℕ → Action World (Unit {0})
handle_turn_timeout table_id = do
  t ← retrieve_game_table table_id
  (if is_completed t.status
      then done
      else (emit (turn_timeout t.id (user_ids t)) >> store_game_table t))

-- The target is told in the second innings.
unfoldable pub handle_inning_start : ℕ → Action World (Unit {0})
handle_inning_start table_id = do
  t ← retrieve_game_table table_id
  (if is_completed t.status
      then done
      else (emit (
            inning_started t.id (user_ids t) t.innings
              (if t.innings == 2 then t.target_score else none))
          >> (store_game_table (record t { turn_no = 1; is_out = false })
              >> start_job table_id turn_events)))

abbrev pub score_of : Option Player → ℕ
score_of none = 0
score_of (some p) = p.score

-- `winner`: there is none without a batsman and a bowler, or when they have the same score.
unfoldable pub winner : Table → Option Player
winner t = go (find? is_batsman t.users) (find? is_bowler t.users)
  where
    go : Option Player → Option Player → Option Player
    go (some b) (some o) =
        if ltb o.score b.score then some b else if ltb b.score o.score then some o else none
    go _ _ = none

abbrev pub is_id : Option Player → ℕ → Bool
is_id none user_id = false
is_id (some p) user_id = user_id == p.user_id

unfoldable pub player_results : Table → List PlayerResult
player_results t =
    map
      (λ (p : Player). record {
        user_id = p.user_id;
        score = p.score;
        win_amount = if is_id (winner t) p.user_id then t.win_amount else 0;
        is_winner = is_id (winner t) p.user_id;
      })
      t.users

unfoldable pub handle_game_ended : ℕ → Action World (Unit {0})
handle_game_ended table_id = do
  t ← retrieve_game_table table_id
  (if is_completed t.status then emit (game_ended t.id (player_results t)) else done)

abbrev pub other_role : Role → Role
other_role batsman = bowler
other_role bowler = batsman

unfoldable pub second_innings : Table → Table
second_innings t = record t {
  innings = 2;
  turn_no = 1;
  is_out = false;
  users = map (λ (p : Player). record p { role = other_role p.role; score = 0; runs = 0 }) t.users;
}

unfoldable pub handle_inning_end : ℕ → Action World (Unit {0})
handle_inning_end table_id = do
  t ← retrieve_game_table table_id
  (if t.innings == 1
      then (store_game_table (second_innings t) >> handle_inning_start table_id)
      else if t.innings == 2
      then (store_game_table (record t { status = GameStatus.completed })
          >> handle_game_ended table_id)
      else done)

unfoldable pub calculate_and_update_score : ℕ → Action World (Unit {0})
calculate_and_update_score table_id = do
  t ← retrieve_game_table table_id
  store_game_table
      (record t { users = map (λ (p : Player). record p { score = p.score + p.runs }) t.users })

unfoldable pub with_target : Table → Table
with_target t =
    if ltb 0 (score_of (find? is_batsman t.users))
    then record t { target_score = some (score_of (find? is_batsman t.users) + 1) }
    else t

unfoldable pub calculate_target_score : ℕ → Action World (Unit {0})
calculate_target_score table_id = do
  t ← retrieve_game_table table_id
  store_game_table (with_target t)

abbrev pub reset_runs : Table → Table
reset_runs t = record t { users = map (λ (p : Player). record p { runs = 0 }) t.users }

-- `batsman && Number(batsman.score) > Number(targetScore)`; the empty text is 0.
unfoldable pub has_chased : Table → Bool
has_chased t = elim (find? is_batsman t.users) [
  | none ↦ false
  | some b ↦ ltb (get_or t.target_score 0) b.score
]

-- The end of `handleTurnResult`, on the table with the runs reset.
unfoldable pub next_turn : ℕ → Table → Action World (Unit {0})
next_turn table_id t =
    if t.is_out
    then (calculate_target_score table_id >> start_job table_id inning_end)
    else if (t.innings == 2) && has_chased t
    then handle_game_ended table_id
    else store_game_table (record t { turn_no = t.turn_no + 1 })

unfoldable pub handle_turn_result : ℕ → Action World (Unit {0})
handle_turn_result table_id = do
  before ← retrieve_game_table table_id
  (if before.bat_bowl_action then calculate_and_update_score table_id else done)
  t ← retrieve_game_table table_id
  emit (turn_result t.id t.users t.is_out t.target_score)
  next_turn table_id (reset_runs t)

-- `scheduleTurnEvents` up to the wait for the turn, and after it.
unfoldable pub schedule_turn_events : ℕ → Action World (Unit {0})
schedule_turn_events table_id = do
  t ← retrieve_game_table table_id
  (if is_completed t.status
      then done
      else if ltb total_number_of_turns t.turn_no
      then (calculate_target_score table_id >> start_job table_id inning_end)
      else (handle_turn_timeout table_id
          >> (handle_turn_result table_id >> start_job table_id turn_events)))

abbrev same_runs : Option Player → Option Player → Bool
same_runs (some b) (some o) = b.runs == o.runs
same_runs _ _ = false

unfoldable pub check_if_out : List Player → Bool
check_if_out users = same_runs (find? is_batsman users) (find? is_bowler users)

abbrev same_role : Role → Role → Bool
same_role batsman batsman = true
same_role bowler bowler = true
same_role _ _ = false

abbrev pub find_user : ℕ → List Player → Option ℕ
find_user user_id users = find_index (λ (p : Player). p.user_id == user_id) users

unfoldable pub check_and_handle_is_out : ℕ → Action World (Unit {0})
check_and_handle_is_out table_id = do
  t ← retrieve_game_table table_id
  (if t.is_out
      then (store_game_table (record t {
        innings = t.innings + 1;
        target_score = some (elim (find? is_batsman t.users) [ none ↦ 0 | some b ↦ b.score + 1 ]);
      })
          >> start_job table_id inning_start)
      else done)

-- The table after the runs of a player are written.
unfoldable pub with_runs : ℕ → ℕ → Player → Table → Table
unfolding check_if_out
with_runs index runs p t =
    let users = set t.users index (record p { runs = runs }) in
    record t { users = users; is_out = check_if_out users; bat_bowl_action = true }

unfoldable pub handle_bat_bowl_request : ℕ → ℕ → ℕ → Role → Action World (Unit {0})
handle_bat_bowl_request table_id runs user_id role = do
  t ← retrieve_game_table table_id
  index ← lift (or_throw (find_user user_id t.users) internal)
  p ← lift (or_throw (get_elem? t.users index) internal)
  lift (throw_if (not (same_role p.role role)) bad_request)
  store_game_table (with_runs index runs p t)
  check_and_handle_is_out table_id

-- `startGame` of two users, whose roles `shuffleArray` gives.
unfoldable pub start_game : ℕ → List ℕ → List Role → ℕ → ℕ → Action World (Unit {0})
start_game fresh users roles amount win_amount = do
  store_and_cache (create fresh users roles amount win_amount GameStatus.ongoing)
  debit_join_fee users amount fresh
  start_job fresh inning_start

-- `getRemainingPlayers`
unfoldable pub get_remaining_players : Table → List Player
get_remaining_players t = filter (λ (p : Player). not p.did_leave) t.users

-- `leftPlayer.didLeave = true`
abbrev pub with_left : ℕ → Player → Table → Table
with_left index p t = record t { users = set t.users index (record p { did_leave = true }) }

-- The end of `handleLeaveTable`: the game ends when one player remains.
unfoldable pub end_if_one_remains : Table → Action World (Unit {0})
unfolding get_remaining_players
end_if_one_remains t =
    if length (get_remaining_players t) == 1
    then (store_game_table (record t { status = GameStatus.completed }) >> handle_game_ended t.id)
    else done

-- A user who is not at the table has no player: `users[-1].playerId` raises.
unfoldable pub handle_leave_table : ℕ → ℕ → Action World (Unit {0})
handle_leave_table table_id user_id = do
  t ← retrieve_game_table table_id
  index ← lift (or_throw (find_user user_id t.users) type_error)
  p ← lift (or_throw (get_elem? t.users index) type_error)
  emit (player_left (map (λ (q : Player). q.user_id) (get_remaining_players t)) t.id p.player_id)
  delete_user_table_cache user_id
  store_game_table (with_left index p t)
  end_if_one_remains (with_left index p t)
