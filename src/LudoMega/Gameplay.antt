-- ===== src/LudoMega/Gameplay.antt =====
-- apps/ludo-mega-tournament/src: gameplay.use-cases.ts and game-timer.use-cases.ts, with the
-- repository of redis-game.repository.ts. The locks are not modelled: a handler is one step. Of
-- `handleEndGame` the part up to the stored result is modelled, not the event and the tournament.
pub mod Kept
pub mod Steps
pub mod Late
use empire_backend.Base.Actions
pub use empire_backend.Base.Actions.{then_run, lift, done}
unfoldable pub use empire_backend.Base.Actions.{◌>>=◌, ◌>>◌}
use empire_backend.Base.{
  ℕ, ◌+◌, Bool, true, false, Option, none, some, List, [], ◌∷◌, ◌++◌, ◌==◌, leb, if◌then◌else◌,
}
use empire_backend.Base.Int.{ℤ}
use empire_backend.Base.Results.{Result, ok, err, not_found}
use empire_backend.LudoMega.{GameAction, PawnId}
use empire_backend.LudoMega.Table.{
  Table, TableData, from_data, to_data, already_started, increment_counter_and_timeout,
}
use empire_backend.LudoMega.Table.Offers.{NextActionEvent, generate_next_action}
use empire_backend.LudoMega.Table.Turn
use empire_backend.LudoMega.Table.Turn.{
  MovePawnResponseEvent, Rolled, roll_dice_on, should_end_game, get_home_pawn_count,
  remaining_moves_bonus, credit_bonus_for_remaining_moves, calculate_total_score,
}
use empire_backend.LudoMega.Table.Move.{Moved, move_pawn_on}

pub record GameTimerOption : Type 0 where
  pub table_id : ℕ
  pub action : GameAction
  pub target_counter : ℕ

-- What goes to the sockets; `remaining_moves_res` has the table, the bonus and the moves left.
pub data Event : Type 0 where
  move_pawn_res : MovePawnResponseEvent → Event
  next_action : NextActionEvent → Event
  remaining_moves_res : ℕ → ℤ → ℤ → Event

pub record GameResult : Type 0 where
  pub tournament_id : ℕ
  pub user_id : ℕ
  pub table_id : ℕ
  pub score : ℤ

pub record World : Type 0 where
  pub tables : ℕ → Option TableData
  pub user_tables : ℕ → Option ℕ
  pub timers : List GameTimerOption
  -- the tables whose end waits for half a second
  pub endings : List ℕ
  pub events : List Event
  pub results : List GameResult

abbrev pub Action : Type 0 → Type 0
Action A = Actions.Action World A

abbrev pub write : {A : Type 0} → ℕ → Option A → (ℕ → Option A) → ℕ → Option A
write k v m j = if j == k then v else m j

abbrev pub load : Option TableData → Result Table
load none = err not_found
load (some d) = ok (from_data d)

unfoldable pub retrieve_game_table : ℕ → Action Table
unfolding from_data
retrieve_game_table table_id w = (load (w.tables table_id), w)

unfoldable pub store_game_table : Table → Action (Unit {0})
unfolding to_data
store_game_table t w = (ok tt, record w { tables = write t.id (some (to_data t)) w.tables })

unfoldable pub store_and_cache : Table → Action (Unit {0})
unfolding to_data
store_and_cache t w = (
  ok tt,
  record w {
    tables = write t.id (some (to_data t)) w.tables;
    user_tables = write t.user_id (some t.id) w.user_tables;
  },
)

unfoldable pub delete_game_table : ℕ → ℕ → Action (Unit {0})
delete_game_table table_id user_id w = (
  ok tt,
  record w {
    tables = write table_id none w.tables;
    user_tables = write user_id none w.user_tables;
  },
)

abbrev pub start_game_timer : GameTimerOption → Action (Unit {0})
start_game_timer o w = (ok tt, record w { timers = w.timers ++ (o ∷ []) })

abbrev pub end_later : ℕ → Action (Unit {0})
end_later table_id w = (ok tt, record w { endings = w.endings ++ (table_id ∷ []) })

abbrev pub emit : Event → Action (Unit {0})
emit e w = (ok tt, record w { events = w.events ++ (e ∷ []) })

abbrev pub store_game_result : GameResult → Action (Unit {0})
store_game_result r w = (ok tt, record w { results = w.results ++ (r ∷ []) })

-- The timer that skips the turn of a player who does nothing.
abbrev pub skip_timer : ℕ → Table → GameTimerOption
skip_timer table_id t = record {
  table_id = table_id;
  action = GameAction.skip_turn;
  target_counter = t.counter + 1;
}

-- The end of `handlePlayRequest`, after the tournament is checked and the fee debited.
unfoldable pub prepare_game_table : Table → Action (Unit {0})
unfolding store_and_cache
prepare_game_table t = do
  store_and_cache t
  start_game_timer
      record { table_id = t.id; action = GameAction.start_game; target_counter = t.counter + 1 }

unfoldable pub begin_game : ℕ → ℕ → Table → Action (Option NextActionEvent)
unfolding store_game_table increment_counter_and_timeout generate_next_action
begin_game now table_id t =
    let t' = increment_counter_and_timeout now t in
    start_game_timer (skip_timer table_id t')
    >> (store_game_table t' >> lift (ok (some (generate_next_action t'))))

unfoldable pub handle_ready_to_start : ℕ → ℕ → Action (Option NextActionEvent)
unfolding retrieve_game_table already_started begin_game
handle_ready_to_start now table_id = do
  t ← retrieve_game_table table_id
  (if already_started t then lift (ok none) else begin_game now table_id t)

-- What `handleRollDice` and `handleMovePawn` do while the game goes on.
unfoldable pub go_on : ℕ → Table → Action (Unit {0})
unfolding generate_next_action
go_on table_id t = do
  start_game_timer (skip_timer table_id t)
  emit (next_action (generate_next_action t))

abbrev pub emit_skipped : Option MovePawnResponseEvent → Action (Unit {0})
emit_skipped none = done
emit_skipped (some e) = emit (move_pawn_res e)

unfoldable pub after_roll : ℕ → Rolled → Action (Unit {0})
unfolding store_game_table should_end_game go_on
after_roll table_id (skipped_move, t) = do
  store_game_table t
  emit_skipped skipped_move
  (if should_end_game t then end_later table_id else go_on table_id t)

unfoldable pub handle_roll_dice : Bool → ℕ → ℕ → ℕ → ℕ → Action ℕ
unfolding retrieve_game_table roll_dice_on after_roll
handle_roll_dice extra now dice table_id user_id = do
  t ← retrieve_game_table table_id
  r ← lift (roll_dice_on extra now dice t)
  after_roll table_id r
  lift (ok dice)

unfoldable pub finish_game : ℕ → Table → Action (Unit {0})
unfolding delete_game_table calculate_total_score
finish_game table_id t = do
  delete_game_table table_id t.user_id
  store_game_result record {
    tournament_id = t.tournament_id;
    user_id = t.user_id;
    table_id = table_id;
    score = calculate_total_score t;
  }

-- With four pawns at home the moves that are left are worth a bonus.
unfoldable pub end_with : ℕ → Table → Action (Unit {0})
unfolding get_home_pawn_count remaining_moves_bonus credit_bonus_for_remaining_moves finish_game
end_with table_id t =
    if get_home_pawn_count t.pawns == 4
    then (emit (remaining_moves_res table_id (remaining_moves_bonus t) t.remaining_moves)
        >> finish_game table_id (credit_bonus_for_remaining_moves t))
    else finish_game table_id t

unfoldable pub handle_end_game : ℕ → Action (Unit {0})
unfolding retrieve_game_table end_with
handle_end_game table_id = do t ← retrieve_game_table table_id; end_with table_id t

unfoldable pub after_move_request : ℕ → Moved → Action MovePawnResponseEvent
unfolding store_game_table should_end_game handle_end_game go_on
after_move_request table_id (response, t) = do
  store_game_table t
  (if should_end_game t then handle_end_game table_id else go_on table_id t)
  lift (ok response)

unfoldable pub handle_move_pawn : ℕ → ℕ → ℕ → PawnId → ℕ → Action MovePawnResponseEvent
unfolding retrieve_game_table move_pawn_on after_move_request
handle_move_pawn now user_id table_id pawn dice = do
  t ← retrieve_game_table table_id
  r ← lift (move_pawn_on now pawn dice t)
  after_move_request table_id r

-- A game that ends by a skipped turn ends with the table as it was stored before.
unfoldable pub after_skip : ℕ → Table → Action (Unit {0})
unfolding store_game_table should_end_game handle_end_game generate_next_action
after_skip table_id t =
    if should_end_game t
    then handle_end_game table_id
    else (start_game_timer (skip_timer table_id t)
        >> (store_game_table t >> emit (next_action (generate_next_action t))))

unfoldable pub handle_skip_turn : ℕ → ℕ → Action (Unit {0})
unfolding retrieve_game_table after_skip Turn.skip_turn
handle_skip_turn now table_id = do
  t ← retrieve_game_table table_id
  after_skip table_id (Turn.skip_turn now t)

-- The `switch` of `handleTimeout`; the event that `handleReadyToStart` returns goes to nobody.
unfoldable pub dispatch : ℕ → ℕ → GameAction → Action (Unit {0})
unfolding handle_ready_to_start handle_skip_turn handle_end_game
dispatch now table_id GameAction.start_game = handle_ready_to_start now table_id >>= λ e. done
dispatch now table_id GameAction.skip_turn = handle_skip_turn now table_id
dispatch now table_id GameAction.end_game = handle_end_game table_id
dispatch now table_id _ = done

-- Whatever is raised goes to nobody.
unfoldable pub handle_timeout : ℕ → GameTimerOption → Action (Unit {0})
unfolding retrieve_game_table dispatch
handle_timeout now o = do
  t ← retrieve_game_table o.table_id
  (if leb o.target_counter t.counter then done else dispatch now o.table_id o.action)
