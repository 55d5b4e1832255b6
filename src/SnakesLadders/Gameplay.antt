-- ===== src/SnakesLadders/Gameplay.antt =====
-- apps/sl-gameplay: what the handlers of gameplay.usecases .ts change outside the table they work
-- on, and the calls that change it: the repository of redis-game.repository.ts, the timers of
-- game-timer.usecases.ts, the events, the wallet and the histories. A handler is a function of
-- this world that may raise; a raise keeps the writes before it.
pub mod Winners
pub mod Ending
pub mod Playing
pub mod Leaving
pub mod Starting
pub mod Stored
pub mod Keeping
pub mod Steps
use Prim.Native.String.{String}
use empire_backend.Base.Actions
pub use empire_backend.Base.Actions.{then_run, lift, done}
unfoldable pub use empire_backend.Base.Actions.{◌>>=◌, ◌>>◌}
use empire_backend.Base.{
  ℕ, ◌+◌, Bool, true, false, Option, none, some, List, [], ◌∷◌, ◌++◌, ◌==◌, if◌then◌else◌,
}
use empire_backend.Base.Results.{Error, not_found, Result, ok, err}
use empire_backend.SnakesLadders.Types.{GameAction, PawnId}
use empire_backend.SnakesLadders.Table.{User, Table, TableData, new_table, to_data}
use empire_backend.SnakesLadders.Table.Turn.{NextActionEvent}
use empire_backend.SnakesLadders.Table.Move.{MovePawnResponse, KillPawnResponse}

pub record GameTimerOption : Type 0 where
  pub table_id : ℕ
  pub target_counter : ℕ
  pub action : GameAction
  pub delay_in_seconds : ℕ

-- The amount `win_amount / winners`.
pub record Share : Type 0 where
  pub win_amount : ℕ
  pub winners : ℕ

pub record EndGameEvent : Type 0 where
  pub player_id : ℕ
  pub name : String
  pub avatar : ℕ
  pub total_score : ℕ
  pub win_amount? : Option Share
  pub is_winner : Bool

-- What goes to the sockets. A list holds the users that are told; `start_game_res` has the times
-- at which the start and the game end.
pub data Event : Type 0 where
  roll_dice_res : ℕ → ℕ → ℕ → Event
  move_pawn_res : MovePawnResponse → Event
  next_action : NextActionEvent → Event
  pawn_killed : ℕ → KillPawnResponse → Event
  turn_skipped : List ℕ → ℕ → ℕ → Event
  leave_table : List ℕ → ℕ → ℕ → Event
  game_end_res : List ℕ → ℕ → List EndGameEvent → Event
  start_game_res : List (ℕ × ℕ) → ℕ → ℕ → ℕ → Event

-- A call of the wallet: the users, the table and the amount.
pub data WalletCall : Type 0 where
  debit_join_fee : List ℕ → ℕ → ℕ → WalletCall
  refund_join_fee : List ℕ → ℕ → ℕ → WalletCall
  credit_winning_amount : ℕ → ℕ → Share → WalletCall

pub record World : Type 0 where
  pub tables : ℕ → Option TableData
  pub user_tables : ℕ → Option ℕ
  pub timers : List GameTimerOption
  -- each event with its delay in milliseconds
  pub events : List (ℕ × Event)
  pub wallet : List WalletCall
  -- the table and, where one player left, that player
  pub histories : List (ℕ × Option ℕ)
  -- the jobs that end a game: the table and the time
  pub scheduled : List (ℕ × ℕ)
  pub free_games : List ℕ
  pub big_table_users : List ℕ

abbrev pub Action : Type 0 → Type 0
Action A = Actions.Action World A

abbrev pub write : {A : Type 0} → ℕ → Option A → (ℕ → Option A) → ℕ → Option A
write k v m j = if j == k then v else m j

-- The repository.
abbrev pub load : Option TableData → Result Table
load none = err not_found
load (some d) = new_table 0 d

unfoldable pub retrieve_game_table : ℕ → Action Table
unfolding new_table
retrieve_game_table table_id w = (load (w.tables table_id), w)

unfoldable pub store_game_table : Table → Action (Unit {0})
unfolding to_data
store_game_table t w = (ok tt, record w { tables = write t.id (some (to_data t)) w.tables })

-- The loop over the users of `storeGameTable`, with `shouldCacheForUser`.
unfoldable pub cache_for_users : ℕ → List User → (ℕ → Option ℕ) → ℕ → Option ℕ
cache_for_users table_id [] m = m
cache_for_users table_id (u ∷ users) m =
    cache_for_users table_id users (write u.user_id (some table_id) m)

unfoldable pub store_and_cache : Table → Action (Unit {0})
unfolding to_data cache_for_users
store_and_cache t w = (
  ok tt,
  record w {
    tables = write t.id (some (to_data t)) w.tables;
    user_tables = cache_for_users t.id t.users w.user_tables;
  },
)

abbrev pub without_keys : List ℕ → (ℕ → Option ℕ) → ℕ → Option ℕ
without_keys [] m = m
without_keys (k ∷ ks) m = without_keys ks (write k none m)

unfoldable pub delete_game_table : ℕ → List ℕ → Action (Unit {0})
delete_game_table table_id user_ids w = (
  ok tt,
  record w {
    tables = write table_id none w.tables;
    user_tables = without_keys user_ids w.user_tables;
  },
)

unfoldable pub delete_user_table_cache : ℕ → Action (Unit {0})
delete_user_table_cache user_id w =
    (ok tt, record w { user_tables = write user_id none w.user_tables })

-- The other calls: each adds to what the world has seen.
abbrev pub start_game_timer : GameTimerOption → Action (Unit {0})
start_game_timer o w = (ok tt, record w { timers = w.timers ++ (o ∷ []) })

abbrev pub emit : ℕ → Event → Action (Unit {0})
emit delay e w = (ok tt, record w { events = w.events ++ ((delay, e) ∷ []) })

abbrev pub call_wallet : WalletCall → Action (Unit {0})
call_wallet c w = (ok tt, record w { wallet = w.wallet ++ (c ∷ []) })

abbrev pub create_history : ℕ → Option ℕ → Action (Unit {0})
create_history table_id user_id w =
    (ok tt, record w { histories = w.histories ++ ((table_id, user_id) ∷ []) })

abbrev pub schedule_end_game : ℕ → ℕ → Action (Unit {0})
schedule_end_game table_id end_at w =
    (ok tt, record w { scheduled = w.scheduled ++ ((table_id, end_at) ∷ []) })

-- The timer that skips the turn of a player who does nothing.
abbrev pub skip_timer : Table → GameTimerOption
skip_timer t = record {
  table_id = t.id;
  target_counter = t.counter + 1;
  action = GameAction.skip_turn;
  delay_in_seconds = t.turn_timeout;
}
