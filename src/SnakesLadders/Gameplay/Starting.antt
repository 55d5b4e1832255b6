-- ===== src/SnakesLadders/Gameplay/Starting.antt =====
-- gameplay.usecases .ts: `startGame`, `debitJoinFee`, `deleteBigTableUsersIfBigTable`,
-- `clearTable` and `refundStuckTable`. The configuration is a parameter, and so is the wallet's
-- answer to `checkSLWalletBalance`.
pub mod Joined
use empire_backend.Base.{
  ℕ, zero, suc, ◌+◌, Bool, true, false, not, Option, none, some, List, [], ◌∷◌, ◌++◌, map, leb,
  ◌==◌, if◌then◌else◌, length, get_elem?, filter, any, find?,
}
use mathlib.Core.Option.{get_or}
use empire_backend.Base.Results.{Result, ok, err, bad_request, type_error, or_throw, throw_if}
use empire_backend.SnakesLadders.Types.{GameAction, GameStatus, start_timeout_in_seconds}
use empire_backend.SnakesLadders.Table.{UserDetails, User, Table, TableData, create}
use empire_backend.SnakesLadders.Table.Turn.{is_user}
use empire_backend.SnakesLadders.Gameplay.{
  World, GameTimerOption, debit_join_fee, refund_join_fee, start_game_res, Action, ◌>>=◌, ◌>>◌,
  lift, done, load, store_and_cache, delete_game_table, start_game_timer, emit, call_wallet,
  schedule_end_game, skip_timer,
}
use empire_backend.SnakesLadders.Gameplay.Ending.{id_of}
use empire_backend.SnakesLadders.Gameplay.Playing.{player_id_of}

-- What `startGame` reads of the configuration.
pub record GameConfig : Type 0 where
  pub join_fee : ℕ
  pub winnings : List ℕ
  pub durations : ℕ → Option ℕ
  pub turn_timer : ℕ
  pub minimum_join_amount : ℕ

unfoldable pub debit_join_fees : (ℕ → ℕ → Bool) → List ℕ → ℕ → ℕ → Action (Unit {0})
debit_join_fees is_enough user_ids table_id join_fee =
    lift (throw_if (any (λ u. not (is_enough u join_fee)) user_ids) bad_request)
    >> call_wallet (debit_join_fee user_ids join_fee table_id)

abbrev pub update_played_free_games : List ℕ → Action (Unit {0})
update_played_free_games user_ids w = (ok tt, record w { free_games = w.free_games ++ user_ids })

abbrev pub delete_big_table_users : List ℕ → Action (Unit {0})
delete_big_table_users user_ids w = (
  ok tt,
  record w { big_table_users = filter (λ u. not (any (λ k. k == u) user_ids)) w.big_table_users },
)

unfoldable pub delete_big_table_users_if_big_table : GameConfig → List ℕ → Action (Unit {0})
delete_big_table_users_if_big_table c user_ids =
    if leb c.minimum_join_amount c.join_fee then delete_big_table_users user_ids else done

-- `getPlayerId`
abbrev pub get_player_id : Table → ℕ → Result ℕ
get_player_id t user_id = elim (find? (is_user user_id) t.users) [
  | none ↦ err type_error
  | some u ↦ ok u.player_id
]

unfoldable pub my_player_ids : Table → List ℕ → Result (List (ℕ × ℕ))
my_player_ids t [] = ok []
my_player_ids t (user_id ∷ user_ids) = elim (get_player_id t user_id) [
  | err e ↦ err e
  | ok p ↦ elim (my_player_ids t user_ids) [ err e ↦ err e | ok l ↦ ok ((user_id, p) ∷ l) ]
]

-- `winnings[users.length - 2]`; there is no entry at -1 and -2.
unfoldable pub win_amount_for : List ℕ → ℕ → Option ℕ
win_amount_for winnings (suc (suc n)) = get_elem? winnings n
win_amount_for winnings _ = none

abbrev pub game_duration : GameConfig → ℕ → ℕ
game_duration c n = get_or (c.durations n) 0

-- The timer that announces the first turn.
abbrev pub next_timer : Table → GameTimerOption
next_timer t = record {
  table_id = t.id;
  target_counter = t.counter + 1;
  action = GameAction.next;
  delay_in_seconds = start_timeout_in_seconds;
}

abbrev pub first_skip_timer : Table → GameTimerOption
first_skip_timer t = record (skip_timer t) {
  delay_in_seconds = start_timeout_in_seconds + t.turn_timeout;
}

unfoldable pub started_table : ℕ → ℕ → GameConfig → List UserDetails → Result Table
unfolding create win_amount_for
started_table now fresh c users =
    create now fresh users c.join_fee (win_amount_for c.winnings (length users)) GameStatus.ongoing
      (now + (start_timeout_in_seconds + c.turn_timer)) c.turn_timer
      (now + (start_timeout_in_seconds + game_duration c (length users)))

-- `startGame` from the moment the table is made.
unfoldable pub open_table : ℕ → (ℕ → ℕ → Bool) → GameConfig → List ℕ → Table → Action (Unit {0})
unfolding store_and_cache debit_join_fees my_player_ids delete_big_table_users_if_big_table
open_table now is_enough c user_ids t = do
  store_and_cache t
  debit_join_fees is_enough user_ids t.id c.join_fee
  schedule_end_game t.id t.end_at
  start_game_timer (next_timer t)
  start_game_timer (first_skip_timer t)
  player_ids ← lift (my_player_ids t user_ids)
  emit 0 (start_game_res player_ids t.id (now + start_timeout_in_seconds) t.end_at)
  delete_big_table_users_if_big_table c user_ids

unfoldable pub start_game :
    ℕ → ℕ → (ℕ → ℕ → Bool) → GameConfig → List UserDetails → Action (Unit {0})
unfolding started_table open_table
start_game now fresh is_enough c users = do
  let user_ids = map (λ (d : UserDetails). d.user_id) users
  (if c.join_fee == 0 then update_played_free_games user_ids else done)
  t ← lift (started_table now fresh c users)
  open_table now is_enough c user_ids t

-- `clearTable`, of an administrator; the table may be missing.
unfoldable pub refund_and_delete : ℕ → Table → Action Bool
unfolding delete_game_table
refund_and_delete table_id t =
    call_wallet (refund_join_fee (map id_of t.users) t.join_fee table_id)
    >> (delete_game_table table_id (map id_of t.users) >> lift (ok true))

unfoldable pub clear_found : ℕ → Option TableData → Action Bool
unfolding refund_and_delete
clear_found table_id none = lift (ok false)
clear_found table_id (some d) = lift (load (some d)) >>= refund_and_delete table_id

unfoldable pub clear_table : ℕ → Action Bool
unfolding clear_found
clear_table table_id w = clear_found table_id (w.tables table_id) w
