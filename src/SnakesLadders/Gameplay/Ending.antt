-- ===== src/SnakesLadders/Gameplay/Ending.antt =====
-- gameplay.usecases .ts: `handleEndGame`.
pub mod Winning
pub mod Payout
use mathlib.Core.Option.{get_or}
use empire_backend.Base.{
  ℕ, ◌+◌, Bool, true, false, not, ◌&&◌, Option, none, some, List, [], ◌∷◌, map, if◌then◌else◌,
  get_elem?, find_index, filter,
}
use empire_backend.Base.Results.{ok, type_error, or_throw}
use empire_backend.SnakesLadders.Types.{GameStatus, is_completed}
use empire_backend.SnakesLadders.Table.{User, Table}
use empire_backend.SnakesLadders.Table.Turn.{is_user}
use empire_backend.SnakesLadders.Gameplay.{
  Share, EndGameEvent, credit_winning_amount, game_end_res, Action, ◌>>=◌, ◌>>◌, lift, done,
  retrieve_game_table, store_game_table, delete_game_table, emit, call_wallet, create_history,
}
use empire_backend.SnakesLadders.Gameplay.Winners.{
  stays, get_remaining_players, score_at, get_total_score, is_winner, get_number_of_winners,
}

abbrev pub id_of : User → ℕ
id_of u = u.user_id

-- `isWinner(…) && !users[userIndex].didLeave`
unfoldable pub has_won : Table → ℕ → User → Bool
unfolding is_winner score_at
has_won t index u = is_winner t (score_at t (some index)) && not u.did_leave

unfoldable pub share : Table → Share
unfolding get_number_of_winners
share t = record { win_amount = t.win_amount; winners = get_number_of_winners t }

unfoldable pub end_game_data : Table → ℕ → ℕ → User → EndGameEvent
unfolding has_won share get_total_score
end_game_data t user_id index u = record {
  player_id = u.player_id;
  name = get_or u.name u.username;
  avatar = u.avatar;
  total_score = get_total_score t user_id;
  win_amount? = if has_won t index u then some (share t) else none;
  is_winner = has_won t index u;
}

-- The body of the loop for the user at `index`.
unfoldable pub settle : ℕ → Table → ℕ → ℕ → User → Action EndGameEvent
unfolding has_won share end_game_data
settle table_id t user_id index u =
    (if has_won t index u
      then call_wallet (credit_winning_amount user_id table_id (share t))
      else done)
    >> lift (ok (end_game_data t user_id index u))

-- The loop over `userIds`; `userIds.indexOf(userId)` is the first user with this id.
unfoldable pub settle_all : ℕ → Table → List ℕ → Action (List EndGameEvent)
settle_all table_id t [] = lift (ok [])
settle_all table_id t (user_id ∷ user_ids) = do
  index ← lift (or_throw (find_index (is_user user_id) t.users) type_error)
  u ← lift (or_throw (get_elem? t.users index) type_error)
  data_ ← settle table_id t user_id index u
  rest ← settle_all table_id t user_ids
  lift (ok (data_ ∷ rest))

-- `handleEndGame` after the test of the status.
unfoldable pub finish_game : ℕ → Table → Action (Unit {0})
unfolding store_game_table get_remaining_players delete_game_table
finish_game table_id t = do
  store_game_table t
  end_game_datas ← settle_all table_id t (map id_of t.users)
  emit 500 (game_end_res (map id_of (get_remaining_players t)) table_id end_game_datas)
  create_history t.id none
  delete_game_table table_id (map id_of (get_remaining_players t))

unfoldable pub handle_end_game : ℕ → ℕ → Action (Unit {0})
handle_end_game now table_id = do
  t ← retrieve_game_table table_id
  (if is_completed t.status
      then done
      else finish_game table_id (record t { status = GameStatus.completed; updated_at = now }))
