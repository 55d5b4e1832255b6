-- ===== src/SnakesLadders/Tests/Games.antt =====
-- The theorems of the handlers and of the matching, at the table and the queue of the tests.
use empire_backend.Base.{
  ℕ, ◌≤◌, ◌≡◌, refl, ◌↔◌, true, false, some, none, List, [], ◌∷◌, arith, get_elem?,
}
use empire_backend.Base.Results.{ok}
use empire_backend.SnakesLadders.Types.{GameAction, GameStatus}
use empire_backend.SnakesLadders.Table.{User, Table}
use empire_backend.SnakesLadders.Table.Stored.{new_table-to_data}
use empire_backend.SnakesLadders.Gameplay.{World, ◌>>=◌, ◌>>◌, store_game_table, skip_timer}
use empire_backend.SnakesLadders.Gameplay.Ending.{handle_end_game}
use empire_backend.SnakesLadders.Gameplay.Ending.Winning.{wins, score_of_user, wins_iff}
use empire_backend.SnakesLadders.Gameplay.Ending.Payout.{
  IsPaidOut, handle_end_game-IsPaidOut, handle_end_game-again,
}
use empire_backend.SnakesLadders.Gameplay.Playing.{handle_roll_dice}
use empire_backend.SnakesLadders.Gameplay.Leaving.{handle_timeout}
use empire_backend.SnakesLadders.Gameplay.Leaving.Timers.{handle_roll_dice-cancels}
use empire_backend.SnakesLadders.Gameplay.Starting.{GameConfig, start_game}
use empire_backend.SnakesLadders.Gameplay.Keeping.{IsStore}
use empire_backend.SnakesLadders.Gameplay.Steps.{IsReachable, start, step, starts}
use empire_backend.SnakesLadders.Gameplay.Steps.Valid.{IsReachable-IsStore}
use empire_backend.SnakesLadders.Matching.{
  WaitingInfo, Matching, flatten, check_if_same_origin, split_array_by_predicate, match_loop,
}
use empire_backend.SnakesLadders.Matching.Split.{IsSplit, split_array_by_predicate-IsSplit}
use empire_backend.SnakesLadders.Matching.Chunks.{IsCut}
use empire_backend.SnakesLadders.Matching.Matched.{IsMatching, match_loop-IsMatching}
use empire_backend.SnakesLadders.Tests.{
  ann, bob, seat_1, board, game, board-IsBoard, game-IsTable, world_of, queue,
}

wins_iff_example : (wins game seat_1 ≡ true) ↔ (
    (false ≡ false)
    × ((j : ℕ) (v : User)
        → get_elem? game.users j ≡ some v
        → v.did_leave ≡ false
        → score_of_user game v ≤ score_of_user game seat_1))
wins_iff_example = wins_iff game 0 seat_1 refl

handle_end_game-IsPaidOut_example :
    (w' : World) × (handle_end_game 300 5 (world_of game) ≡ (ok tt, w'))
    × IsPaidOut 5 game (world_of game) w'
handle_end_game-IsPaidOut_example =
    handle_end_game-IsPaidOut 300 5 game (world_of game) (new_table-to_data 0 game) refl refl
      game-IsTable.user_ids

abbrev completed_game : Table
completed_game = record game { status = GameStatus.completed }

handle_end_game-again_example :
    (w' : World) × (handle_end_game 300 5 (store_game_table completed_game (world_of game)).1
      ≡ (ok tt, w'))
    × IsPaidOut 5 game (store_game_table completed_game (world_of game)).1 w'
handle_end_game-again_example =
    handle_end_game-again 300 completed_game (world_of game) refl game-IsTable.user_ids

abbrev roll_game : Table
roll_game = record game { action = GameAction.roll_dice }

abbrev rolled_world : World
rolled_world = (handle_roll_dice 200 3 10 11 5 (world_of roll_game)).1

roll_game_rolls : handle_roll_dice 200 3 10 11 5 (world_of roll_game) ≡ (ok tt, rolled_world)
unfolding handle_roll_dice ◌>>=◌ ◌>>◌
roll_game_rolls = refl

handle_roll_dice-cancels_example :
    handle_timeout 230 (skip_timer roll_game) rolled_world ≡ (ok tt, rolled_world)
handle_roll_dice-cancels_example =
    handle_roll_dice-cancels 200 3 10 5 230 roll_game (world_of roll_game) rolled_world
      (new_table-to_data 0 roll_game) refl roll_game_rolls

abbrev empty_world : World
empty_world = record (world_of game) { tables = λ j. none }

abbrev config : GameConfig
config = record {
  join_fee = 1000;
  winnings = 1800 ∷ 2700 ∷ [];
  durations = λ n. some 300;
  turn_timer = 15;
  minimum_join_amount = 5000;
}

abbrev started_world : World
started_world = (start_game 100 5 (λ u fee. true) config (ann ∷ bob ∷ []) empty_world).1

started_world-IsReachable : IsReachable board started_world
started_world-IsReachable = step empty_world started_world (start empty_world (λ j. refl)) (
    starts 100 5 (λ u fee. true) config (ann ∷ bob ∷ []) (omega arith)
      (((λ e. ground arith), tt), (tt, tt)))

IsReachable-IsStore_example : IsStore started_world.tables
IsReachable-IsStore_example =
    IsReachable-IsStore board started_world board-IsBoard started_world-IsReachable

match_loop-IsMatching_example :
    (m : Matching) × ((tables : List (List WaitingInfo)) × (match_loop 3 150 30 2 queue ≡ ok m)
      × (flatten tables ≡ queue)
      × IsCut 2 tables
      × IsMatching 150 30 2 tables m)
match_loop-IsMatching_example = match_loop-IsMatching 150 30 2 queue (omega arith)

split_array_by_predicate-IsSplit_example :
    IsSplit check_if_same_origin queue (split_array_by_predicate queue check_if_same_origin)
split_array_by_predicate-IsSplit_example =
    split_array_by_predicate-IsSplit check_if_same_origin queue
