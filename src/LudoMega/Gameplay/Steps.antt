-- ===== src/LudoMega/Gameplay/Steps.antt =====
-- gameplay.use-cases.ts and game-timer.use-cases.ts: the handlers in any order.
use empire_backend.Base.{ℕ, ◌≡◌, refl, Bool, false, none, some, List, map}
use empire_backend.LudoMega.{PawnId}
use empire_backend.LudoMega.Pawn.{PawnPosition, from_pawn_position}
use empire_backend.LudoMega.Table.{TableData, from_data, create}
use empire_backend.LudoMega.Table.Turn.{should_end_game}
use empire_backend.LudoMega.Table.Valid.{ArePawns, IsDice}
use empire_backend.LudoMega.Table.Valid.Kept.{create-IsTable}
use empire_backend.LudoMega.Table.Valid.Progress.{CanGoOn, IsTable-CanGoOn}
use empire_backend.LudoMega.Gameplay.{
  World, prepare_game_table, handle_ready_to_start, handle_roll_dice, handle_end_game,
  handle_move_pawn, handle_skip_turn, handle_timeout, GameTimerOption,
}
use empire_backend.LudoMega.Gameplay.Kept.{
  IsStore, prepare_game_table-Keeps, handle_ready_to_start-Keeps, handle_roll_dice-Keeps,
  handle_move_pawn-Keeps, handle_skip_turn-Keeps, handle_end_game-Keeps, handle_timeout-Keeps,
}

-- One call of a handler, at any time and for any arguments, or a timer of the world.
pub data Step (w : World) : World → Type 0 where
  starts :
      (now id tournament_id user_id total_moves : ℕ) (positions : List PawnPosition)
      → ArePawns (map from_pawn_position positions)
      → Step w (prepare_game_table (create now id tournament_id user_id total_moves positions) w).1
  begins : (now table_id : ℕ) → Step w (handle_ready_to_start now table_id w).1
  rolls :
      (extra : Bool) (now dice table_id user_id : ℕ)
      → IsDice dice
      → Step w (handle_roll_dice extra now dice table_id user_id w).1
  moves :
      (now user_id table_id : ℕ) (pawn : PawnId) (dice : ℕ)
      → Step w (handle_move_pawn now user_id table_id pawn dice w).1
  skips : (now table_id : ℕ) → Step w (handle_skip_turn now table_id w).1
  ends : (table_id : ℕ) → Step w (handle_end_game table_id w).1
  times_out : (now : ℕ) (o : GameTimerOption) → Step w (handle_timeout now o w).1

pub data IsReachable : World → Type 0 where
  start : (w : World) → ((table_id : ℕ) → w.tables table_id ≡ none) → IsReachable w
  step : (v w : World) → IsReachable v → Step v w → IsReachable w

Step-IsStore : (v w : World) → IsStore v.tables → Step v w → IsStore w.tables
Step-IsStore v _ store (starts now id tournament_id user_id total_moves positions h) =
    ((prepare_game_table-Keeps _
        (create-IsTable now id tournament_id user_id total_moves positions h)).run
      v store).0
Step-IsStore v _ store (begins now table_id) =
    ((handle_ready_to_start-Keeps now table_id).run v store).0
Step-IsStore v _ store (rolls extra now dice table_id user_id is_dice) =
    ((handle_roll_dice-Keeps extra now dice table_id user_id is_dice).run v store).0
Step-IsStore v _ store (moves now user_id table_id pawn dice) =
    ((handle_move_pawn-Keeps now user_id table_id pawn dice).run v store).0
Step-IsStore v _ store (skips now table_id) = ((handle_skip_turn-Keeps now table_id).run v store).0
Step-IsStore v _ store (ends table_id) = ((handle_end_game-Keeps table_id).run v store).0
Step-IsStore v _ store (times_out now o) = ((handle_timeout-Keeps now o).run v store).0

pub IsReachable-IsStore : (w : World) → IsReachable w → IsStore w.tables
unfolding IsStore
IsReachable-IsStore w (start _ nothing) = λ table_id d here. let gone = nothing table_id in cc
IsReachable-IsStore w (step v _ before s) = Step-IsStore v w (IsReachable-IsStore v before) s

-- After any sequence of requests and timers, for any ids, times and dices and whichever of them
-- raised, a table that is stored and whose game is not to end accepts every roll when a roll is
-- next, and some move of the player otherwise.
pub IsReachable-stored-CanGoOn :
    (w : World) (table_id : ℕ) (d : TableData)
    → IsReachable w
    → w.tables table_id ≡ some d
    → should_end_game (from_data d) ≡ false
    → CanGoOn d.action (from_data d)
unfolding IsStore from_data
IsReachable-stored-CanGoOn w table_id d reached here goes_on =
    IsTable-CanGoOn (from_data d) d.action (IsReachable-IsStore w reached table_id d here) goes_on
      refl
