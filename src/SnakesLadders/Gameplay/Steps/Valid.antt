-- ===== src/SnakesLadders/Gameplay/Steps/Valid.antt =====
-- Whatever is stored is a live table, after any sequence of steps.
use empire_backend.SnakesLadders.Types.{Board}
use empire_backend.SnakesLadders.Pawn.Laws.{IsBoard}
use empire_backend.SnakesLadders.Gameplay.{World}
use empire_backend.SnakesLadders.Gameplay.Starting.Joined.{start_game-Keeps, clear_table-Keeps}
use empire_backend.SnakesLadders.Gameplay.Keeping.{IsStore}
use empire_backend.SnakesLadders.Gameplay.Keeping.Ended.{handle_end_game-Keeps}
use empire_backend.SnakesLadders.Gameplay.Keeping.Played.{
  handle_roll_dice-Keeps, handle_move_pawn-Keeps,
}
use empire_backend.SnakesLadders.Gameplay.Keeping.Handled.{
  handle_leave_table-Keeps, handle_skip_turn-Keeps, handle_timeout-Keeps,
}
use empire_backend.SnakesLadders.Gameplay.Steps.{
  Step, starts, rolls, moves, leaves, skips, ends, times_out, clears, IsReachable, start, step,
}

Step-IsStore :
    (board : Board) (w w' : World)
    → IsBoard board
    → IsStore w.tables
    → Step board w w'
    → IsStore w'.tables
Step-IsStore board w w' b store (starts now fresh is_enough c users many distinct) =
    ((start_game-Keeps now fresh is_enough c users many distinct).run w store).0
Step-IsStore board w w' b store (rolls now num den user_id table_id) =
    ((handle_roll_dice-Keeps now num den user_id table_id).run w store).0
Step-IsStore board w w' b store (moves now table_id pawn_id) =
    ((handle_move_pawn-Keeps now board table_id pawn_id b).run w store).0
Step-IsStore board w w' b store (leaves now table_id user_id) =
    ((handle_leave_table-Keeps now table_id user_id).run w store).0
Step-IsStore board w w' b store (skips now table_id user_id) =
    ((handle_skip_turn-Keeps now table_id user_id).run w store).0
Step-IsStore board w w' b store (ends now table_id) =
    ((handle_end_game-Keeps now table_id).run w store).0
Step-IsStore board w w' b store (times_out now i o there) =
    ((handle_timeout-Keeps now o).run w store).0
Step-IsStore board w w' b store (clears table_id) = ((clear_table-Keeps table_id).run w store).0

-- On a board with proper snakes and ladders, whatever sequence of requests, timers and jobs has
-- run, and whichever of them raised, each table that is stored is read back under its own id, its
-- pawns have seats, ids of their own and places of the enum, its players have different ids, two
-- of them or more are still there, and the player who has the turn is one of these.
pub IsReachable-IsStore :
    (board : Board) (w : World) → IsBoard board → IsReachable board w → IsStore w.tables
IsReachable-IsStore board w b (start _ nothing) =
    λ table_id d here. let gone = nothing table_id in cc
IsReachable-IsStore board w b (step v _ before s) =
    Step-IsStore board v w b (IsReachable-IsStore board v b before) s
