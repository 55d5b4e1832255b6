-- ===== src/SnakesLadders/Gameplay/Steps.antt =====
-- apps/sl-gameplay: the requests of the players, the timers that fire and the jobs that end games,
-- as steps between worlds, in any order.
pub mod Valid
use empire_backend.Base.{
  ℕ, ◌≤◌, Bool, Option, none, List, map, length, Distinct, get_elem?, some, ◌≡◌, ◌+◌,
}
use empire_backend.SnakesLadders.Types.{PawnId, Board}
use empire_backend.SnakesLadders.Table.{UserDetails}
use empire_backend.SnakesLadders.Gameplay.{World, GameTimerOption}
use empire_backend.SnakesLadders.Gameplay.Ending.{handle_end_game}
use empire_backend.SnakesLadders.Gameplay.Playing.{handle_roll_dice, handle_move_pawn}
use empire_backend.SnakesLadders.Gameplay.Leaving.{
  handle_leave_table, handle_skip_turn, handle_timeout,
}
use empire_backend.SnakesLadders.Gameplay.Starting.{GameConfig, start_game, clear_table}

-- One handler runs from start to end; what it raises is dropped. A game is started for two players
-- or more, all different; a timer that fires was started before.
pub data Step (board : Board) (w : World) : World → Type 0 where
  starts :
      (now fresh : ℕ) (is_enough : ℕ → ℕ → Bool) (c : GameConfig) (users : List UserDetails)
      → 2 ≤ length users
      → Distinct (map (λ (d : UserDetails). d.user_id) users)
      → Step board w (start_game now fresh is_enough c users w).1
  rolls :
      (now num den user_id table_id : ℕ)
      → Step board w (handle_roll_dice now num den user_id table_id w).1
  moves :
      (now table_id : ℕ) (pawn_id : PawnId)
      → Step board w (handle_move_pawn now board table_id pawn_id w).1
  leaves : (now table_id user_id : ℕ) → Step board w (handle_leave_table now table_id user_id w).1
  skips : (now table_id user_id : ℕ) → Step board w (handle_skip_turn now table_id user_id w).1
  ends : (now table_id : ℕ) → Step board w (handle_end_game now table_id w).1
  times_out :
      (now i : ℕ) (o : GameTimerOption)
      → get_elem? w.timers i ≡ some o
      → Step board w (handle_timeout now o w).1
  clears : (table_id : ℕ) → Step board w (clear_table table_id w).1

-- Nothing is stored at first.
pub data IsReachable (board : Board) : World → Type 0 where
  start : (w : World) → ((table_id : ℕ) → w.tables table_id ≡ none) → IsReachable board w
  step : (w w' : World) → IsReachable board w → Step board w w' → IsReachable board w'
