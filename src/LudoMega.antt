-- ===== src/LudoMega.antt =====
-- apps/ludo-mega-tournament/src/domain/entities: types.ts and constants.ts of the Ludo mega
-- tournament, where one player moves the pawns of the first colour among pawns that stand still.
pub mod Pawn
pub mod Table
pub mod Gameplay
mod Tests
use empire_backend.Base.{
  ℕ, zero, suc, ◌+◌, Bool, true, false, ◌&&◌, List, [], ◌∷◌, ◌++◌, ◌==◌, if◌then◌else◌, any,
}

-- The numbers 1 to 4 in the ids of the pawns; the source counts `playerIndex` from 0.
pub data Player : Type 0 where
  pl1 pl2 pl3 pl4 : Player

abbrev pub player_number : Player → ℕ
player_number pl1 = 1
player_number pl2 = 2
player_number pl3 = 3
player_number pl4 = 4

unfoldable pub same_player : Player → Player → Bool
same_player p q = player_number p == player_number q

-- 'PW2-1' is `pw pl2 0`.
pub data PawnId : Type 0 where
  pw : Player → ℕ → PawnId

unfoldable pub same_pawn : PawnId → PawnId → Bool
unfolding same_player
same_pawn (pw p i) (pw q j) = same_player p q && (i == j)

-- 'B100' is `base pl1`, '17' is `cell 17` and 'H203' is `home_path pl2 3`.
pub data Position : Type 0 where
  base : Player → Position
  cell : ℕ → Position
  home_path : Player → ℕ → Position
  home : Position

unfoldable pub position_eq : Position → Position → Bool
unfolding same_player
position_eq (base p) (base q) = same_player p q
position_eq (cell n) (cell m) = n == m
position_eq (home_path p n) (home_path q m) = same_player p q && (n == m)
position_eq home home = true
position_eq _ _ = false

abbrev pub is_home : Position → Bool
is_home home = true
is_home _ = false

pub data GameAction : Type 0 where
  roll_dice move_pawn skip_turn end_game leave_table start_game discard_game : GameAction

abbrev pub is_roll_dice : GameAction → Bool
is_roll_dice roll_dice = true
is_roll_dice _ = false

abbrev pub is_move_pawn : GameAction → Bool
is_move_pawn move_pawn = true
is_move_pawn _ = false

-- The cells from `c` on, `n` of them, where the cell after 52 is 1.
unfoldable pub cells_from : ℕ → ℕ → List Position
cells_from zero c = []
cells_from (suc n) c = cell c ∷ cells_from n (if c == 52 then 1 else c + 1)

abbrev pub first_cell : Player → ℕ
first_cell pl1 = 1
first_cell pl2 = 27
first_cell pl3 = 14
first_cell pl4 = 40

-- `PAWN_PATHS[playerIndex]`
unfoldable pub pawn_path : Player → List Position
unfolding cells_from
pawn_path p =
    base p
    ∷ (cells_from 51 (first_cell p)
        ++ (home_path p 1
            ∷ home_path p 2
            ∷ home_path p 3
            ∷ home_path p 4
            ∷ home_path p 5
            ∷ home
            ∷ []))

abbrev pub safe_positions : List Position
safe_positions =
    cell 1 ∷ cell 9 ∷ cell 27 ∷ cell 35 ∷ cell 14 ∷ cell 22 ∷ cell 40 ∷ cell 48 ∷ cell 52 ∷ []

unfoldable pub is_safe : Position → Bool
unfolding position_eq
is_safe position = any (position_eq position) safe_positions

abbrev pub turn_timeout_in_seconds : ℕ
turn_timeout_in_seconds = 12

abbrev pub initial_lives : ℕ
initial_lives = 3

abbrev pub bonus_per_home_landing : ℕ
bonus_per_home_landing = 56

-- in hundredths
abbrev pub bonus_per_remaining_move : ℕ
bonus_per_remaining_move = 1772
