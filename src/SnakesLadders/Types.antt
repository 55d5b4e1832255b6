-- ===== src/SnakesLadders/Types.antt =====
-- apps/sl-gameplay/src/domain/entities/types.ts and constants.ts, and the game status of
-- use-cases/types.ts. The enum `Position` has the members 'Base', '1' to '99' and 'Home'; a square
-- is `cell n`, and `IsPosition` says that it is a member.
use empire_backend.Base.{ℕ, ◌≤◌, ◌≡◌, ◌↔◌, Bool, true, false, List, ◌==◌, arith}

pub data Position : Type 0 where
  base : Position
  cell : ℕ → Position
  home : Position

abbrev pub IsPosition : Position → Type 0
IsPosition (cell n) = (1 ≤ n) × (n ≤ 99)
IsPosition _ = Unit {0}

abbrev pub position_eq : Position → Position → Bool
position_eq base base = true
position_eq (cell m) (cell n) = m == n
position_eq home home = true
position_eq _ _ = false

abbrev pub is_home : Position → Bool
is_home home = true
is_home _ = false

-- 'PW{player}-{pawn}', both counted from 1.
pub data PawnId : Type 0 where
  pw : ℕ → ℕ → PawnId

pub data GameAction : Type 0 where
  waiting next pawn_kill roll_dice move_pawn skip_turn end_game leave_table discard_game :
      GameAction

pub data GameStatus : Type 0 where
  waiting started ongoing completed : GameStatus

abbrev pub is_roll_dice : GameAction → Bool
is_roll_dice GameAction.roll_dice = true
is_roll_dice _ = false

abbrev pub is_move_pawn : GameAction → Bool
is_move_pawn GameAction.move_pawn = true
is_move_pawn _ = false

abbrev pub is_completed : GameStatus → Bool
is_completed GameStatus.completed = true
is_completed _ = false

-- Pairs of the start and the end of each snake and each ladder.
pub record Board : Type 0 where
  pub snakes : List (ℕ × ℕ)
  pub ladders : List (ℕ × ℕ)

pub record CanMovePawn : Type 0 where
  pub pawn_id : PawnId
  pub dice : ℕ

abbrev pub initial_lives : ℕ
initial_lives = 3

abbrev pub start_timeout_in_seconds : ℕ
start_timeout_in_seconds = 3

abbrev pub waiting_time_extension_in_seconds : ℕ
waiting_time_extension_in_seconds = 10

-- `===` on positions is equality.
pub position_eq_iff : (p q : Position) → (position_eq p q ≡ true) ↔ (p ≡ q)
position_eq_iff base base = ground arith
position_eq_iff base (cell n) = ground arith
position_eq_iff base home = ground arith
position_eq_iff (cell m) base = ground arith
position_eq_iff (cell m) (cell n) = ground arith
position_eq_iff (cell m) home = ground arith
position_eq_iff home base = ground arith
position_eq_iff home (cell n) = ground arith
position_eq_iff home home = ground arith
