-- ===== src/LudoMega/Table.antt =====
-- table.entity.ts: `LudoMegaTournamentGameTable`, its constructor and its stored form. The amounts
-- of bonus are hundredths, the points and the score whole numbers, the times milliseconds.
pub mod Offers
pub mod Turn
pub mod Move
pub mod Valid
pub mod Start
use empire_backend.Base.{ℕ, Bool, true, Option, none, some, List, [], ◌+◌, ◌*◌, ◌<◌, ◌++◌, map, ltb}
use empire_backend.Base.Int.{ℤ, pos, ◌+ℤ◌}
use empire_backend.LudoMega.{
  Player, pl1, same_player, GameAction, roll_dice, initial_lives, turn_timeout_in_seconds,
}
use empire_backend.LudoMega.Pawn.{Pawn, PawnPosition, from_pawn_position, to_pawn_position}

pub record Table : Type 0 where
  pub id : ℕ
  pub tournament_id : ℕ
  pub user_id : ℕ
  pub roll_dice_action_bonus : ℤ
  pub bonus : ℤ
  pub score : ℤ
  pub pawns : List Pawn
  pub action : GameAction
  pub timeout : ℕ
  pub dices : List ℕ
  pub counter : ℕ
  pub lives : ℤ
  pub remaining_moves : ℤ
  pub last_action_start_time : ℕ
  pub is_new_turn : Bool

-- The stored text holds all fields, the pawns by their positions.
pub record TableData : Type 0 where
  pub id : ℕ
  pub tournament_id : ℕ
  pub user_id : ℕ
  pub bonus : ℤ
  pub score : ℤ
  pub roll_dice_action_bonus : ℤ
  pub pawn_positions : List PawnPosition
  pub action : GameAction
  pub timeout : ℕ
  pub dices : List ℕ
  pub counter : ℕ
  pub lives : ℤ
  pub remaining_moves : ℤ
  pub last_action_start_time : ℕ
  pub is_new_turn : Bool

-- The constructor, for a text that holds all fields.
unfoldable pub from_data : TableData → Table
unfolding from_pawn_position
from_data d = record {
  id = d.id;
  tournament_id = d.tournament_id;
  user_id = d.user_id;
  roll_dice_action_bonus = d.roll_dice_action_bonus;
  bonus = d.bonus;
  score = d.score;
  pawns = map from_pawn_position d.pawn_positions;
  action = d.action;
  timeout = d.timeout;
  dices = d.dices;
  counter = d.counter;
  lives = d.lives;
  remaining_moves = d.remaining_moves;
  last_action_start_time = d.last_action_start_time;
  is_new_turn = d.is_new_turn;
}

-- `toString`
unfoldable pub to_data : Table → TableData
unfolding to_pawn_position
to_data t = record {
  id = t.id;
  tournament_id = t.tournament_id;
  user_id = t.user_id;
  bonus = t.bonus;
  score = t.score;
  roll_dice_action_bonus = t.roll_dice_action_bonus;
  pawn_positions = map to_pawn_position t.pawns;
  action = t.action;
  timeout = t.timeout;
  dices = t.dices;
  counter = t.counter;
  lives = t.lives;
  remaining_moves = t.remaining_moves;
  last_action_start_time = t.last_action_start_time;
  is_new_turn = t.is_new_turn;
}

-- The id is random, and `now` the time.
unfoldable pub create : ℕ → ℕ → ℕ → ℕ → ℕ → List PawnPosition → Table
unfolding from_pawn_position
create now id tournament_id user_id total_moves initial_pawn_positions = record {
  id = id;
  tournament_id = tournament_id;
  user_id = user_id;
  roll_dice_action_bonus = pos 0;
  bonus = pos 0;
  score = pos 0;
  pawns = map from_pawn_position initial_pawn_positions;
  action = roll_dice;
  timeout = now;
  dices = [];
  counter = 0;
  lives = pos initial_lives;
  remaining_moves = pos total_moves;
  last_action_start_time = now;
  is_new_turn = true;
}

abbrev pub is_mine : Pawn → Bool
is_mine p = same_player p.player pl1

unfoldable pub already_started : Table → Bool
already_started t = ltb 0 t.counter

unfoldable pub increment_counter_and_timeout : ℕ → Table → Table
increment_counter_and_timeout now t = record t {
  counter = t.counter + 1;
  timeout = now + turn_timeout_in_seconds * 1000;
  last_action_start_time = now;
}
