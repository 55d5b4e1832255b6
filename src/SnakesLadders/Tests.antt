-- ===== src/SnakesLadders/Tests.antt =====
-- Runs of the model on a table of two players, and the theorems at that table.
mod Tables
mod Games
use empire_backend.Base.{
  ℕ, ◌≡◌, refl, true, false, none, some, List, [], ◌∷◌, ◌==◌, if◌then◌else◌, arith,
}
use empire_backend.Base.Results.{ok}
use empire_backend.SnakesLadders.Types.{
  Position, base, cell, home, pw, GameAction, GameStatus, Board,
}
use empire_backend.SnakesLadders.Pawn.{
  Pawn, get_pawn_id, get_position_by_index, get_new_position_if_ladder_or_snake, get_next_position,
}
use empire_backend.SnakesLadders.Pawn.Laws.{IsBoard}
use empire_backend.SnakesLadders.Table.{UserDetails, User, Table, to_data}
use empire_backend.SnakesLadders.Table.Turn.{score_of, get_all_users_score, set_next_turn}
use empire_backend.SnakesLadders.Table.Move.{
  MoveResult, straight, can_pawn_move, get_other_pawns_on_position, after_move, move_result,
  land_pawn, move_target, move_pawn,
}
use empire_backend.SnakesLadders.Table.Invariant.{IsTable}
use empire_backend.SnakesLadders.Gameplay.{World}
use empire_backend.SnakesLadders.Matching.{WaitingInfo}

abbrev pub ann : UserDetails
ann = record { user_id = 11; name = none; username = "ann"; ip = 1; avatar = 1 }

abbrev pub bob : UserDetails
bob = record { user_id = 22; name = none; username = "bob"; ip = 2; avatar = 2 }

abbrev pub seat_1 : User
seat_1 = record { details = ann; player_id = 1; lives = 3; did_leave = false }

abbrev pub seat_2 : User
seat_2 = record { details = bob; player_id = 2; lives = 3; did_leave = false }

abbrev pub pawn_at : ℕ → ℕ → Position → Pawn
pawn_at i j p = record { player_index = i; pawn_index = j; position = p }

abbrev pub board : Board
board = record { snakes = (17, 7) ∷ []; ladders = (4, 14) ∷ [] }

-- Ann has rolled a 4; her first pawn can reach the square of Bob's first pawn.
abbrev pub game : Table
game = record {
  id = 5;
  users = seat_1 ∷ seat_2 ∷ [];
  current_turn = 11;
  pawns = pawn_at 0 0 (cell 5) ∷ pawn_at 0 1 base ∷ pawn_at 1 0 (cell 9) ∷ pawn_at 1 1 base ∷ [];
  action = GameAction.move_pawn;
  status = GameStatus.waiting;
  timeout = 130;
  dice = 4;
  counter = 6;
  end_at = 900;
  started_at = 100;
  updated_at = 120;
  join_fee = 1000;
  win_amount = 1800;
  turn_timeout = 15;
}

pub board-IsBoard : IsBoard board
board-IsBoard = record { snakes_below = (omega arith, tt); ladders_below = (omega arith, tt) }

pub game-IsTable : IsTable game
unfolding get_pawn_id
game-IsTable = record {
  layout = record {
    seated = (omega arith, (omega arith, (omega arith, (omega arith, tt))));
    placed = ((omega arith, omega arith), (tt, ((omega arith, omega arith), (tt, tt))));
    ids = (
      ((λ e. ground arith), ((λ e. ground arith), ((λ e. ground arith), tt))),
      (((λ e. ground arith), ((λ e. ground arith), tt)), (((λ e. ground arith), tt), (tt, tt))),
    );
    user_ids = (((λ e. ground arith), tt), (tt, tt));
  };
  turn = record { index = 0; user = seat_1; found = refl; seat = refl; stays = refl };
}

abbrev pub moved_game : Table
moved_game = record game {
  pawns = pawn_at 0 0 (cell 9) ∷ pawn_at 0 1 base ∷ pawn_at 1 0 base ∷ pawn_at 1 1 base ∷ [];
  counter = 7;
  timeout = 215;
}

abbrev pub moved_result : MoveResult
moved_result = record {
  require_longer_delay = false;
  response = record {
    table_id = 5;
    player_id = 1;
    pawn_id = pw 1 1;
    position = straight 5 9;
    dice = 4;
    score = 9;
  };
  is_home_flag = false;
  kill_pawn_flag = true;
  kill_response = record {
    player_id = 1;
    turn_timeout = 215;
    kill_pawn_id? = some (pw 2 1);
    scores = 9 ∷ 0 ∷ [];
  };
}

pub game_moves : move_pawn 200 5 (pw 1 1) 4 board game ≡ ok (moved_result, moved_game)
unfolding move_pawn can_pawn_move move_target land_pawn get_next_position
    get_other_pawns_on_position get_position_by_index get_new_position_if_ladder_or_snake
    move_result after_move score_of get_all_users_score
game_moves = refl

-- A world with one table.
abbrev pub world_of : Table → World
world_of t = record {
  tables = λ j. if j == t.id then some (to_data t) else none;
  user_tables = λ j. none;
  timers = [];
  events = [];
  wallet = [];
  histories = [];
  scheduled = [];
  free_games = [];
  big_table_users = [];
}

abbrev pub waiting_since : UserDetails → ℕ → WaitingInfo
waiting_since d expiry = record { user_details = d; expiry = expiry }

abbrev pub queue : List WaitingInfo
queue =
    waiting_since ann 140
    ∷ waiting_since bob 141
    ∷ waiting_since (record ann { user_id = 33 }) 145
    ∷ []
