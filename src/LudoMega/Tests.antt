-- ===== src/LudoMega/Tests.antt =====
-- Runs of the model of the Ludo mega tournament, and its theorems at concrete tables.
use empire_backend.Base.{ℕ, ◌≡◌, refl, true, false, ◌↔◌, none, some, List, [], ◌∷◌, map, arith}
use empire_backend.Base.Int.{pos, ◌+ℤ◌, ◌-ℤ◌, ◌≤ℤ◌}
use empire_backend.Base.Results.{ok}
use empire_backend.LudoMega.{
  Player, pl1, pl2, pl3, pl4, pw, cell, same_player, same_pawn, position_eq, pawn_path, cells_from,
  is_safe, move_pawn,
}
use empire_backend.LudoMega.Pawn.{
  PawnPosition, from_pawn_position, from_pawn_id, get_pawn_id, index_of, next_from,
  get_next_position, can_pawn_move_by_dice,
}
use empire_backend.LudoMega.Pawn.Paths.{IsAdvance, get_next_position-IsAdvance}
use empire_backend.LudoMega.Table.{Table, create}
use empire_backend.LudoMega.Table.Offers.{get_can_move_pawns}
use empire_backend.LudoMega.Table.Offers.Exact.{is_in}
use empire_backend.LudoMega.Table.Turn.{rounded_up, roll_dice_on, should_end_game}
use empire_backend.LudoMega.Table.Move.{Moved, move_pawn_on}
use empire_backend.LudoMega.Table.Move.Foreign.{move_pawn_on-foreign}
use empire_backend.LudoMega.Table.Valid.{ArePawns, IsDice, IsOnPath}
use empire_backend.LudoMega.Table.Valid.Offered.{move_pawn_on_iff}
use empire_backend.LudoMega.Pawn.{get_base_position}
use empire_backend.LudoMega.Table.Start.{get_random_initial_positions}
use empire_backend.LudoMega.Table.Valid.{IsTable}
use empire_backend.LudoMega.Table.Valid.Kept.{create-IsTable, roll_dice_on-IsTable}
use empire_backend.LudoMega.Table.{to_data, from_data}
use empire_backend.LudoMega.{roll_dice}
use empire_backend.LudoMega.Pawn.{to_pawn_position}
use empire_backend.LudoMega.Gameplay.{◌>>◌, World, prepare_game_table, handle_roll_dice}
use empire_backend.LudoMega.Gameplay.Late.{handle_roll_dice-late}
use empire_backend.LudoMega.Table.Valid.Progress.{CanGoOn}
use empire_backend.LudoMega.Gameplay.Steps.{start, step, starts, IsReachable-stored-CanGoOn}

abbrev at : Player → ℕ → ℕ → PawnPosition
at p i c = record {
  pawn = pw p i;
  position = cell c;
  bonus? = none;
  points? = none;
  used_dice? = none;
}

abbrev positions : List PawnPosition
positions =
    at pl1 0 1
    ∷ at pl1 1 1
    ∷ at pl1 2 1
    ∷ at pl1 3 1
    ∷ at pl2 0 30
    ∷ at pl2 1 5
    ∷ at pl2 2 8
    ∷ at pl2 3 40
    ∷ at pl3 0 20
    ∷ at pl3 1 21
    ∷ at pl3 2 23
    ∷ at pl3 3 24
    ∷ at pl4 0 41
    ∷ at pl4 1 42
    ∷ at pl4 2 43
    ∷ at pl4 3 44
    ∷ []

abbrev first_table : Table
unfolding create
first_table = create 0 1 2 3 12 positions

abbrev after_4 : Table
unfolding create
after_4 = record first_table {
  dices = 4 ∷ [];
  roll_dice_action_bonus = pos 8;
  action = move_pawn;
  counter = 1;
  timeout = 17000;
  last_action_start_time = 5000;
  is_new_turn = false;
}

positions-ArePawns : ArePawns (map from_pawn_position positions)
unfolding ArePawns from_pawn_position from_pawn_id get_pawn_id IsOnPath index_of pawn_path
    cells_from position_eq same_player
positions-ArePawns = (
  refl,
  (
    (1, refl),
    (
      (1, refl),
      (
        (1, refl),
        (
          (1, refl),
          (
            (4, refl),
            (
              (31, refl),
              (
                (34, refl),
                (
                  (14, refl),
                  (
                    (7, refl),
                    (
                      (8, refl),
                      (
                        (10, refl),
                        ((11, refl), ((2, refl), ((3, refl), ((4, refl), ((5, refl), tt))))),
                      ),
                    ),
                  ),
                ),
              ),
            ),
          ),
        ),
      ),
    ),
  ),
)

first_table-IsTable : IsTable first_table
unfolding create first_table
first_table-IsTable = create-IsTable 0 1 2 3 12 positions positions-ArePawns

after_4-IsTable : IsTable after_4
unfolding roll_dice_on create IsDice rounded_up can_pawn_move_by_dice next_from first_table after_4
    ◌+ℤ◌
after_4-IsTable =
    roll_dice_on-IsTable true 5000 4 first_table {r = (none, after_4)} (omega arith, omega arith)
      first_table-IsTable refl

-- The seven seconds that are left are worth 8 hundredths. A roll of 4 is offered to the own pawns, and not to the others.
after_4_offers :
    (is_in (pw pl1 0) 4 (get_can_move_pawns after_4) ≡ true)
    × (is_in (pw pl2 0) 4 (get_can_move_pawns after_4) ≡ false)
unfolding get_can_move_pawns same_pawn same_player can_pawn_move_by_dice get_pawn_id after_4 create
after_4_offers = (refl, refl)

-- From cell 1 to the pawn on cell 5, which goes back to its first cell: 4 for the steps and 30 for it.
after_4_kills :
    (r : Moved) × (move_pawn_on 6000 (pw pl1 0) 4 after_4 ≡ ok r)
    × (r.0.score ≡ pos 34)
    × (r.0.got_extra_move ≡ true)
    × (r.1.remaining_moves ≡ pos 12)
unfolding move_pawn_on next_from get_pawn_id same_pawn same_player index_of pawn_path position_eq
    after_4 create ◌+ℤ◌ ◌-ℤ◌
after_4_kills = (_, refl, refl, refl, refl)

get_next_position-IsAdvance_example :
    IsAdvance 6 record { player = pl1; pawn_index = 0; position = cell 51; bonus? = none } (some 57)
unfolding index_of pawn_path cells_from position_eq same_player
get_next_position-IsAdvance_example =
    get_next_position-IsAdvance
      record { player = pl1; pawn_index = 0; position = cell 51; bonus? = none } 51 5 refl
      (omega arith)

move_pawn_on_iff_example :
    (is_in (pw pl1 0) 4 (get_can_move_pawns after_4) ≡ true)
    ↔ ((r : Moved) × (move_pawn_on 6000 (pw pl1 0) 4 after_4 ≡ ok r))
unfolding after_4
move_pawn_on_iff_example = move_pawn_on_iff 6000 (pw pl1 0) 4 after_4 after_4-IsTable refl refl

abbrev empty : World
empty = record {
  tables = λ id. none;
  user_tables = λ id. none;
  timers = [];
  endings = [];
  events = [];
  results = [];
}

abbrev one_game : World
one_game = (prepare_game_table first_table empty).1

IsReachable-stored-CanGoOn_example : CanGoOn roll_dice first_table
unfolding should_end_game first_table create same_player to_data from_data from_pawn_position
    to_pawn_position from_pawn_id get_pawn_id prepare_game_table ◌>>◌
IsReachable-stored-CanGoOn_example =
    IsReachable-stored-CanGoOn one_game 1 (to_data first_table)
      (step empty one_game (start empty (λ id. refl))
        (starts 0 1 2 3 12 positions positions-ArePawns))
      refl refl

move_pawn_on-foreign_example :
    (r : Moved) × (move_pawn_on 6000 (pw pl2 0) 4 after_4 ≡ ok r)
    × (r.0.got_extra_move ≡ true)
    × (pos 12 ≤ℤ r.1.remaining_moves)
unfolding get_next_position after_4 create get_pawn_id next_from is_safe index_of pawn_path
    cells_from position_eq same_player
move_pawn_on-foreign_example =
    move_pawn_on-foreign 6000 4 4 after_4
      record { player = pl2; pawn_index = 0; position = cell 30; bonus? = none } (cell 34)
      after_4-IsTable refl refl refl refl refl refl

-- The last move is gone, and the pawns are still out.
abbrev last_table : Table
unfolding create
last_table = record first_table { remaining_moves = pos 0 }

handle_roll_dice-late_example :
    (handle_roll_dice true 9000 5 1 3 record empty { tables = λ id. some (to_data last_table) }).0
    ≡ ok 5
unfolding should_end_game last_table first_table create same_player to_data from_data
    from_pawn_position to_pawn_position from_pawn_id get_pawn_id
handle_roll_dice-late_example =
    handle_roll_dice-late true 9000 5 1 3 record empty { tables = λ id. some (to_data last_table) }
      (to_data last_table) record { player = pl1; pawn_index = 0; position = cell 1; bonus? = none }
      refl refl refl refl

-- Each index but the first, which is that of a safe position, gives a position.
positions_run :
    (l : List PawnPosition) × (get_random_initial_positions
        (0 ∷ 1 ∷ 2 ∷ 3 ∷ 4 ∷ 5 ∷ 6 ∷ 7 ∷ 20 ∷ 1 ∷ 2 ∷ 3 ∷ 4 ∷ [])
      ≡ ok l)
unfolding get_random_initial_positions pawn_path cells_from position_eq get_base_position
    same_player
positions_run = (_, refl)
