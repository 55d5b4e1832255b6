-- ===== src/SnakesLadders/Tests/Tables.antt =====
-- The theorems of the table and of its pawns, at the table of the tests.
use empire_backend.Base.{
  ℕ, ◌≡◌, refl, ◌↔◌, Bool, true, false, some, [], ◌∷◌, arith, get_elem?, count, find_index, ◌&&◌,
  ◌+◌, ◌-◌, ◌≤◌,
}
use empire_backend.Base.Results.{ok, err, stuck}
use empire_backend.SnakesLadders.Table.Turn.Dice.{get_random_dice_outcome-range}
use empire_backend.SnakesLadders.Types.{cell, is_home, pw, GameAction, GameStatus}
use empire_backend.SnakesLadders.Pawn.{
  NextPosition, get_next_position, get_position_by_index, get_new_position_if_ladder_or_snake,
}
use empire_backend.SnakesLadders.Pawn.Laws.{Lands, get_next_position-Lands}
use empire_backend.SnakesLadders.Table.{Table, create, new_table, to_data}
use empire_backend.SnakesLadders.Table.Stored.{new_table-to_data}
use empire_backend.SnakesLadders.Table.Turn.{
  get_random_integer, get_random_dice_outcome, is_user, is_of, current_index, start_after,
  next_turn_from, set_next_turn, check_if_pass_turn_to_next, generate_next_action,
}
use empire_backend.SnakesLadders.Table.Turn.Next.{
  IsNextSeat, set_next_turn-IsNextSeat, set_next_turn-stuck,
}
use empire_backend.SnakesLadders.Table.Turn.CanMove.{offered_iff}
use empire_backend.SnakesLadders.Table.Turn.Pass.{IsStuck, check_if_pass_turn_to_next_iff}
use empire_backend.SnakesLadders.Table.Move.{MoveResult, can_pawn_move, move_pawn, should_end_game}
use empire_backend.SnakesLadders.Table.Move.Effect.{MoveEffect, move_pawn-MoveEffect}
use empire_backend.SnakesLadders.Table.Move.Total.{move_pawn-ok_iff}
use empire_backend.SnakesLadders.Table.Move.EndGame.{should_end_game_iff}
use empire_backend.SnakesLadders.Table.Skip.{skip_turn}
use empire_backend.SnakesLadders.Table.Skip.Effect.{SkipEffect, skip_turn-SkipEffect}
use empire_backend.SnakesLadders.Table.Invariant.{IsTable}
use empire_backend.SnakesLadders.Table.Invariant.Moves.{move_pawn-IsTable}
use empire_backend.SnakesLadders.Table.Invariant.Create.{create-IsTable}
use empire_backend.SnakesLadders.Tests.{
  ann, bob, seat_1, seat_2, pawn_at, board, game, board-IsBoard, game-IsTable, moved_game,
  moved_result, game_moves,
}

move_pawn-MoveEffect_example : MoveEffect (pw 1 1) 4 board game moved_game
move_pawn-MoveEffect_example =
    move_pawn-MoveEffect 200 5 (pw 1 1) 4 board game moved_result moved_game game-IsTable.seated
      game_moves

move_pawn-IsTable_example : IsTable moved_game
move_pawn-IsTable_example =
    move_pawn-IsTable 200 5 (pw 1 1) 4 board game moved_result moved_game board-IsBoard game-IsTable
      game_moves

move_pawn-ok_iff_example :
    ((r : MoveResult) × (t' : Table) × (move_pawn 200 5 (pw 2 1) 4 board game ≡ ok (r, t'))) ↔ (
      (c : ℕ) × (current_index game ≡ some c)
      × (2 ≡ c + 1)
      × (GameAction.move_pawn ≡ GameAction.move_pawn)
      × (game.dice ≡ 4)
      × (can_pawn_move game (pw 2 1) ≡ true))
move_pawn-ok_iff_example = move_pawn-ok_iff 200 5 (pw 2 1) 4 board game game-IsTable.seated

landing : NextPosition
landing = record { next_position = cell 9; next_index = 9; is_snake = false; is_ladder = false }

get_next_position-Lands_example : Lands (pawn_at 0 0 (cell 5)) 4 board landing
unfolding landing get_next_position get_position_by_index get_new_position_if_ladder_or_snake
get_next_position-Lands_example =
    get_next_position-Lands (pawn_at 0 0 (cell 5)) 4 board landing board-IsBoard refl

set_next_turn-IsNextSeat_example :
    (turn : ℕ) × (set_next_turn 11 game ≡ ok (record game { current_turn = turn }))
    × IsNextSeat game.users (start_after (find_index (is_user 11) game.users)) turn
set_next_turn-IsNextSeat_example = set_next_turn-IsNextSeat 11 game 1 seat_2 refl refl

abbrev deserted : Table
deserted = record game { users = record seat_1 { did_leave = true } ∷ [] }

set_next_turn-stuck_example : next_turn_from 40 0 deserted.users ≡ err stuck
set_next_turn-stuck_example = set_next_turn-stuck 40 0 deserted (omega arith) (refl, tt)

offered_iff_example :
    ((k : ℕ) × (get_elem? (generate_next_action game).can_move_pawns k ≡ some (pw 1 2)))
    ↔ ((1 ≡ 0 + 1) × (can_pawn_move game (pw 1 2) ≡ true))
offered_iff_example = offered_iff game 0 (pw 1 2) game-IsTable.ids refl refl

check_if_pass_turn_to_next_iff_example : (check_if_pass_turn_to_next game ≡ true) ↔ IsStuck game 0
check_if_pass_turn_to_next_iff_example = check_if_pass_turn_to_next_iff game 0 refl

should_end_game_iff_example :
    (should_end_game game ≡ true)
    ↔ ((k : ℕ) × (count (λ p. is_of k p && is_home p.position) game.pawns ≡ 2))
should_end_game_iff_example = should_end_game_iff game

skip_turn-SkipEffect_example :
    (r : Table × Bool) × (skip_turn 200 game ≡ ok r)
    × SkipEffect 200 game-IsTable.turn.index game-IsTable.turn.user game r
skip_turn-SkipEffect_example = skip_turn-SkipEffect 200 game game-IsTable

create-IsTable_example :
    (t : Table) × (create 100 5 (ann ∷ bob ∷ []) 1000 (some 1800) GameStatus.ongoing 118 15 420
      ≡ ok t)
    × IsTable t
create-IsTable_example =
    create-IsTable 100 5 ann (bob ∷ []) 1000 (some 1800) GameStatus.ongoing 118 15 420
      (((λ e. ground arith), tt), (tt, tt))

new_table-to_data_example :
    new_table 9 (to_data (record game { status = GameStatus.completed })) ≡ ok game
new_table-to_data_example = new_table-to_data 9 (record game { status = GameStatus.completed })

get_random_dice_outcome-range_example :
    (1 ≤ get_random_dice_outcome 5 7)
    × (get_random_dice_outcome 5 7 ≤ 6)
    × ((k : ℕ) → 1 ≤ k → k ≤ 6 → get_random_dice_outcome (k - 1) 6 ≡ k)
get_random_dice_outcome-range_example = get_random_dice_outcome-range 5 7 (omega arith)

dice_roll : get_random_dice_outcome 5 7 ≡ 5
unfolding get_random_dice_outcome get_random_integer
dice_roll = refl
