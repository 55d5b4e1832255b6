-- ===== src/SnakesLadders/Table/Skip.antt =====
-- table.entity.ts: `skipTurn`.
pub mod Effect
use empire_backend.Base.{
  ℕ, ◌+◌, ◌-◌, Bool, true, false, Option, none, some, ltb, if◌then◌else◌, length, get_elem?, set,
}
use empire_backend.Base.Results.{Result, ok, err, type_error, ◌>>=◌, or_throw}
use empire_backend.SnakesLadders.Types.{GameAction}
use empire_backend.SnakesLadders.Table.{User, Table}
use empire_backend.SnakesLadders.Table.Turn.{
  current_index, get_action_timeout, get_can_move_pawns_by_player_index,
  get_number_of_pawns_to_be_moved,
}

-- The three writes that the cases 1 to 3 share.
unfoldable pub start_over : ℕ → Table → Table
unfolding get_action_timeout
start_over now t = record t {
  action = GameAction.roll_dice;
  counter = t.counter + 1;
  timeout = get_action_timeout now t;
}

-- `users[index].lives--`, where `lives > 0`
unfoldable pub lose_life : ℕ → User → Table → Table
lose_life index u t = record t { users = set t.users index (record u { lives = u.lives - 1 }) }

-- The four cases: a player with lives left loses one where a pawn could have moved, and a player
-- without lives has to leave. The result is the table and `shouldLeave`.
unfoldable pub skip_case : ℕ → ℕ → User → Table → Table × Bool
unfolding start_over lose_life
skip_case now index u t =
    if ltb 0 u.lives
    then if ltb 0 (get_number_of_pawns_to_be_moved t)
      then if ltb 0 (length (get_can_move_pawns_by_player_index (some index) t))
        then (start_over now (lose_life index u t), false)
        else (start_over now t, false)
      else (start_over now t, false)
    else (t, true)

unfoldable pub skip_turn : ℕ → Table → Result (Table × Bool)
unfolding skip_case
skip_turn now t = do
  index ← or_throw (current_index t) type_error
  u ← or_throw (get_elem? t.users index) type_error
  ok (skip_case now index u t)
