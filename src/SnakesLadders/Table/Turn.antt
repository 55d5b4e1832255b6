-- ===== src/SnakesLadders/Table/Turn.antt =====
-- table.entity.ts: whose turn it is, the dice, and which pawns can move.
pub mod Dice
pub mod Next
pub mod CanMove
pub mod Pass
use empire_backend.Base.{
  ℕ, zero, suc, ◌+◌, ◌-◌, ◌*◌, ◌/◌, ◌%◌, ◌≤◌, Bool, true, false, not, ◌&&◌, ◌||◌, Option, none,
  some, List, [], ◌∷◌, map, ltb, leb, ◌==◌, if◌then◌else◌, length, get_elem?, find_index, find?,
  filter, count,
}
use empire_backend.Base.Results.{
  Result, ok, err, bad_request, type_error, stuck, ◌>>=◌, ◌>>◌, throw_if,
}
use empire_backend.SnakesLadders.Types.{
  Position, is_home, PawnId, pw, GameAction, is_roll_dice, is_move_pawn, CanMovePawn,
}
use empire_backend.SnakesLadders.Pawn.{Pawn, get_pawn_id, calculate_points}
use empire_backend.SnakesLadders.Table.{User, Table}

-- `Math.floor(min + (max - min + 1) * Math.random())`, where the random number is `num / den`
unfoldable pub get_random_integer : ℕ → ℕ → ℕ → ℕ → ℕ
get_random_integer min max num den = min + (max - min + 1) * num / den

unfoldable pub get_random_dice_outcome : ℕ → ℕ → ℕ
unfolding get_random_integer
get_random_dice_outcome num den = get_random_integer 1 6 num den

abbrev pub is_user : ℕ → User → Bool
is_user user_id u = u.user_id == user_id

-- `users.findIndex((user) => user.userId === this.currentTurn)`
abbrev pub current_index : Table → Option ℕ
current_index t = find_index (is_user t.current_turn) t.users

-- `#getActionTimeout`
unfoldable pub get_action_timeout : ℕ → Table → ℕ
get_action_timeout now t = now + t.turn_timeout

unfoldable pub increment_counter_and_timeout : ℕ → Table → Table
unfolding get_action_timeout
increment_counter_and_timeout now t = record t {
  counter = t.counter + 1;
  timeout = get_action_timeout now t;
}

-- The `while` loop of `setNextTurn`; without fuel left it is still running. The source raises where
-- a table has no users, which no table that is created is.
unfoldable pub next_turn_from : ℕ → ℕ → List User → Result ℕ
next_turn_from zero cnt users = err stuck
next_turn_from (suc fuel) cnt users =
    let rest = next_turn_from fuel (cnt + 1) users in
    elim (get_elem? users (cnt % length users)) [
      | none ↦ err type_error
      | some u ↦ if u.did_leave then rest else ok u.user_id
    ]

abbrev pub start_after : Option ℕ → ℕ
start_after none = 0
start_after (some i) = i + 1

unfoldable pub set_next_turn : ℕ → Table → Result Table
unfolding next_turn_from
set_next_turn user_id t = do
  turn ←
      next_turn_from (length t.users) (start_after (find_index (is_user user_id) t.users)) t.users
  ok (record t { current_turn = turn })

-- `rollDice`, on the outcome of the dice
unfoldable pub roll_dice : ℕ → ℕ → Table → Result (ℕ × Table)
unfolding get_action_timeout
roll_dice now outcome t = do
  throw_if (not (is_roll_dice t.action)) bad_request
  ok (
    outcome,
    record t { dice = outcome; counter = t.counter + 1; timeout = get_action_timeout now t },
  )

abbrev pub sum : List ℕ → ℕ
sum [] = 0
sum (x ∷ xs) = x + sum xs

-- `score2string` adds from the left.
unfoldable pub score_sum : List ℕ → ℕ → ℕ
score_sum [] acc = acc
score_sum (x ∷ xs) acc = score_sum xs (acc + x)

abbrev pub is_of : ℕ → Pawn → Bool
is_of player_index p = p.player_index == player_index

unfoldable pub calculate_total_points_of_my_pawns : ℕ → Table → List ℕ
unfolding calculate_points
calculate_total_points_of_my_pawns player_index t =
    map calculate_points (filter (is_of player_index) t.pawns)

-- `score2string(calculateTotalPointsOfMyPawns(index))`
unfoldable pub score_of : Table → ℕ → ℕ
unfolding score_sum calculate_total_points_of_my_pawns
score_of t player_index = score_sum (calculate_total_points_of_my_pawns player_index t) 0

-- The loop of `getAllusersScore`, from index `id`.
unfoldable pub scores_from : Table → ℕ → List User → List ℕ
unfolding score_of
scores_from t id [] = []
scores_from t id (u ∷ users) = score_of t id ∷ scores_from t (id + 1) users

unfoldable pub get_all_users_score : Table → List ℕ
unfolding scores_from
get_all_users_score t = scores_from t 0 t.users

-- The pawn is home, or the dice would take it past square 100.
abbrev pub is_blocked : ℕ → Pawn → Bool
is_blocked dice p = is_home p.position || ltb 100 (dice + calculate_points p)

-- The loop of `getCanMovePanwsByplayerIndex` over the pawns of `getPawnsByIndex`.
unfoldable pub can_move_from : ℕ → List Pawn → List CanMovePawn
unfolding get_pawn_id calculate_points
can_move_from dice [] = []
can_move_from dice (p ∷ pawns) =
    let rest = can_move_from dice pawns in
    if is_blocked dice p then rest else record { pawn_id = get_pawn_id p; dice = dice } ∷ rest

unfoldable pub get_pawns_by_index : ℕ → Table → List Pawn
get_pawns_by_index index t = filter (is_of index) t.pawns

-- No pawn has the index -1, which `none` stands for.
unfoldable pub get_can_move_pawns_by_player_index : Option ℕ → Table → List CanMovePawn
unfolding can_move_from get_pawns_by_index
get_can_move_pawns_by_player_index none t = []
get_can_move_pawns_by_player_index (some index) t =
    can_move_from t.dice (get_pawns_by_index index t)

abbrev pub is_of? : Option ℕ → Pawn → Bool
is_of? none p = false
is_of? (some index) p = is_of index p

unfoldable pub get_number_of_pawns_to_be_moved : Table → ℕ
get_number_of_pawns_to_be_moved t =
    count (λ p. is_of? (current_index t) p && not (is_home p.position)) t.pawns

unfoldable pub check_if_pass_turn_to_next : Table → Bool
unfolding get_can_move_pawns_by_player_index get_number_of_pawns_to_be_moved
check_if_pass_turn_to_next t =
    let can_move_pawns = get_can_move_pawns_by_player_index (current_index t) t in
    ltb 0 (get_number_of_pawns_to_be_moved t) && (length can_move_pawns == 0)

pub record NextActionEvent : Type 0 where
  pub table_id : ℕ
  pub player_id? : Option ℕ
  pub action : GameAction
  pub turn_timeout : ℕ
  pub can_move_pawns : List PawnId

abbrev pub player_id_of : Option User → Option ℕ
player_id_of none = none
player_id_of (some u) = some u.player_id

unfoldable pub generate_next_action : Table → NextActionEvent
unfolding get_can_move_pawns_by_player_index
generate_next_action t = record {
  table_id = t.id;
  player_id? = player_id_of (find? (λ u. is_user t.current_turn u && not u.did_leave) t.users);
  action = t.action;
  turn_timeout = t.timeout;
  can_move_pawns =
      if is_move_pawn t.action
      then map (λ c. c.pawn_id) (get_can_move_pawns_by_player_index (current_index t) t)
      else [];
}
