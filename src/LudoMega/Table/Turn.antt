-- ===== src/LudoMega/Table/Turn.antt =====
-- table.entity.ts: the dice, the bonus for quick actions, and the end of a turn.
use empire_backend.Base.{
  ℕ, suc, ◌+◌, ◌-◌, ◌*◌, ◌/◌, Bool, true, false, not, ◌&&◌, ◌||◌, Option, none, some, List, [], ◌∷◌,
  ◌++◌, map, ◌==◌, if◌then◌else◌, find?, filter, length,
}
use empire_backend.Base.Int.{ℤ, pos, negsuc, sub_ℕ, ltb_ℤ, ◌+ℤ◌, ◌-ℤ◌}
use empire_backend.Base.Results.{
  Result, ok, bad_request, type_error, ◌>>=◌, ◌>>◌, throw_if, or_throw,
}
use empire_backend.LudoMega.{
  roll_dice, move_pawn, is_roll_dice, is_home, turn_timeout_in_seconds, bonus_per_remaining_move,
}
use empire_backend.LudoMega.Pawn.{Pawn, PawnPosition, get_pawn_id, calculate_points}
use empire_backend.LudoMega.Table.{Table, is_mine, increment_counter_and_timeout}
use empire_backend.LudoMega.Table.Offers.{get_can_move_pawns, is_empty}

pub record MovePawnResponseEvent : Type 0 where
  pub table_id : ℕ
  pub moved_pawns : List PawnPosition
  pub score : ℤ
  pub bonus : ℤ
  pub total_bonus : ℤ
  pub turn_score : ℤ
  pub got_extra_move : Bool

abbrev pub sum : List ℕ → ℕ
sum [] = 0
sum (n ∷ ns) = n + sum ns

abbrev pub sum_ℤ : List ℤ → ℤ
sum_ℤ [] = pos 0
sum_ℤ (n ∷ ns) = n +ℤ sum_ℤ ns

abbrev pub hundredths : ℤ → ℤ
hundredths (pos n) = pos (n * 100)
hundredths (negsuc n) = sub_ℕ 0 (suc n * 100)

-- `Math.ceil(seconds * 0.01 * 100)` on doubles: the product lies above 7 for 7 seconds, and above
-- -29 for -29; the other values down to -57 are exact.
unfoldable pub rounded_up : ℤ → ℤ
rounded_up (pos n) = if n == 7 then pos 8 else pos n
rounded_up (negsuc n) = if n == 28 then negsuc 27 else negsuc n

unfoldable pub get_action_bonus : ℕ → Table → ℤ
unfolding rounded_up
get_action_bonus now t =
    rounded_up (sub_ℕ turn_timeout_in_seconds ((now - t.last_action_start_time) / 1000))

-- `#creditActionBonus(true)`
unfoldable pub keep_action_bonus : ℕ → Table → Table
unfolding get_action_bonus
keep_action_bonus now t = record t {
  roll_dice_action_bonus = t.roll_dice_action_bonus +ℤ get_action_bonus now t;
}

-- `#creditActionBonus(false)`: what it credits, and the table after it.
abbrev pub credited_bonus : ℕ → Table → ℤ
credited_bonus now t = t.roll_dice_action_bonus +ℤ get_action_bonus now t

unfoldable pub credit_action_bonus : ℕ → Table → Table
unfolding get_action_bonus
credit_action_bonus now t = record t {
  bonus = t.bonus +ℤ credited_bonus now t;
  roll_dice_action_bonus = pos 0;
}

abbrev all_six : List ℕ → Bool
all_six [] = true
all_six (d ∷ ds) = d == 6 && all_six ds

unfoldable pub got_three_6 : List ℕ → Bool
got_three_6 dices = length dices == 3 && all_six dices

unfoldable pub calculate_total_points_of_my_pawns : List Pawn → ℤ
unfolding calculate_points
calculate_total_points_of_my_pawns pawns = sum_ℤ (map calculate_points (filter is_mine pawns))

-- in hundredths
unfoldable pub calculate_total_score : Table → ℤ
unfolding calculate_total_points_of_my_pawns
calculate_total_score t = t.bonus +ℤ hundredths (calculate_total_points_of_my_pawns t.pawns)

unfoldable pub get_home_pawn_count : List Pawn → ℕ
get_home_pawn_count pawns = length (filter (λ p. is_mine p && is_home p.position) pawns)

unfoldable pub should_end_game : Table → Bool
unfolding get_home_pawn_count
should_end_game t =
    not (ltb_ℤ (pos 0) t.remaining_moves)
    || (ltb_ℤ t.lives (pos 0) || (get_home_pawn_count t.pawns == 4))

-- `remainingMoves * 17.72`, for moves that are left.
unfoldable pub remaining_moves_bonus : Table → ℤ
remaining_moves_bonus t = elim t.remaining_moves [
  | pos n ↦ pos (n * bonus_per_remaining_move)
  | negsuc n ↦ sub_ℕ 0 (suc n * bonus_per_remaining_move)
]

unfoldable pub credit_bonus_for_remaining_moves : Table → Table
unfolding remaining_moves_bonus
credit_bonus_for_remaining_moves t = record t { bonus = t.bonus +ℤ remaining_moves_bonus t }

unfoldable pub skip_turn : ℕ → Table → Table
unfolding increment_counter_and_timeout
skip_turn now t = increment_counter_and_timeout now record t {
  lives = t.lives -ℤ pos 1;
  remaining_moves = t.remaining_moves -ℤ pos 1;
  is_new_turn = true;
  action = roll_dice;
  dices = [];
  roll_dice_action_bonus = pos 0;
}

abbrev pub push_dice : ℕ → Table → Table
push_dice dice t = record t { dices = t.dices ++ (dice ∷ []); is_new_turn = false }

-- Three times 6 take the dices and a move.
unfoldable pub after_three_6 : Table → Table
unfolding got_three_6
after_three_6 t =
    if got_three_6 t.dices
    then record t {
      dices = [];
      remaining_moves = t.remaining_moves -ℤ pos 1;
      roll_dice_action_bonus = pos 0;
      is_new_turn = true;
    }
    else t

-- The dices that are left are worth a bonus, and the turn is over.
unfoldable pub end_turn : Table → Table
end_turn t = record t {
  bonus = t.bonus +ℤ pos (sum t.dices * 100);
  dices = [];
  remaining_moves = t.remaining_moves -ℤ pos 1;
  is_new_turn = true;
}

abbrev pub unmoved : Pawn → PawnPosition
unmoved p = record {
  pawn = get_pawn_id p;
  position = p.position;
  bonus? = none;
  points? = none;
  used_dice? = none;
}

abbrev pub first_out : List Pawn → Option Pawn
first_out pawns = find? (λ p. is_mine p && not (is_home p.position)) pawns

abbrev pub turn_over : ℕ → Table → Table
turn_over now t = end_turn (credit_action_bonus now t)

-- The answer for a roll that no pawn can use: the turn's score is whole points, the bonus hundredths.
unfoldable pub skipped_move : ℕ → Table → Pawn → MovePawnResponseEvent
unfolding credit_action_bonus end_turn get_pawn_id calculate_total_points_of_my_pawns
skipped_move now t p = record {
  table_id = t.id;
  moved_pawns = unmoved p ∷ [];
  score = calculate_total_points_of_my_pawns t.pawns;
  bonus = credited_bonus now t;
  total_bonus = (turn_over now t).bonus;
  turn_score = pos (sum t.dices);
  got_extra_move = false;
}

-- What `rollDice` answers besides the dice, and the table.
abbrev pub Rolled : Type 0
Rolled = Option MovePawnResponseEvent × Table

abbrev pub skip_with : ℕ → Table → Pawn → Rolled
skip_with now t p = (some (skipped_move now t p), turn_over now t)

-- No pawn can move.
unfoldable pub skip_move : ℕ → Table → Result Rolled
unfolding skipped_move credit_action_bonus end_turn
skip_move now t = or_throw (first_out t.pawns) type_error >>= λ p. ok (skip_with now t p)

abbrev pub start_move : Table → Table
start_move t = record t { action = move_pawn }

-- The table between the dice and the choice of the next action.
unfoldable pub after_dice : ℕ → ℕ → Table → Table
unfolding keep_action_bonus after_three_6
after_dice now dice t = after_three_6 (keep_action_bonus now (push_dice dice t))

unfoldable pub settle_dice : Bool → ℕ → ℕ → Table → Result Rolled
unfolding get_can_move_pawns skip_move
settle_dice extra now dice t =
    if not (dice == 6) || not extra
    then if is_empty (get_can_move_pawns t) then skip_move now t else ok (none, start_move t)
    else ok (none, t)

abbrev pub finish_roll : ℕ → Rolled → Rolled
finish_roll now r = (r.0, increment_counter_and_timeout now r.1)

-- `rollDice`, where `dice` is the random number from 1 to 6.
unfoldable pub roll_dice_on : Bool → ℕ → ℕ → Table → Result Rolled
unfolding after_dice settle_dice increment_counter_and_timeout
roll_dice_on extra now dice t =
    throw_if (not (is_roll_dice t.action)) bad_request
    >> (settle_dice extra now dice (after_dice now dice t) >>= λ r. ok (finish_roll now r))
