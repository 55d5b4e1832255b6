-- ===== src/LudoMega/Table/Move.antt =====
-- table.entity.ts: `movePawn`. The pawns are objects that the list and the filtered list share; a
-- pawn to kill is told by its index in the list.
pub mod Foreign
use empire_backend.Base.{
  ℕ, zero, suc, ◌+◌, ◌*◌, Bool, true, false, not, ◌&&◌, ◌||◌, Option, none, some, List, [], ◌∷◌,
  ◌++◌, ◌==◌, if◌then◌else◌, find_index, get_elem?, modify, any,
}
use empire_backend.Base.Int.{ℤ, pos, ◌+ℤ◌, ◌-ℤ◌}
use empire_backend.Base.Results.{
  Result, ok, err, bad_request, type_error, ◌>>=◌, ◌>>◌, throw_if, or_throw,
}
use empire_backend.LudoMega.{
  PawnId, same_pawn, Position, position_eq, is_home, is_safe, GameAction, roll_dice, is_move_pawn,
  bonus_per_home_landing,
}
use empire_backend.LudoMega.Pawn.{
  Pawn, PawnPosition, get_pawn_id, get_base_position, calculate_points, get_next_position, move_to,
  credit_bonus,
}
use empire_backend.LudoMega.Table.{Table, is_mine, increment_counter_and_timeout}
use empire_backend.LudoMega.Table.Offers.{get_can_move_pawns, is_empty}
use empire_backend.LudoMega.Table.Turn.{
  MovePawnResponseEvent, sum, credited_bonus, credit_action_bonus, end_turn,
  calculate_total_points_of_my_pawns,
}

-- The indices of a filtered list, counted from `i`.
abbrev pub indices_from {ℓ} : {A : Type ℓ} → (A → Bool) → ℕ → List A → List ℕ
indices_from p i [] = []
indices_from p i (x ∷ xs) = let rest = indices_from p (i + 1) xs in if p x then i ∷ rest else rest

-- The test of `#getOtherPawnsToKillOnPosition`.
unfoldable pub is_to_kill : Position → Pawn → Bool
unfolding position_eq is_safe
is_to_kill position p =
    not (is_mine p) && (position_eq p.position position && not (is_safe position))

unfoldable pub get_other_pawns_to_kill_on_position : Position → List Pawn → List ℕ
unfolding is_to_kill
get_other_pawns_to_kill_on_position position pawns = indices_from (is_to_kill position) 0 pawns

abbrev pub moved_to : Pawn → Position → Option ℤ → Option ℕ → PawnPosition
moved_to p position points? used_dice? = record {
  pawn = get_pawn_id p;
  position = position;
  bonus? = none;
  points? = points?;
  used_dice? = used_dice?;
}

-- One round of the loop: `target` is the index of the pawn that has moved, and may be that of the
-- pawn to kill.
unfoldable pub kill : ℕ → List Pawn → Pawn → ℕ → List Pawn
unfolding get_base_position calculate_points
kill target pawns k i =
    modify (move_to (get_base_position k.player))
      (modify (credit_bonus (calculate_points k)) pawns target) i

unfoldable pub kill_all : ℕ → List ℕ → List Pawn → List Pawn
unfolding kill
kill_all target [] pawns = pawns
kill_all target (i ∷ is) pawns =
    kill_all target is (elim (get_elem? pawns i) [ none ↦ pawns | some k ↦ kill target pawns k i ])

abbrev pub killed_entries : List ℕ → List Pawn → List PawnPosition
killed_entries [] pawns = []
killed_entries (i ∷ is) pawns =
    let rest = killed_entries is pawns in
    elim (get_elem? pawns i) [
      | none ↦ rest
      | some k ↦ moved_to k (get_base_position k.player) (some (pos 0)) none ∷ rest
    ]

-- `this.dices.splice(this.dices.indexOf(dice), 1)`, for a dice of the list
abbrev pub remove_first : ℕ → List ℕ → List ℕ
remove_first dice [] = []
remove_first dice (d ∷ ds) = let rest = remove_first dice ds in if dice == d then ds else d ∷ rest

abbrev pub land : Position → Pawn → Pawn
land position p =
    move_to position (if is_home position then credit_bonus (pos bonus_per_home_landing) p else p)

unfoldable pub have_extra_chance : Position → List ℕ → Bool
have_extra_chance position killed = is_home position || not (is_empty killed)

-- The pawns after the move and the kills.
unfoldable pub pawns_after : ℕ → Position → List Pawn → List Pawn
unfolding kill_all get_other_pawns_to_kill_on_position
pawns_after target position pawns =
    let landed = modify (land position) pawns target in
    kill_all target (get_other_pawns_to_kill_on_position position landed) landed

abbrev pub killed_by : ℕ → Position → List Pawn → List ℕ
killed_by target position pawns =
    get_other_pawns_to_kill_on_position position (modify (land position) pawns target)

abbrev pub gains_move : ℕ → Position → List Pawn → Bool
gains_move target position pawns = have_extra_chance position (killed_by target position pawns)

-- The table after the kills, with the extra move and without the dice.
unfoldable pub after_landing : ℕ → ℕ → Position → Table → Table
unfolding pawns_after have_extra_chance get_other_pawns_to_kill_on_position
after_landing target dice position t = record t {
  pawns = pawns_after target position t.pawns;
  remaining_moves =
      if gains_move target position t.pawns then t.remaining_moves +ℤ pos 1 else t.remaining_moves;
  dices = remove_first dice t.dices;
}

abbrev pub is_stuck : Table → Bool
is_stuck t = is_empty (get_can_move_pawns t)

-- The turn is over when no pawn can move with the dices that are left.
unfoldable pub check_moves : Table → Table
unfolding get_can_move_pawns end_turn
check_moves t = if is_stuck t then end_turn (record t { action = roll_dice }) else t

unfoldable pub update_score : Table → Table
unfolding calculate_total_points_of_my_pawns
update_score t = record t { score = calculate_total_points_of_my_pawns t.pawns }

unfoldable pub after_move : ℕ → ℕ → ℕ → Position → Table → Table
unfolding after_landing check_moves credit_action_bonus increment_counter_and_timeout update_score
after_move now target dice position t = update_score (
    increment_counter_and_timeout now
      (credit_action_bonus now (check_moves (after_landing target dice position t))))

abbrev pub bonus_for_dices : Table → ℕ
bonus_for_dices t = if is_stuck t then sum t.dices else 0

-- The answer; the score and the turn's score are whole points, the bonus hundredths.
unfoldable pub move_response : ℕ → ℕ → ℕ → Position → Pawn → Table → MovePawnResponseEvent
unfolding after_landing after_move calculate_points get_other_pawns_to_kill_on_position
    have_extra_chance get_can_move_pawns get_base_position get_pawn_id
    calculate_total_points_of_my_pawns
move_response now target dice position p t =
    let t1 = after_landing target dice position t in
    let t' = after_move now target dice position t in
    let score = calculate_total_points_of_my_pawns t'.pawns in
    record {
      table_id = t.id;
      moved_pawns =
          moved_to p position (some (calculate_points (land position p))) (some dice)
          ∷ killed_entries (killed_by target position t.pawns)
              (modify (land position) t.pawns target);
      score = score;
      bonus = credited_bonus now t +ℤ pos (bonus_for_dices t1 * 100);
      total_bonus = t'.bonus;
      turn_score = score -ℤ t.score;
      got_extra_move = gains_move target position t.pawns;
    }

abbrev pub has_id : PawnId → Pawn → Bool
has_id id p = same_pawn (get_pawn_id p) id

-- The answer and the table after a move.
abbrev pub Moved : Type 0
Moved = MovePawnResponseEvent × Table

abbrev pub moved : ℕ → ℕ → ℕ → Table → Pawn → Position → Moved
moved now dice target t p position =
    (move_response now target dice position p t, after_move now target dice position t)

-- The move of the pawn that has the id.
unfoldable pub move_found : ℕ → ℕ → ℕ → Table → Pawn → Result Moved
unfolding get_next_position after_move move_response
move_found now dice target t p =
    get_next_position dice p >>= λ position. ok (moved now dice target t p position)

-- `#findPawn`
abbrev pub find_pawn : PawnId → Table → Result ℕ
find_pawn id t = or_throw (find_index (has_id id) t.pawns) bad_request

unfoldable pub move_target : ℕ → ℕ → Table → ℕ → Result Moved
unfolding move_found
move_target now dice t target =
    or_throw (get_elem? t.pawns target) type_error >>= move_found now dice target t

abbrev pub has_dice : ℕ → List ℕ → Bool
has_dice dice dices = any (◌==◌ dice) dices

unfoldable pub move_pawn_on : ℕ → PawnId → ℕ → Table → Result Moved
unfolding move_target same_pawn get_pawn_id
move_pawn_on now id dice t =
    throw_if (not (is_move_pawn t.action)) bad_request
    >> (throw_if (not (has_dice dice t.dices)) bad_request
        >> (find_pawn id t >>= move_target now dice t))
