-- ===== src/LudoMega/Pawn.antt =====
-- pawn.entity.ts: a pawn, its points and its next position on the path of its player.
pub mod Paths
use empire_backend.Base.{
  ℕ, zero, suc, ◌+◌, ◌-◌, Bool, true, false, not, ◌&&◌, ◌||◌, Option, none, some, List, ◌==◌,
  if◌then◌else◌, get_elem?, find_index,
}
use empire_backend.Base.Int.{ℤ, pos, negsuc, ◌+ℤ◌, sub_ℕ, ltb_ℤ}
use empire_backend.Base.Results.{Result, ok, err, bad_request, type_error, or_throw}
use empire_backend.LudoMega.{
  Player, PawnId, pw, Position, base, cell, home_path, home, position_eq, first_cell, pawn_path,
}

pub record Pawn : Type 0 where
  pub player : Player
  pub pawn_index : ℕ
  pub position : Position
  pub bonus? : Option ℤ

pub record PawnPosition : Type 0 where
  pub pawn : PawnId
  pub position : Position
  pub bonus? : Option ℤ
  pub points? : Option ℤ
  pub used_dice? : Option ℕ

unfoldable pub from_pawn_id : PawnId → Position → Option ℤ → Pawn
from_pawn_id (pw p i) position bonus? = record {
  player = p;
  pawn_index = i;
  position = position;
  bonus? = bonus?;
}

unfoldable pub from_pawn_position : PawnPosition → Pawn
unfolding from_pawn_id
from_pawn_position p = from_pawn_id p.pawn p.position p.bonus?

unfoldable pub get_pawn_id : Pawn → PawnId
get_pawn_id p = pw p.player p.pawn_index

unfoldable pub index_of : Position → List Position → Option ℕ
unfolding position_eq
index_of position path = find_index (position_eq position) path

-- `fullPath.indexOf(position) - 1`
abbrev pub distance_from_base : Option ℕ → ℤ
distance_from_base none = negsuc 1
distance_from_base (some i) = sub_ℕ i 1

abbrev pub or_zero : Option ℤ → ℤ
or_zero none = pos 0
or_zero (some n) = n

unfoldable pub calculate_points : Pawn → ℤ
unfolding index_of
calculate_points p =
    distance_from_base (index_of p.position (pawn_path p.player)) +ℤ or_zero p.bonus?

unfoldable pub to_pawn_position : Pawn → PawnPosition
unfolding get_pawn_id calculate_points
to_pawn_position p = record {
  pawn = get_pawn_id p;
  position = p.position;
  bonus? = p.bonus?;
  points? = some (calculate_points p);
  used_dice? = none;
}

-- -1 off the path to home.
abbrev pub get_remaining_steps_on_home_path : Position → ℤ
get_remaining_steps_on_home_path (home_path p k) = sub_ℕ 6 k
get_remaining_steps_on_home_path _ = negsuc 0

-- `fullPath[cellIndex + dice]`, where the index may be -1.
abbrev pub get_ahead : List Position → Option ℕ → ℕ → Option Position
get_ahead path none zero = none
get_ahead path none (suc d) = get_elem? path d
get_ahead path (some i) dice = get_elem? path (i + dice)

abbrev pub leaves_base : ℕ → Bool
leaves_base dice = dice == 1 || dice == 6

abbrev pub is_too_far : Position → ℕ → Bool
is_too_far position dice =
    let steps = get_remaining_steps_on_home_path position in
    ltb_ℤ (pos 0) steps && ltb_ℤ steps (pos dice)

-- A position past the end of the path is `undefined`, here a `type_error`.
unfoldable pub next_from : ℕ → Player → Position → Result Position
unfolding index_of
next_from dice player home = err bad_request
next_from dice player (base b) =
    if leaves_base dice
    then or_throw (get_elem? (pawn_path player) 1) type_error
    else err bad_request
next_from dice player position =
    if is_too_far position dice
    then err bad_request
    else or_throw (get_ahead (pawn_path player) (index_of position (pawn_path player)) dice)
        type_error

unfoldable pub get_next_position : ℕ → Pawn → Result Position
unfolding next_from
get_next_position dice p = next_from dice p.player p.position

-- `#canPawnMoveByDice`
unfoldable pub can_pawn_move_by_dice : Position → ℕ → Bool
can_pawn_move_by_dice home dice = false
can_pawn_move_by_dice (base b) dice = leaves_base dice
can_pawn_move_by_dice (home_path p k) dice =
    not (ltb_ℤ (get_remaining_steps_on_home_path (home_path p k)) (pos dice))
can_pawn_move_by_dice (cell n) dice = true

-- `getBasePosition`: the first cell after the base.
unfoldable pub get_base_position : Player → Position
get_base_position p = cell (first_cell p)

abbrev pub move_to : Position → Pawn → Pawn
move_to position p = record p { position = position }

abbrev pub credit_bonus : ℤ → Pawn → Pawn
credit_bonus bonus p = record p { bonus? = some (or_zero p.bonus? +ℤ bonus) }
