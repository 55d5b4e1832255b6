-- ===== src/SnakesLadders/Pawn.antt =====
-- apps/sl-gameplay/src/domain/entities/pawn.entity.ts: a pawn, its points and its next position on
-- a board of snakes and ladders.
pub mod Ladders
pub mod Laws
use empire_backend.Base.{ℕ, ◌+◌, ◌-◌, Bool, true, false, ◌==◌, ltb, if◌then◌else◌, List, [], ◌∷◌}
use empire_backend.Base.Results.{Result, ok, err, bad_request}
use empire_backend.SnakesLadders.Types.{Position, base, cell, home, PawnId, pw, Board}

pub record Pawn : Type 0 where
  pub player_index : ℕ
  pub pawn_index : ℕ
  pub position : Position

pub record PawnPosition : Type 0 where
  pub pawn : PawnId
  pub position : Position
  pub points : ℕ

-- `Pawn.fromPawnPosition`: the numbers of the id, less one.
unfoldable pub from_pawn_id : PawnId → Position → Pawn
from_pawn_id (pw i j) p = record { player_index = i - 1; pawn_index = j - 1; position = p }

unfoldable pub from_pawn_position : PawnPosition → Pawn
unfolding from_pawn_id
from_pawn_position p = from_pawn_id p.pawn p.position

unfoldable pub get_pawn_id : Pawn → PawnId
get_pawn_id p = pw (p.player_index + 1) (p.pawn_index + 1)

abbrev pub points_of : Position → ℕ
points_of home = 100
points_of base = 0
points_of (cell n) = n

unfoldable pub calculate_points : Pawn → ℕ
calculate_points p = points_of p.position

unfoldable pub to_pawn_position : Pawn → PawnPosition
unfolding get_pawn_id calculate_points
to_pawn_position p = record {
  pawn = get_pawn_id p;
  position = p.position;
  points = calculate_points p;
}

-- `Object.values(Position).indexOf(position)`, for the members of the enum
abbrev pub position_index : Position → ℕ
position_index base = 0
position_index (cell n) = n
position_index home = 100

-- `#getPositionByIndex`: the enum has 101 values
unfoldable pub get_position_by_index : ℕ → Position
get_position_by_index i =
    if ltb i 101 then (if i == 0 then base else if i == 100 then home else cell i) else base

-- The loop over the snakes, or over the ladders: the last pair that starts at `index` decides.
unfoldable pub follow : ℕ → List (ℕ × ℕ) → ℕ → Bool → ℕ × Bool
follow index [] next_pos hit = (next_pos, hit)
follow index ((start, end) ∷ rest) next_pos hit =
    follow index rest (if start == index then end else next_pos)
      (if start == index then true else hit)

pub record Redirect : Type 0 where
  pub next_pos : ℕ
  pub is_snake : Bool
  pub is_ladder : Bool

-- `getNewPositionIfLadderOrSnake`: ladders first, then snakes, both compared with `index`
unfoldable pub get_new_position_if_ladder_or_snake : ℕ → Board → Redirect
unfolding follow
get_new_position_if_ladder_or_snake index board =
    let (climbed, is_ladder) = follow index board.ladders index false in
    let (next_pos, is_snake) = follow index board.snakes climbed false in
    record { next_pos = next_pos; is_snake = is_snake; is_ladder = is_ladder }

pub record NextPosition : Type 0 where
  pub next_position : Position
  pub next_index : ℕ
  pub is_snake : Bool
  pub is_ladder : Bool

abbrev pub capped_index : ℕ → Position → ℕ
capped_index dice p = if ltb 100 (position_index p + dice) then 100 else position_index p + dice

abbrev next_from : ℕ → Board → Position → Result NextPosition
next_from dice board home = err bad_request
next_from dice board p =
    let next_index = capped_index dice p in
    let r = get_new_position_if_ladder_or_snake next_index board in
    ok (record {
      next_position = get_position_by_index r.next_pos;
      next_index = next_index;
      is_snake = r.is_snake;
      is_ladder = r.is_ladder;
    })

unfoldable pub get_next_position : Pawn → ℕ → Board → Result NextPosition
get_next_position p dice board = next_from dice board p.position

unfoldable pub move_to : Pawn → Position → Pawn
move_to p q = record p { position = q }
