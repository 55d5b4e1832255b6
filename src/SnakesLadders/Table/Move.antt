-- ===== src/SnakesLadders/Table/Move.antt =====
-- table.entity.ts: `movePawn`, the pawns that it kills, and when the game ends.
pub mod Kill
pub mod Facts
pub mod Total
pub mod Effect
pub mod EndGame
use empire_backend.Base.{
  ℕ, ◌+◌, ◌-◌, ◌≤◌, Bool, true, false, not, ◌&&◌, ◌||◌, Option, none, some, List, [], ◌∷◌, map, ltb,
  leb, ◌==◌, if◌then◌else◌, length, get_elem?, set, find_index, find?, filter, any,
}
use empire_backend.Base.Results.{
  Result, ok, err, bad_request, type_error, ◌>>=◌, ◌>>◌, throw_if, or_throw,
}
use empire_backend.SnakesLadders.Types.{
  Position, base, cell, home, position_eq, is_home, PawnId, pw, is_move_pawn, Board,
}
use empire_backend.SnakesLadders.Pawn.{
  Pawn, get_pawn_id, calculate_points, points_of, NextPosition, get_next_position, move_to,
}
use empire_backend.SnakesLadders.Table.{User, Table}
use empire_backend.SnakesLadders.Table.Turn.{
  current_index, get_action_timeout, score_of, get_all_users_score,
}

-- `pawn.pawnIndex === pawnIndex && pawn.playerIndex === playerIndex`, with the numbers of the id
abbrev pub is_pawn : PawnId → Pawn → Bool
is_pawn (pw i j) p = (p.pawn_index + 1 == j) && (p.player_index + 1 == i)

abbrev can_move : ℕ → Option Pawn → Bool
can_move dice none = false
can_move dice (some p) = not (is_home p.position) && leb (dice + calculate_points p) 100

-- `#canPawnMove`
unfoldable pub can_pawn_move : Table → PawnId → Bool
unfolding calculate_points
can_pawn_move t pawn_id = can_move t.dice (find? (is_pawn pawn_id) t.pawns)

-- The test in the filter of `#getOtherPawnsOnPosition`.
unfoldable pub occupies : List User → Position → Pawn → Result Bool
occupies users position p =
    if position_eq p.position position
    then elim (get_elem? users p.player_index) [
      | none ↦ err type_error
      | some u ↦ ok (not u.did_leave)
    ]
    else ok false

unfoldable pub occupants : List User → Position → List Pawn → Result (List Pawn)
unfolding occupies
occupants users position [] = ok []
occupants users position (p ∷ pawns) = do
  here ← occupies users position p
  rest ← occupants users position pawns
  ok (if here then p ∷ rest else rest)

-- A pawn that stands alone and is not of the current player.
abbrev pub lone_other : Option ℕ → List Pawn → List Pawn
lone_other current (p ∷ []) = elim current [
  | none ↦ p ∷ []
  | some i ↦ if p.player_index == i then [] else p ∷ []
]
lone_other current _ = []

unfoldable pub get_other_pawns_on_position : Position → Table → Result (List Pawn)
unfolding occupants
get_other_pawns_on_position position t =
    if is_home position
    then ok []
    else occupants t.users position t.pawns >>= λ l. ok (lone_other (current_index t) l)

abbrev pub stands_on : List User → Position → Pawn → Bool
stands_on users position p =
    position_eq p.position position
    && elim (get_elem? users p.player_index) [ none ↦ false | some u ↦ not u.did_leave ]

-- `pawnToKill.moveTo(Position.base)` for each pawn of the filtered list: the objects are those of
-- `this.pawns` that pass the filter's test.
unfoldable pub kill_pawns : List Pawn → List User → Position → List Pawn → List Pawn
unfolding move_to
kill_pawns [] users position pawns = pawns
kill_pawns (k ∷ ks) users position pawns =
    map (λ p. if stands_on users position p then move_to p base else p) pawns

pub data MovePath : Type 0 where
  by_ladder : ℕ → ℕ → ℕ → MovePath
  by_snake : ℕ → ℕ → ℕ → MovePath
  straight : ℕ → ℕ → MovePath

-- The text 'from,L13,to', 'from,S25,to' or 'from,to'; `pos2number` is `points_of`.
unfoldable pub move_path : Position → NextPosition → MovePath
move_path from n =
    if n.is_ladder
    then by_ladder (points_of from) n.next_index (points_of n.next_position)
    else if n.is_snake
    then by_snake (points_of from) n.next_index (points_of n.next_position)
    else straight (points_of from) (points_of n.next_position)

pub record MovePawnResponse : Type 0 where
  pub table_id : ℕ
  pub player_id : ℕ
  pub pawn_id : PawnId
  pub position : MovePath
  pub dice : ℕ
  pub score : ℕ

pub record KillPawnResponse : Type 0 where
  pub player_id : ℕ
  pub turn_timeout : ℕ
  pub kill_pawn_id? : Option PawnId
  pub scores : List ℕ

pub record MoveResult : Type 0 where
  pub require_longer_delay : Bool
  pub response : MovePawnResponse
  pub is_home_flag : Bool
  pub kill_pawn_flag : Bool
  pub kill_response : KillPawnResponse

abbrev pub player_of : PawnId → ℕ
player_of (pw i j) = i

-- `playerIndex === this.users.findIndex(…)`; both may be -1.
abbrev pub is_turn_of : Option ℕ → PawnId → Bool
is_turn_of none (pw i j) = i == 0
is_turn_of (some current) (pw i j) = i == current + 1

abbrev first_id : List Pawn → Option PawnId
first_id [] = none
first_id (p ∷ ps) = some (get_pawn_id p)

abbrev is_nonempty : List Pawn → Bool
is_nonempty [] = false
is_nonempty (p ∷ ps) = true

-- The writes of `movePawn` to the table.
unfoldable pub after_move : ℕ → ℕ → Pawn → NextPosition → List Pawn → Table → Table
unfolding kill_pawns move_to get_action_timeout
after_move now target pawn n killed t = record t {
  pawns =
      set (kill_pawns killed t.users n.next_position t.pawns) target (move_to pawn n.next_position);
  counter = t.counter + 1;
  timeout = get_action_timeout now t;
}

unfoldable pub move_result : ℕ → PawnId → ℕ → Pawn → NextPosition → List Pawn → Table → MoveResult
unfolding move_path get_pawn_id
move_result table_id pawn_id dice pawn n killed t' = record {
  require_longer_delay = n.is_ladder || n.is_snake;
  response = record {
    table_id = table_id;
    player_id = player_of pawn_id;
    pawn_id = pawn_id;
    position = move_path pawn.position n;
    dice = dice;
    score = score_of t' (player_of pawn_id - 1);
  };
  is_home_flag = is_home n.next_position;
  kill_pawn_flag = is_nonempty killed;
  kill_response = record {
    player_id = player_of pawn_id;
    turn_timeout = t'.timeout;
    kill_pawn_id? = first_id killed;
    scores = get_all_users_score t';
  };
}

-- `movePawn` from the call of `getNextPosition` on.
unfoldable pub land_pawn :
    ℕ → ℕ → PawnId → ℕ → Board → Table → ℕ → Pawn → Result (MoveResult × Table)
land_pawn now table_id pawn_id dice board t target pawn = do
  n ← get_next_position pawn dice board
  killed ← get_other_pawns_on_position n.next_position t
  let t' = after_move now target pawn n killed t
  ok (move_result table_id pawn_id dice pawn n killed t', t')

-- `this.pawns[targetPawnIndex]`
unfoldable pub move_target : ℕ → ℕ → PawnId → ℕ → Board → Table → ℕ → Result (MoveResult × Table)
move_target now table_id pawn_id dice board t target =
    or_throw (get_elem? t.pawns target) type_error
    >>= land_pawn now table_id pawn_id dice board t target

unfoldable pub move_pawn : ℕ → ℕ → PawnId → ℕ → Board → Table → Result (MoveResult × Table)
move_pawn now table_id pawn_id dice board t =
    throw_if (not (can_pawn_move t pawn_id)) bad_request
    >> (throw_if (not (is_move_pawn t.action)) bad_request
        >> (throw_if (not (t.dice == dice)) bad_request
            >> (throw_if (not (is_turn_of (current_index t) pawn_id)) bad_request
                >> (or_throw (find_index (is_pawn pawn_id) t.pawns) type_error
                    >>= move_target now table_id pawn_id dice board t))))

-- `playerIndexCount.set(k, (playerIndexCount.get(k) || 0) + 1)`
unfoldable pub bump : ℕ → List (ℕ × ℕ) → List (ℕ × ℕ)
bump k [] = (k, 1) ∷ []
bump k ((j, n) ∷ m) = if j == k then (j, n + 1) ∷ m else (j, n) ∷ bump k m

unfoldable pub count_home_pawns : List Pawn → List (ℕ × ℕ) → List (ℕ × ℕ)
unfolding bump
count_home_pawns [] m = m
count_home_pawns (p ∷ pawns) m =
    count_home_pawns pawns (if is_home p.position then bump p.player_index m else m)

unfoldable pub should_end_game : Table → Bool
unfolding count_home_pawns
should_end_game t = any (λ (e : ℕ × ℕ). e.1 == 2) (count_home_pawns t.pawns [])
