-- ===== src/SnakesLadders/Table/Move/Facts.antt =====
-- What a successful `movePawn` has checked, and when it succeeds.
use empire_backend.Base.{
  ℕ, ◌≡◌, refl, Bool, true, false, not, Option, none, some, arith, ◌==◌, get_elem?, find_index,
  find_index-get_elem?, ==_iff, sym, ◌∙◌, subst,
}
use mathlib.Core.Option.{some-injective}
use empire_backend.Base.Results.{
  ok, bad_request, type_error, or_throw, ◌>>=◌, >>=-eq-ok, throw_if-eq-ok, or_throw-eq-ok,
}
use empire_backend.SnakesLadders.Types.{PawnId, pw, GameAction, is_move_pawn, Board}
use empire_backend.SnakesLadders.Pawn.{Pawn, NextPosition, get_next_position}
use empire_backend.SnakesLadders.Table.{Table}
use empire_backend.SnakesLadders.Table.Turn.{current_index}
use empire_backend.SnakesLadders.Table.Move.{
  is_pawn, can_pawn_move, MoveResult, is_turn_of, after_move, move_result, land_pawn, move_target,
  move_pawn,
}
use empire_backend.SnakesLadders.Table.Move.Kill.{
  AreSeated, victims, get_other_pawns_on_position-eq,
}

pub record MoveFacts (now table_id : ℕ) (pawn_id : PawnId) (dice : ℕ) (board : Board) (t : Table)
    (r : MoveResult) (t' : Table) : Type 0 where
  pub movable : can_pawn_move t pawn_id ≡ true
  pub action : t.action ≡ GameAction.move_pawn
  pub rolled : t.dice ≡ dice
  pub target : ℕ
  pub pawn : Pawn
  pub found : find_index (is_pawn pawn_id) t.pawns ≡ some target
  pub here : get_elem? t.pawns target ≡ some pawn
  pub named : is_pawn pawn_id pawn ≡ true
  pub turn : current_index t ≡ some pawn.player_index
  pub landing : NextPosition
  pub lands : get_next_position pawn dice board ≡ ok landing
  pub result :
      r ≡ move_result table_id pawn_id dice pawn landing (victims landing.next_position t) t'
  pub after : t' ≡ after_move now target pawn landing (victims landing.next_position t) t

not-false : (b : Bool) → not b ≡ false → b ≡ true
not-false true h = refl
not-false false h = cc

is_move_pawn-eq : (a : GameAction) → is_move_pawn a ≡ true → a ≡ GameAction.move_pawn
is_move_pawn-eq a h = ground arith

same_player :
    (current : Option ℕ) (pawn_id : PawnId) (p : Pawn)
    → is_turn_of current pawn_id ≡ true
    → is_pawn pawn_id p ≡ true
    → current ≡ some p.player_index
same_player none (pw i j) p h k = ground arith
same_player (some c) (pw i j) p h k = ground arith

-- What the four tests at the top let through.
guards :
    (now table_id : ℕ) (pawn_id : PawnId) (dice : ℕ) (board : Board) (t : Table)
    {x : MoveResult × Table}
    → move_pawn now table_id pawn_id dice board t ≡ ok x
    → (can_pawn_move t pawn_id ≡ true)
      × (is_move_pawn t.action ≡ true)
      × (t.dice ≡ dice)
      × (is_turn_of (current_index t) pawn_id ≡ true)
      × ((or_throw (find_index (is_pawn pawn_id) t.pawns) type_error
            >>= move_target now table_id pawn_id dice board t)
          ≡ ok x)
unfolding move_pawn
guards now table_id pawn_id dice board t {x} h =
    let (g1, h1) = throw_if-eq-ok (not (can_pawn_move t pawn_id)) bad_request _ h in
    let (g2, h2) = throw_if-eq-ok (not (is_move_pawn t.action)) bad_request _ h1 in
    let (g3, h3) = throw_if-eq-ok (not (t.dice == dice)) bad_request _ h2 in
    let (g4, h4) = throw_if-eq-ok (not (is_turn_of (current_index t) pawn_id)) bad_request _ h3 in
    (not-false _ g1, not-false _ g2, (==_iff _ _).0 (not-false _ g3), not-false _ g4, h4)

-- What the writes rest on.
landed :
    (now table_id : ℕ) (pawn_id : PawnId) (dice : ℕ) (board : Board) (t : Table) (target : ℕ)
    (pawn : Pawn) (r : MoveResult) (t' : Table)
    → AreSeated t.users t.pawns
    → land_pawn now table_id pawn_id dice board t target pawn ≡ ok (r, t')
    → (n : NextPosition) × (get_next_position pawn dice board ≡ ok n)
      × (t' ≡ after_move now target pawn n (victims n.next_position t) t)
      × (r ≡ move_result table_id pawn_id dice pawn n (victims n.next_position t) t')
unfolding land_pawn
landed now table_id pawn_id dice board t target pawn r t' seated h =
    let (n, lands, h1) = >>=-eq-ok (get_next_position pawn dice board) _ h in
    let kills = get_other_pawns_on_position-eq n.next_position t seated in
    let same = rw kills at h1 in (n, lands, cc same, cc same)

pub move_pawn-MoveFacts :
    (now table_id : ℕ) (pawn_id : PawnId) (dice : ℕ) (board : Board) (t : Table) (r : MoveResult)
    (t' : Table)
    → AreSeated t.users t.pawns
    → move_pawn now table_id pawn_id dice board t ≡ ok (r, t')
    → MoveFacts now table_id pawn_id dice board t r t'
unfolding move_target
move_pawn-MoveFacts now table_id pawn_id dice board t r t' seated h =
    let (movable, action, rolled, turn, h1) = guards now table_id pawn_id dice board t h in
    let (target, found, h2) =
      or_throw-eq-ok (find_index (is_pawn pawn_id) t.pawns) type_error _ h1 in
    let (pawn, here, h3) = or_throw-eq-ok (get_elem? t.pawns target) type_error _ h2 in
    let (n, lands, after, result) =
      landed now table_id pawn_id dice board t target pawn r t' seated h3 in
    let (pawn', here', named') = find_index-get_elem? (is_pawn pawn_id) t.pawns target found in
    let named =
      subst (λ p. is_pawn pawn_id p ≡ true) (some-injective pawn' pawn (sym here' ∙ here)) named' in
    record {
      movable = movable;
      action = is_move_pawn-eq t.action action;
      rolled = rolled;
      target = target;
      pawn = pawn;
      found = found;
      here = here;
      named = named;
      turn = same_player (current_index t) pawn_id pawn turn named;
      landing = n;
      lands = lands;
      result = result;
      after = after;
    }
