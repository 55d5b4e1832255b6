-- ===== src/SnakesLadders/Table/Move/Total.antt =====
-- When `movePawn` succeeds.
use empire_backend.Base.{
  both, ℕ, ◌+◌, ◌≤◌, ◌≡◌, inl, inr, true, false, not, some, arith, leb→le, find?, find?-find_index,
  Option-cases, ==_self, subst, ◌↔◌,
}
use empire_backend.Base.Results.{ok}
use empire_backend.SnakesLadders.Types.{is_home, PawnId, pw, GameAction, Board}
use empire_backend.SnakesLadders.Pawn.{Pawn, calculate_points}
use empire_backend.SnakesLadders.Pawn.Laws.{landing, get_next_position-ok}
use empire_backend.SnakesLadders.Table.{Table}
use empire_backend.SnakesLadders.Table.Turn.{current_index}
use empire_backend.SnakesLadders.Table.Move.{
  is_pawn, can_pawn_move, MoveResult, player_of, is_turn_of, after_move, move_result, land_pawn,
  move_target, move_pawn,
}
use empire_backend.SnakesLadders.Table.Move.Kill.{
  AreSeated, victims, get_other_pawns_on_position-eq,
}
use empire_backend.SnakesLadders.Table.Move.Facts.{move_pawn-MoveFacts}

-- What `#canPawnMove` says of the pawn that it finds.
pub can_pawn_move-find? :
    (t : Table) (pawn_id : PawnId)
    → can_pawn_move t pawn_id ≡ true
    → (p : Pawn) × (find? (is_pawn pawn_id) t.pawns ≡ some p)
      × (is_home p.position ≡ false)
      × (t.dice + calculate_points p ≤ 100)
unfolding can_pawn_move
can_pawn_move-find? t pawn_id h = elim (Option-cases (find? (is_pawn pawn_id) t.pawns)) [
  | inl missing ↦ cc (rw (missing, can_pawn_move) at h)
  | inr (p, found) ↦
      let passes = both (not (is_home p.position)) _ (rw (found, can_pawn_move) at h) in
      (p, found, ground arith, leb→le _ _ passes.1)
]

is_turn_of_seat :
    (c : ℕ) (pawn_id : PawnId) → player_of pawn_id ≡ c + 1 → is_turn_of (some c) pawn_id ≡ true
is_turn_of_seat c (pw i j) h = ground arith

-- `movePawn` succeeds when it is asked for in the state `movePawn`, with the dice of the table, for
-- a pawn of the player whose turn it is that is not home and that the dice takes at most to 100.
pub move_pawn-ok :
    (now table_id : ℕ) (pawn_id : PawnId) (board : Board) (t : Table) (c : ℕ)
    → AreSeated t.users t.pawns
    → t.action ≡ GameAction.move_pawn
    → current_index t ≡ some c
    → player_of pawn_id ≡ c + 1
    → can_pawn_move t pawn_id ≡ true
    → (r : MoveResult) × ((t' : Table) × (move_pawn now table_id pawn_id t.dice board t
          ≡ ok (r, t')))
unfolding move_pawn move_target land_pawn
move_pawn-ok now table_id pawn_id board t c seated action turn own movable =
    let (p, found?, away, _) = can_pawn_move-find? t pawn_id movable in
    let (target, found, here, _) = find?-find_index (is_pawn pawn_id) t.pawns found? in
    let n = landing t.dice board p.position in
    let t' = after_move now target p n (victims n.next_position t) t in
    (
      move_result table_id pawn_id t.dice p n (victims n.next_position t) t',
      (
        t',
        simp (
          movable,
          action,
          ==_self,
          turn,
          is_turn_of_seat c pawn_id own,
          found,
          here,
          get_next_position-ok p t.dice board away,
          get_other_pawns_on_position-eq n.next_position t seated,
        ),
      ),
    )

-- At a table whose pawns all have a seat, `movePawn` succeeds exactly when the player in turn is at
-- the table and owns the pawn, a move is due, the dice is the one that was rolled, and
-- `#canPawnMove` accepts the pawn.
pub move_pawn-ok_iff :
    (now table_id : ℕ) (pawn_id : PawnId) (dice : ℕ) (board : Board) (t : Table)
    → AreSeated t.users t.pawns
    → ((r : MoveResult) × (t' : Table) × (move_pawn now table_id pawn_id dice board t ≡ ok (r, t')))
      ↔ ((c : ℕ) × (current_index t ≡ some c)
          × (player_of pawn_id ≡ c + 1)
          × (t.action ≡ GameAction.move_pawn)
          × (t.dice ≡ dice)
          × (can_pawn_move t pawn_id ≡ true))
move_pawn-ok_iff now table_id pawn_id dice board t seated = (to, from)
  where
    owner : (id : PawnId) (p : Pawn) → is_pawn id p ≡ true → player_of id ≡ p.player_index + 1
    owner (pw i j) p e = ground arith

    to :
        (r : MoveResult) × (t' : Table) × (move_pawn now table_id pawn_id dice board t ≡ ok (r, t'))
        → (c : ℕ) × (current_index t ≡ some c)
          × (player_of pawn_id ≡ c + 1)
          × (t.action ≡ GameAction.move_pawn)
          × (t.dice ≡ dice)
          × (can_pawn_move t pawn_id ≡ true)
    to (r, t', e) =
        let f = move_pawn-MoveFacts now table_id pawn_id dice board t r t' seated e in
        (f.pawn.player_index, f.turn, owner pawn_id f.pawn f.named, f.action, f.rolled, f.movable)

    from :
        (c : ℕ) × (current_index t ≡ some c)
          × (player_of pawn_id ≡ c + 1)
          × (t.action ≡ GameAction.move_pawn)
          × (t.dice ≡ dice)
          × (can_pawn_move t pawn_id ≡ true)
        → (r : MoveResult) × (t' : Table) × (move_pawn now table_id pawn_id dice board t
            ≡ ok (r, t'))
    from (c, turn, own, action, rolled, movable) =
        let (r, (t', e)) =
          move_pawn-ok now table_id pawn_id board t c seated action turn own movable in
        (r, t', subst (λ d. move_pawn now table_id pawn_id d board t ≡ ok (r, t')) rolled e)
