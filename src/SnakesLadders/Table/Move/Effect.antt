-- ===== src/SnakesLadders/Table/Move/Effect.antt =====
-- What a successful `movePawn` writes, pawn by pawn.
use mathlib.Core.Option.{some-injective}
use empire_backend.Base.{
  ℕ, zero, suc, ◌+◌, ◌≡◌, refl, ◌≢◌, ◌⊎◌, inl, inr, Bool, true, false, ◌&&◌, some, List, [], ◌∷◌,
  length, length-set, get_elem?, filter, get_elem?-set_self, get_elem?-set_ne, get_elem?-lt,
  Bool-cases, ap, sym, ◌∙◌, get_elem?-map, length-map, get_elem?-filter,
}
use empire_backend.Base.Results.{ok}
use empire_backend.SnakesLadders.Types.{Position, base, home, position_eq_iff, PawnId, Board}
use empire_backend.SnakesLadders.Pawn.{Pawn, NextPosition, get_next_position, move_to}
use empire_backend.SnakesLadders.Table.{User, Table}
use empire_backend.SnakesLadders.Table.Turn.{current_index}
use empire_backend.SnakesLadders.Table.Move.{
  stands_on, kill_pawns, MoveResult, after_move, move_pawn,
}
use empire_backend.SnakesLadders.Table.Move.Kill.{AreSeated, victims, victims-cases}
use empire_backend.SnakesLadders.Table.Move.Facts.{move_pawn-MoveFacts}

-- What becomes of a pawn `p` at `j` that did not move: it stays, or it is sent to the base from the
-- square `position`, where it stood alone and is not of the player `mover`.
abbrev pub Fate : Position → ℕ → Table → Table → ℕ → Pawn → Type 0
Fate position mover t t' j p =
    (get_elem? t'.pawns j ≡ some p)
    ⊎ ((get_elem? t'.pawns j ≡ some (move_to p base))
        × (p.position ≡ position)
        × (position ≢ home)
        × (p.player_index ≢ mover)
        × (filter (stands_on t.users position) t.pawns ≡ p ∷ []))

length-kill_pawns :
    (killed : List Pawn) (users : List User) (position : Position) (pawns : List Pawn)
    → length (kill_pawns killed users position pawns) ≡ length pawns
unfolding kill_pawns
length-kill_pawns [] users position pawns = refl
length-kill_pawns (k ∷ ks) users position pawns = length-map _ pawns

stands_on-position :
    (users : List User) (position : Position) (p : Pawn)
    → stands_on users position p ≡ true
    → p.position ≡ position
stands_on-position users position p h = (position_eq_iff p.position position).0 (left _ _ h)
  where
    left : (a b : Bool) → (a && b) ≡ true → a ≡ true
    left true b e = refl
    left false b e = cc

single : (k : Pawn) (i : ℕ) {p : Pawn} → get_elem? (k ∷ []) i ≡ some p → k ≡ p
single k zero {p} e = some-injective k p e
single k (suc i) e = cc

kill_pawns-Fate :
    (position : Position) (mover : ℕ) (t : Table) (j : ℕ) (p : Pawn)
    → current_index t ≡ some mover
    → get_elem? t.pawns j ≡ some p
    → Fate position mover t
        (record t { pawns = kill_pawns (victims position t) t.users position t.pawns })
        j
        p
unfolding kill_pawns
kill_pawns-Fate position mover t j p turn here = elim (victims-cases position t) [
  | inl safe ↦ rw safe (inl here)
  | inr (k, dies, alone, other, away) ↦ rw dies (elim (Bool-cases (stands_on t.users position p)) [
    | inl stands ↦
        let (i, only) = get_elem?-filter (stands_on t.users position) t.pawns j here stands in
        let same : k ≡ p = single k i (rw alone at only) in
        inr (
          get_elem?-map _ t.pawns j here ∙ rw stands,
          stands_on-position t.users position p stands,
          away,
          (λ own. other (turn ∙ ap some (sym own ∙ ap (λ (x : Pawn). x.player_index) (sym same)))),
          alone ∙ ap (λ (x : Pawn). x ∷ []) same,
        )
    | inr elsewhere ↦ inl (get_elem?-map _ t.pawns j here ∙ rw elsewhere)
  ])
]

-- The pawn that moves lands on the square that `getNextPosition` gives. Every other pawn stays
-- where it is, but for one: a pawn of another player that stood there alone, and not in the home,
-- is sent to the base. So two pawns on a square are never killed, nor is one of the mover's.
pub record MoveEffect (pawn_id : PawnId) (dice : ℕ) (board : Board) (t t' : Table) : Type 0 where
  pub target : ℕ
  pub pawn : Pawn
  pub landing : NextPosition
  pub before : get_elem? t.pawns target ≡ some pawn
  pub lands : get_next_position pawn dice board ≡ ok landing
  pub moved : get_elem? t'.pawns target ≡ some (move_to pawn landing.next_position)
  pub others :
      (j : ℕ) (p : Pawn)
      → target ≢ j
      → get_elem? t.pawns j ≡ some p
      → Fate landing.next_position pawn.player_index t t' j p
  pub size : length t'.pawns ≡ length t.pawns
  pub seats : t'.users ≡ t.users
  pub same_turn : t'.current_turn ≡ t.current_turn
  pub counted : t'.counter ≡ t.counter + 1

module _ (now target : ℕ) (pawn : Pawn) (n : NextPosition) (t : Table) where
  abbrev after : Table
  after = after_move now target pawn n (victims n.next_position t) t

  pub get_elem?-after_move_self :
      get_elem? t.pawns target ≡ some pawn
      → get_elem? after.pawns target ≡ some (move_to pawn n.next_position)
  unfolding after_move
  get_elem?-after_move_self here = get_elem?-set_self _ target _ (
      rw (length-kill_pawns (victims n.next_position t) t.users n.next_position t.pawns)
        (get_elem?-lt t.pawns target here))

  get_elem?-after_move_ne :
      (j : ℕ) (p : Pawn)
      → target ≢ j
      → current_index t ≡ some pawn.player_index
      → get_elem? t.pawns j ≡ some p
      → Fate n.next_position pawn.player_index t after j p
  unfolding after_move
  get_elem?-after_move_ne j p ne turn here =
      rw
        (get_elem?-set_ne (kill_pawns (victims n.next_position t) t.users n.next_position t.pawns)
          target j (move_to pawn n.next_position) ne)
        (kill_pawns-Fate n.next_position pawn.player_index t j p turn here)

  length-after_move : length after.pawns ≡ length t.pawns
  unfolding after_move
  length-after_move =
      length-set (kill_pawns (victims n.next_position t) t.users n.next_position t.pawns) target _
      ∙ length-kill_pawns (victims n.next_position t) t.users n.next_position t.pawns

  after_move-keeps :
      (after.users ≡ t.users)
      × (after.current_turn ≡ t.current_turn)
      × (after.counter ≡ t.counter + 1)
  unfolding after_move
  after_move-keeps = (refl, refl, refl)

-- A successful `movePawn`, at a table whose pawns all have a seat, moves the pawn to the square
-- that `getNextPosition` gives. Every other pawn stays where it is, but for one: a pawn of another
-- player that stood there alone, and not in the home, is sent to the base. So two pawns on a square
-- are never killed, nor is one of the mover's. The players and the turn stay, and the counter goes
-- one up.
pub move_pawn-MoveEffect :
    (now table_id : ℕ) (pawn_id : PawnId) (dice : ℕ) (board : Board) (t : Table) (r : MoveResult)
    (t' : Table)
    → AreSeated t.users t.pawns
    → move_pawn now table_id pawn_id dice board t ≡ ok (r, t')
    → MoveEffect pawn_id dice board t t'
move_pawn-MoveEffect now table_id pawn_id dice board t r t' seated h =
    let f = move_pawn-MoveFacts now table_id pawn_id dice board t r t' seated h in
    let (seats, same_turn, counted) = after_move-keeps now f.target f.pawn f.landing t in
    rw f.after (record {
      target = f.target;
      pawn = f.pawn;
      landing = f.landing;
      before = f.here;
      lands = f.lands;
      moved = get_elem?-after_move_self now f.target f.pawn f.landing t f.here;
      others =
          λ j p ne here. get_elem?-after_move_ne now f.target f.pawn f.landing t j p ne f.turn here;
      size = length-after_move now f.target f.pawn f.landing t;
      seats = seats;
      same_turn = same_turn;
      counted = counted;
    })
