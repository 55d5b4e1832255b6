-- ===== src/SnakesLadders/Table/Invariant/Moves.antt =====
-- `movePawn` keeps the invariant of the table.
use empire_backend.Base.{
  ℕ, ◌≡◌, refl, Bool, true, false, some, List, [], ◌∷◌, map, if◌then◌else◌, get_elem?, set,
  Distinct, All, All-set, All-get_elem?, sym, ◌∙◌, subst, map-set_same, get_elem?-map,
}
use mathlib.Core.Path.{ap₂}
use empire_backend.Base.Results.{ok}
use empire_backend.SnakesLadders.Types.{Position, base, IsPosition, PawnId, Board}
use empire_backend.SnakesLadders.Pawn.{Pawn, get_pawn_id, NextPosition, move_to}
use empire_backend.SnakesLadders.Pawn.Laws.{IsBoard, get_next_position-Lands}
use empire_backend.SnakesLadders.Table.{User, Table}
use empire_backend.SnakesLadders.Table.Move.{
  stands_on, kill_pawns, MoveResult, after_move, move_pawn,
}
use empire_backend.SnakesLadders.Table.Move.Kill.{victims}
use empire_backend.SnakesLadders.Table.Move.Facts.{move_pawn-MoveFacts}
use empire_backend.SnakesLadders.Table.Invariant.{IsTable}

module _ (P : Pawn → Type 0) (keep : (p : Pawn) → P p → P (move_to p base)) where
  All-map_base :
      (users : List User) (position : Position) (pawns : List Pawn)
      → All P pawns
      → All P (map (λ p. if stands_on users position p then move_to p base else p) pawns)
  All-map_base users position [] h = tt
  All-map_base users position (p ∷ pawns) h =
      (here (stands_on users position p), All-map_base users position pawns h.1)
    where
      here : (b : Bool) → P (if b then move_to p base else p)
      here true = keep p h.0
      here false = h.0

  All-kill_pawns :
      (killed : List Pawn) (users : List User) (position : Position) (pawns : List Pawn)
      → All P pawns
      → All P (kill_pawns killed users position pawns)
  unfolding kill_pawns
  All-kill_pawns [] users position pawns h = h
  All-kill_pawns (k ∷ ks) users position pawns h = All-map_base users position pawns h

get_pawn_id-move_to : (p : Pawn) (q : Position) → get_pawn_id (move_to p q) ≡ get_pawn_id p
unfolding get_pawn_id move_to
get_pawn_id-move_to p q = refl

ids-map_base :
    (users : List User) (position : Position) (pawns : List Pawn)
    → map get_pawn_id (map (λ p. if stands_on users position p then move_to p base else p) pawns)
      ≡ map get_pawn_id pawns
ids-map_base users position [] = refl
ids-map_base users position (p ∷ pawns) =
    ap₂ (λ x l. x ∷ l) (here (stands_on users position p)) (ids-map_base users position pawns)
  where
    here : (b : Bool) → get_pawn_id (if b then move_to p base else p) ≡ get_pawn_id p
    here true = get_pawn_id-move_to p base
    here false = refl

ids-kill_pawns :
    (killed : List Pawn) (users : List User) (position : Position) (pawns : List Pawn)
    → map get_pawn_id (kill_pawns killed users position pawns) ≡ map get_pawn_id pawns
unfolding kill_pawns
ids-kill_pawns [] users position pawns = refl
ids-kill_pawns (k ∷ ks) users position pawns = ids-map_base users position pawns

module _ (now target : ℕ) (pawn : Pawn) (n : NextPosition) (t : Table) where
  abbrev landed : List Pawn
  landed = kill_pawns (victims n.next_position t) t.users n.next_position t.pawns

  ids-landed :
      get_elem? t.pawns target ≡ some pawn
      → map get_pawn_id (set landed target (move_to pawn n.next_position)) ≡ map get_pawn_id t.pawns
  ids-landed here =
      let same = ids-kill_pawns (victims n.next_position t) t.users n.next_position t.pawns in
      map-set_same get_pawn_id landed target (move_to pawn n.next_position) {b = get_pawn_id pawn}
        (subst (λ l. get_elem? l target ≡ some (get_pawn_id pawn)) (sym same)
          (get_elem?-map get_pawn_id t.pawns target here))
        (get_pawn_id-move_to pawn n.next_position)
      ∙ same

  after_move-IsTable :
      IsTable t
      → get_elem? t.pawns target ≡ some pawn
      → IsPosition n.next_position
      → IsTable (after_move now target pawn n (victims n.next_position t) t)
  unfolding after_move move_to
  after_move-IsTable h here lands = record {
    layout = record {
      seated =
          All-set _ landed target _ (All-kill_pawns _ (λ p q. q) _ _ _ t.pawns h.seated)
            (All-get_elem? _ t.pawns target h.seated here);
      placed =
          All-set _ landed target _ (All-kill_pawns _ (λ p q. tt) _ _ _ t.pawns h.placed) lands;
      ids = subst Distinct (sym (ids-landed here)) h.ids;
      user_ids = h.user_ids;
    };
    turn = record {
      index = h.turn.index;
      user = h.turn.user;
      found = h.turn.found;
      seat = h.turn.seat;
      stays = h.turn.stays;
    };
  }

-- A successful move keeps the invariant, on a board whose snakes and ladders end at most at 100.
pub move_pawn-IsTable :
    (now table_id : ℕ) (pawn_id : PawnId) (dice : ℕ) (board : Board) (t : Table) (r : MoveResult)
    (t' : Table)
    → IsBoard board
    → IsTable t
    → move_pawn now table_id pawn_id dice board t ≡ ok (r, t')
    → IsTable t'
move_pawn-IsTable now table_id pawn_id dice board t r t' b h e =
    let f = move_pawn-MoveFacts now table_id pawn_id dice board t r t' h.seated e in
    rw f.after (
      after_move-IsTable now f.target f.pawn f.landing t h f.here
        (get_next_position-Lands f.pawn dice board f.landing b f.lands).position)
