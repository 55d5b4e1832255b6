-- ===== src/SnakesLadders/Table/Turn/CanMove.antt =====
-- Which pawns the dice can move: the list that is sent to the players agrees with the test that
-- `movePawn` makes, and a turn is passed on exactly when it is empty and a pawn is still on its way.
use mathlib.Core.Option.{some-injective}
use empire_backend.Base.{
  ℕ, zero, suc, ◌+◌, ◌≡◌, refl, ◌≢◌, ◌↔◌, inl, inr, Bool, true, not, ◌&&◌, some, List, [], ◌∷◌, map,
  arith, leb, length, get_elem?, find?, find?-find_index, filter, count, filter-get_elem?,
  get_elem?-filter, Distinct, All-get_elem?, get_elem?-map, map-get_elem?, Bool-cases, ==_iff, ap,
  sym, ◌∙◌, subst,
}
use empire_backend.SnakesLadders.Types.{is_home, PawnId, pw, GameAction, CanMovePawn}
use empire_backend.SnakesLadders.Pawn.{Pawn, get_pawn_id, calculate_points}
use empire_backend.SnakesLadders.Table.{Table}
use empire_backend.SnakesLadders.Table.Move.{is_pawn, can_pawn_move, player_of}
use empire_backend.SnakesLadders.Table.Move.Total.{can_pawn_move-find?}
use empire_backend.SnakesLadders.Table.Turn.{
  current_index, is_of, is_blocked, can_move_from, get_pawns_by_index,
  get_can_move_pawns_by_player_index, generate_next_action,
}

abbrev pub free : ℕ → Pawn → Bool
free dice p = not (is_blocked dice p)

can_move_from-eq :
    (dice : ℕ) (pawns : List Pawn)
    → map (λ (c : CanMovePawn). c.pawn_id) (can_move_from dice pawns)
      ≡ map get_pawn_id (filter (free dice) pawns)
unfolding can_move_from
can_move_from-eq dice [] = refl
can_move_from-eq dice (p ∷ pawns) = elim (Bool-cases (is_blocked dice p)) [
  | inl blocked ↦ rw blocked (can_move_from-eq dice pawns)
  | inr moves ↦ rw moves (ap (λ l. get_pawn_id p ∷ l) (can_move_from-eq dice pawns))
]

pub length-can_move_from :
    (dice : ℕ) (pawns : List Pawn) → length (can_move_from dice pawns) ≡ count (free dice) pawns
unfolding can_move_from
length-can_move_from dice [] = refl
length-can_move_from dice (p ∷ pawns) = elim (Bool-cases (is_blocked dice p)) [
  | inl blocked ↦ rw blocked (length-can_move_from dice pawns)
  | inr moves ↦ rw moves (ap suc (length-can_move_from dice pawns))
]

is_pawn_self : (p : Pawn) → is_pawn (get_pawn_id p) p ≡ true
unfolding get_pawn_id
is_pawn_self p = ground arith

is_pawn-id : (p q : Pawn) → is_pawn (get_pawn_id p) q ≡ true → get_pawn_id q ≡ get_pawn_id p
unfolding get_pawn_id
is_pawn-id p q h = ground arith

-- With distinct ids `find` by the id of a pawn finds the pawn.
pub find?-Distinct :
    (pawns : List Pawn) (j : ℕ) {p : Pawn}
    → Distinct (map get_pawn_id pawns)
    → get_elem? pawns j ≡ some p
    → find? (is_pawn (get_pawn_id p)) pawns ≡ some p
find?-Distinct [] j d e = cc
find?-Distinct (q ∷ pawns) zero {p} d e =
    rw (subst (λ x. is_pawn (get_pawn_id p) x ≡ true) (sym (some-injective q p e)) (is_pawn_self p))
      e
find?-Distinct (q ∷ pawns) (suc j) {p} d e = elim (Bool-cases (is_pawn (get_pawn_id p) q)) [
  | inl hit ↦ absurd (
      All-get_elem? (λ i. i ≢ get_pawn_id q) (map get_pawn_id pawns) j d.0
        (get_elem?-map get_pawn_id pawns j e) (sym (is_pawn-id p q hit)))
  | inr miss ↦ rw miss (find?-Distinct pawns j d.1 e)
]

free-can_move :
    (dice : ℕ) (p : Pawn)
    → free dice p ≡ (not (is_home p.position) && leb (dice + calculate_points p) 100)
free-can_move dice p = ground arith

is_pawn-eq : (id : PawnId) (p : Pawn) → is_pawn id p ≡ true → id ≡ get_pawn_id p
unfolding get_pawn_id
is_pawn-eq (pw i j) p h = ground arith

player_of-get_pawn_id : (p : Pawn) → player_of (get_pawn_id p) ≡ p.player_index + 1
unfolding get_pawn_id
player_of-get_pawn_id p = refl

-- The ids that a player is offered in the state `movePawn`.
offered-eq :
    (t : Table) (c : ℕ)
    → t.action ≡ GameAction.move_pawn
    → current_index t ≡ some c
    → (generate_next_action t).can_move_pawns
      ≡ map get_pawn_id (filter (free t.dice) (filter (is_of c) t.pawns))
unfolding generate_next_action get_can_move_pawns_by_player_index get_pawns_by_index
offered-eq t c action turn = rw (action, turn) (can_move_from-eq t.dice (filter (is_of c) t.pawns))

can_pawn_move-here :
    (t : Table) (j : ℕ) (p : Pawn)
    → Distinct (map get_pawn_id t.pawns)
    → get_elem? t.pawns j ≡ some p
    → free t.dice p ≡ true
    → can_pawn_move t (get_pawn_id p) ≡ true
unfolding can_pawn_move
can_pawn_move-here t j p ids at moves =
    rw (find?-Distinct t.pawns j ids at, can_pawn_move) (sym (free-can_move t.dice p) ∙ moves)

module _ (t : Table) (c : ℕ) (id : PawnId) (ids : Distinct (map get_pawn_id t.pawns))
    (action : t.action ≡ GameAction.move_pawn) (turn : current_index t ≡ some c) where
  offered_to :
      (k : ℕ)
      → get_elem? (generate_next_action t).can_move_pawns k ≡ some id
      → (player_of id ≡ c + 1) × (can_pawn_move t id ≡ true)
  offered_to k e =
      let (p, at, named) = map-get_elem? get_pawn_id _ k (rw (offered-eq t c action turn) at e) in
      let (j, at', moves) = filter-get_elem? (free t.dice) _ k at in
      let (i, at'', own) = filter-get_elem? (is_of c) t.pawns j at' in
      rw (← named) (
        player_of-get_pawn_id p ∙ ap (λ n. n + 1) ((==_iff _ _).0 own),
        can_pawn_move-here t i p ids at'' moves,
      )

  offered_from :
      (player_of id ≡ c + 1)
      → can_pawn_move t id ≡ true
      → (k : ℕ) × (get_elem? (generate_next_action t).can_move_pawns k ≡ some id)
  offered_from own moves =
      let (p, found, away, fits) = can_pawn_move-find? t id moves in
      let (i, _, at, named) = find?-find_index (is_pawn id) t.pawns found in
      let is = is_pawn-eq id p named in
      let mine : p.player_index ≡ c = omega (arith, player_of-get_pawn_id p, ap player_of is) in
      let (j, at') = get_elem?-filter (is_of c) t.pawns i at ((==_iff _ _).1 mine) in
      let (k, at'') =
        get_elem?-filter (free t.dice) _ j at' (free-can_move t.dice p ∙ ground arith) in
      (
        k,
        subst (λ x. get_elem? (generate_next_action t).can_move_pawns k ≡ some x) (sym is)
            (rw (offered-eq t c action turn) (get_elem?-map get_pawn_id _ k at'')),
      )

  -- The pawns that `nextAction` offers to the player in turn are exactly the pawns of that player
  -- that `#canPawnMove` accepts.
  pub offered_iff :
      ((k : ℕ) × (get_elem? (generate_next_action t).can_move_pawns k ≡ some id))
      ↔ ((player_of id ≡ c + 1) × (can_pawn_move t id ≡ true))
  offered_iff = (λ h. offered_to h.0 h.1, λ h. offered_from h.0 h.1)
