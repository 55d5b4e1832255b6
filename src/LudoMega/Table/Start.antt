-- ===== src/LudoMega/Table/Start.antt =====
-- table.entity.ts and pawn.entity.ts: the positions at the start, from a list of random indices. A
-- position that is excluded uses one up; `stuck` is a list that is used up.
use empire_backend.Base.{
  ℕ, zero, suc, ◌≡◌, refl, ap, subst, inl, inr, none, some, List, [], ◌∷◌, ◌++◌, map, All,
  get_elem?, any, take, drop, Bool-cases, Option-cases, if◌then◌else◌,
}
use mathlib.Core.Option.{some-injective}
use empire_backend.Base.Results.{Result, ok, err, type_error, stuck, ◌>>=◌, >>=-eq-ok, ok-injective}
use empire_backend.LudoMega.{
  Player, pl1, PawnId, pw, Position, position_eq, same_player, pawn_path, safe_positions,
}
use empire_backend.LudoMega.Pawn.{
  PawnPosition, from_pawn_position, from_pawn_id, get_pawn_id, index_of, get_base_position,
}
use empire_backend.LudoMega.Table.Valid.{pawn_ids, ArePawns, IsOnPath, index_of-get_base_position}
use empire_backend.LudoMega.Table.Move.Foreign.{position_eq_self}

-- `fullPath.slice(1, -6)`, of a path of 58 squares
abbrev pub main_path : Player → List Position
main_path p = take 51 (drop 1 (pawn_path p))

-- The loop of `getRandomPosition`.
unfoldable pub get_random_position : Player → List Position → List ℕ → Result (Position × List ℕ)
unfolding pawn_path position_eq
get_random_position p excluded [] = err stuck
get_random_position p excluded (d ∷ draws) =
    let rest = get_random_position p excluded draws in
    elim (get_elem? (main_path p) d) [
      | none ↦ err type_error
      | some q ↦ if any (position_eq q) excluded then rest else ok (q, draws)
    ]

unfoldable pub place : Player → List Position → List ℕ → Result (Position × List ℕ)
unfolding get_random_position get_base_position same_player
place p excluded draws =
    if same_player p pl1
    then ok (get_base_position p, draws)
    else get_random_position p excluded draws

abbrev pub placed_at : PawnId → Position → PawnPosition
placed_at id q = record {
  pawn = id;
  position = q;
  bonus? = none;
  points? = none;
  used_dice? = none;
}

-- The two loops, over the ids in their order.
unfoldable pub place_all : List PawnId → List Position → List ℕ → Result (List PawnPosition)
unfolding place
place_all [] excluded draws = ok []
place_all (pw p i ∷ ids) excluded draws = place p excluded draws >>= λ r.
    place_all ids (excluded ++ (r.0 ∷ [])) r.1 >>= λ rest. ok (placed_at (pw p i) r.0 ∷ rest)

unfoldable pub get_random_initial_positions : List ℕ → Result (List PawnPosition)
unfolding place_all
get_random_initial_positions draws = place_all pawn_ids safe_positions draws

get_elem?-take :
    (n : ℕ) (xs : List Position) (d : ℕ) (q : Position)
    → get_elem? (take n xs) d ≡ some q
    → get_elem? xs d ≡ some q
get_elem?-take zero xs d q h = cc
get_elem?-take (suc n) [] d q h = cc
get_elem?-take (suc n) (x ∷ xs) zero q h = h
get_elem?-take (suc n) (x ∷ xs) (suc d) q h = get_elem?-take n xs d q h

index_of-get_elem? :
    (q : Position) (xs : List Position) (i : ℕ)
    → get_elem? xs i ≡ some q
    → (j : ℕ) × (index_of q xs ≡ some j)
unfolding index_of
index_of-get_elem? q [] i h = cc
index_of-get_elem? q (x ∷ xs) zero h = (0, rw (some-injective x q h, position_eq_self q) refl)
index_of-get_elem? q (x ∷ xs) (suc i) h =
    let (j, found) = index_of-get_elem? q xs i h in
    elim (Bool-cases (position_eq q x)) [
      | inl hit ↦ (0, rw hit refl)
      | inr miss ↦ (suc j, rw (miss, found) refl)
    ]

get_random_position-on_path :
    (p : Player) (excluded : List Position) (draws : List ℕ) {r : Position × List ℕ}
    → get_random_position p excluded draws ≡ ok r
    → (i : ℕ) × (index_of r.0 (pawn_path p) ≡ some i)
unfolding get_random_position pawn_path
get_random_position-on_path p excluded [] h = cc
get_random_position-on_path p excluded (d ∷ draws) {r} h =
    elim (Option-cases (get_elem? (main_path p) d)) [
      | inl e ↦ cc (rw e at h)
      | inr (q, e) ↦ elim (Bool-cases (any (position_eq q) excluded)) [
        | inl hit ↦ get_random_position-on_path p excluded draws (rw (e, hit) at h)
        | inr miss ↦
            subst (λ x. (i : ℕ) × (index_of x.0 (pawn_path p) ≡ some i))
              (ok-injective (q, draws) r (rw (e, miss) at h))
              (index_of-get_elem? q (pawn_path p) (suc d)
                (get_elem?-take 51 (drop 1 (pawn_path p)) d q e))
      ]
    ]

place-on_path :
    (p : Player) (excluded : List Position) (draws : List ℕ) {r : Position × List ℕ}
    → place p excluded draws ≡ ok r
    → (i : ℕ) × (index_of r.0 (pawn_path p) ≡ some i)
unfolding place
place-on_path p excluded draws {r} h = elim (Bool-cases (same_player p pl1)) [
  | inl own ↦
      subst (λ x. (i : ℕ) × (index_of x.0 (pawn_path p) ≡ some i))
        (ok-injective (get_base_position p, draws) r (rw own at h))
        (1, index_of-get_base_position p)
  | inr other ↦ get_random_position-on_path p excluded draws (rw other at h)
]

place_all-placed :
    (ids : List PawnId) (excluded : List Position) (draws : List ℕ) {positions : List PawnPosition}
    → place_all ids excluded draws ≡ ok positions
    → (map get_pawn_id (map from_pawn_position positions) ≡ ids)
      × All IsOnPath (map from_pawn_position positions)
unfolding place_all from_pawn_position from_pawn_id get_pawn_id IsOnPath
place_all-placed [] excluded draws {positions} h =
    subst
      (λ l.
        (map get_pawn_id (map from_pawn_position l) ≡ []) × All IsOnPath (map from_pawn_position l))
      (ok-injective [] positions h) (refl, tt)
place_all-placed (pw p i ∷ ids) excluded draws {positions} h =
    let (r, placed, h1) =
      >>=-eq-ok (place p excluded draws)
        (λ r.
          place_all ids (excluded ++ (r.0 ∷ [])) r.1 >>= λ rest. ok (placed_at (pw p i) r.0 ∷ rest))
        h in
    let (rest, others, h2) =
      >>=-eq-ok (place_all ids (excluded ++ (r.0 ∷ [])) r.1)
        (λ rest. ok (placed_at (pw p i) r.0 ∷ rest)) h1 in
    let (same, on_path) = place_all-placed ids (excluded ++ (r.0 ∷ [])) r.1 others in
    subst
      (λ l.
        (map get_pawn_id (map from_pawn_position l) ≡ (pw p i ∷ ids))
        × All IsOnPath (map from_pawn_position l))
      (ok-injective (placed_at (pw p i) r.0 ∷ rest) positions h2)
      (ap (◌∷◌ (pw p i)) same, (place-on_path p excluded draws placed, on_path))

-- The positions at the start are those of the sixteen pawns, each on its path.
pub get_random_initial_positions-ArePawns :
    (draws : List ℕ) {positions : List PawnPosition}
    → get_random_initial_positions draws ≡ ok positions
    → ArePawns (map from_pawn_position positions)
unfolding get_random_initial_positions ArePawns
get_random_initial_positions-ArePawns draws h = place_all-placed pawn_ids safe_positions draws h
