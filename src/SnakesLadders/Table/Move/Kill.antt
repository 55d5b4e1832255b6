-- ===== src/SnakesLadders/Table/Move/Kill.antt =====
-- Which pawns a move kills.
use empire_backend.Base.{
  ℕ, zero, suc, ◌<◌, ◌≡◌, refl, ◌≢◌, ◌⊎◌, inl, inr, Option, none, some, List, [], ◌∷◌, arith, ◌==◌,
  if◌then◌else◌, length, get_elem?, filter, Bool-cases, All,
}
use empire_backend.Base.Results.{ok}
use empire_backend.SnakesLadders.Types.{Position, base, cell, home, position_eq, is_home}
use empire_backend.SnakesLadders.Pawn.{Pawn}
use empire_backend.SnakesLadders.Table.{User, Table}
use empire_backend.SnakesLadders.Table.Turn.{current_index}
use empire_backend.SnakesLadders.Table.Move.{
  occupies, occupants, lone_other, get_other_pawns_on_position, stands_on,
}

-- Every pawn belongs to a seat of the table.
abbrev pub AreSeated : List User → List Pawn → Type 0
AreSeated users = All (λ (p : Pawn). p.player_index < length users)

get_elem?_seated :
    (users : List User) (i : ℕ) → i < length users → (u : User) × (get_elem? users i ≡ some u)
get_elem?_seated [] i h = elim h [ ]
get_elem?_seated (u ∷ users) zero h = (u, refl)
get_elem?_seated (u ∷ users) (suc i) h = get_elem?_seated users i (omega arith)

occupies-eq :
    (users : List User) (position : Position) (p : Pawn) (u : User)
    → get_elem? users p.player_index ≡ some u
    → occupies users position p ≡ ok (stands_on users position p)
unfolding occupies
occupies-eq users position p u e = elim (Bool-cases (position_eq p.position position)) [
  | inl here ↦ rw (here, e)
  | inr away ↦ rw away
]

pub occupants-eq-filter :
    (users : List User) (position : Position) (pawns : List Pawn)
    → AreSeated users pawns
    → occupants users position pawns ≡ ok (filter (stands_on users position) pawns)
unfolding occupants
occupants-eq-filter users position [] h = refl
occupants-eq-filter users position (p ∷ pawns) h =
    let (u, seat) = get_elem?_seated users p.player_index h.0 in
    rw (occupies-eq users position p u seat) (rw (occupants-eq-filter users position pawns h.1))

-- The pawns that are killed on a square, in closed form.
abbrev pub victims : Position → Table → List Pawn
victims position t =
    if is_home position
    then []
    else lone_other (current_index t) (filter (stands_on t.users position) t.pawns)

pub get_other_pawns_on_position-eq :
    (position : Position) (t : Table)
    → AreSeated t.users t.pawns
    → get_other_pawns_on_position position t ≡ ok (victims position t)
unfolding get_other_pawns_on_position
get_other_pawns_on_position-eq position t h = elim (Bool-cases (is_home position)) [
  | inl at_home ↦ rw at_home
  | inr on_board ↦ rw on_board (rw (occupants-eq-filter t.users position t.pawns h))
]

-- `lone_other` keeps a list only if it is one pawn, of another player than the current one.
lone_other-cases :
    (current : Option ℕ) (l : List Pawn)
    → (lone_other current l ≡ [])
      ⊎ ((p : Pawn) × (l ≡ p ∷ [])
          × (lone_other current l ≡ p ∷ [])
          × (current ≢ some p.player_index))
lone_other-cases current [] = inl refl
lone_other-cases current (p ∷ q ∷ l) = inl refl
lone_other-cases none (p ∷ []) = inr (p, refl, refl, λ e. cc)
lone_other-cases (some i) (p ∷ []) = elim (Bool-cases (p.player_index == i)) [
  | inl own ↦ inl (rw own)
  | inr other ↦ inr (p, refl, rw other, λ e. ground arith)
]

-- A pawn that stands with another pawn on a square, of whatever player, is safe there; so is every
-- pawn of the current player, and every pawn that is home.
pub victims-cases :
    (position : Position) (t : Table)
    → (victims position t ≡ [])
      ⊎ ((p : Pawn) × (victims position t ≡ p ∷ [])
          × (filter (stands_on t.users position) t.pawns ≡ p ∷ [])
          × (current_index t ≢ some p.player_index)
          × (position ≢ home))
victims-cases base t =
    elim (lone_other-cases (current_index t) (filter (stands_on t.users base) t.pawns)) [
      | inl safe ↦ inl safe
      | inr (p, alone, dies, other) ↦ inr (p, dies, alone, other, λ e. cc)
    ]
victims-cases home t = inl refl
victims-cases (cell n) t =
    elim (lone_other-cases (current_index t) (filter (stands_on t.users (cell n)) t.pawns)) [
      | inl safe ↦ inl safe
      | inr (p, alone, dies, other) ↦ inr (p, dies, alone, other, λ e. cc)
    ]
