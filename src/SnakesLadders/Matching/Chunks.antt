-- ===== src/SnakesLadders/Matching/Chunks.antt =====
-- The waiting tables that the loops of `_match` and `getWaitingTableUsers` cut off the queue.
use empire_backend.Base.{
  ℕ, zero, suc, ◌≤◌, ◌<◌, ◌≡◌, refl, List, [], ◌∷◌, length, take, drop, All, take-append-drop, ap,
  length-drop, arith,
}
use empire_backend.SnakesLadders.Matching.{flatten}

-- Tables of `max_player` items, and the rest in the last one.
unfoldable pub tables_of {ℓ} : {A : Type ℓ} → ℕ → ℕ → List A → List (List A)
tables_of fuel max_player [] = []
tables_of zero max_player (w ∷ ws) = []
tables_of (suc fuel) max_player (w ∷ ws) =
    take max_player (w ∷ ws) ∷ tables_of fuel max_player (drop max_player (w ∷ ws))

pub length-take {ℓ} : {A : Type ℓ} (n : ℕ) (ws : List A) → length (take n ws) ≤ n
length-take zero ws = omega arith
length-take (suc n) [] = omega arith
length-take (suc n) (w ∷ ws) = omega (arith, length-take n ws)

pub take-pos {ℓ} : {A : Type ℓ} (n : ℕ) (w : A) (ws : List A) → 0 < n → 0 < length (take n (w ∷ ws))
take-pos zero w ws h = absurd (omega (arith, h))
take-pos (suc n) w ws h = omega arith

pub take-full {ℓ} :
    {A : Type ℓ} (n : ℕ) (ws vs : List A) {v : A} → drop n ws ≡ v ∷ vs → length (take n ws) ≡ n
take-full zero ws vs e = refl
take-full (suc n) [] vs e = cc
take-full (suc n) (w ∷ ws) vs e = ap suc (take-full n ws vs e)

-- All the tables but the last one are full, and the last one has somebody.
abbrev pub IsCut {ℓ} : {A : Type ℓ} → ℕ → List (List A) → Type 0
IsCut max_player [] = Unit
IsCut max_player (table ∷ []) = (0 < length table) × (length table ≤ max_player)
IsCut max_player (table ∷ next ∷ tables) =
    (length table ≡ max_player) × IsCut max_player (next ∷ tables)

module _ {ℓ} {A : Type ℓ} (max_player : ℕ) (pos : 0 < max_player) where
  -- The loop comes to the end of the queue, and the tables are the queue in its order.
  pub flatten-tables_of :
      (fuel : ℕ) (ws : List A) → length ws ≤ fuel → flatten (tables_of fuel max_player ws) ≡ ws
  unfolding tables_of
  flatten-tables_of fuel [] h = refl
  flatten-tables_of zero (w ∷ ws) h = absurd (omega (arith, h))
  flatten-tables_of (suc fuel) (w ∷ ws) h =
      rw
        (flatten-tables_of fuel (drop max_player (w ∷ ws))
          (omega (arith, length-drop max_player (w ∷ ws), h)))
        (take-append-drop max_player (w ∷ ws))

  pub tables_of-IsCut : (fuel : ℕ) (ws : List A) → IsCut max_player (tables_of fuel max_player ws)
  unfolding tables_of
  tables_of-IsCut fuel [] = tt
  tables_of-IsCut zero (w ∷ ws) = tt
  tables_of-IsCut (suc fuel) (w ∷ ws) =
      go fuel (drop max_player (w ∷ ws)) refl (tables_of-IsCut fuel (drop max_player (w ∷ ws)))
    where
      lone :
          (0 < length (take max_player (w ∷ ws))) × (length (take max_player (w ∷ ws)) ≤ max_player)
      lone = (take-pos max_player w ws pos, length-take max_player (w ∷ ws))

      go :
          (n : ℕ) (left : List A)
          → drop max_player (w ∷ ws) ≡ left
          → IsCut max_player (tables_of n max_player left)
          → IsCut max_player (take max_player (w ∷ ws) ∷ tables_of n max_player left)
      go n [] e cut = lone
      go zero (v ∷ vs) e cut = lone
      go (suc n) (v ∷ vs) e cut = (take-full max_player (w ∷ ws) vs e, cut)

  pub tables_of-sizes :
      (fuel : ℕ) (ws : List A)
      → All
          (λ (l : List A). (0 < length l) × (length l ≤ max_player))
          (tables_of fuel max_player ws)
  unfolding tables_of
  tables_of-sizes fuel [] = tt
  tables_of-sizes zero (w ∷ ws) = tt
  tables_of-sizes (suc fuel) (w ∷ ws) = (
    (take-pos max_player w ws pos, length-take max_player (w ∷ ws)),
    tables_of-sizes fuel (drop max_player (w ∷ ws)),
  )
