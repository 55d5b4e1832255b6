-- ===== src/Base/Modify.antt =====
-- A change of one item of a list, where the item is an object that is changed in place.
use Prim.Native.Nat.{ℕ, zero, suc}
use mathlib.Core.Path.{◌≡◌, refl, sym}
use mathlib.Core.Logic.{◌⊎◌, inl, inr}
use mathlib.Core.List.{List, [], ◌∷◌, map}
use mathlib.Core.Option.{some, some-injective}
use empire_backend.Base.Lists.{get_elem?, All}

module _ {ℓ} {A : Type ℓ} where
  abbrev pub modify : (A → A) → List A → ℕ → List A
  modify f [] i = []
  modify f (x ∷ xs) zero = f x ∷ xs
  modify f (x ∷ xs) (suc i) = x ∷ modify f xs i

  -- An item after a change is an item before it, or the changed one.
  pub get_elem?-modify :
      (f : A → A) (xs : List A) (j i : ℕ) {x : A}
      → get_elem? (modify f xs j) i ≡ some x
      → (y : A) × (get_elem? xs i ≡ some y) × ((x ≡ y) ⊎ (x ≡ f y))
  get_elem?-modify f [] j i h = cc
  get_elem?-modify f (y ∷ xs) zero zero h = (y, refl, inr (sym (some-injective _ _ h)))
  get_elem?-modify f (y ∷ xs) zero (suc i) {x} h = (x, h, inl refl)
  get_elem?-modify f (y ∷ xs) (suc j) zero h = (y, refl, inl (sym (some-injective _ _ h)))
  get_elem?-modify f (y ∷ xs) (suc j) (suc i) h = get_elem?-modify f xs j i h

  pub get_elem?-modify_self :
      (f : A → A) (xs : List A) (i : ℕ) {x : A}
      → get_elem? xs i ≡ some x
      → get_elem? (modify f xs i) i ≡ some (f x)
  get_elem?-modify_self f [] i h = cc
  get_elem?-modify_self f (y ∷ xs) zero {x} h = rw (some-injective y x h)
  get_elem?-modify_self f (y ∷ xs) (suc i) h = get_elem?-modify_self f xs i h

module _ {ℓ κ} {A : Type ℓ} where
  pub map-modify :
      {B : Type κ} (g : A → B) (f : A → A) (xs : List A) (i : ℕ)
      → ((x : A) → g (f x) ≡ g x)
      → map g (modify f xs i) ≡ map g xs
  map-modify g f [] i same = refl
  map-modify g f (x ∷ xs) zero same = rw (same x)
  map-modify g f (x ∷ xs) (suc i) same = rw (map-modify g f xs i same)

  pub All-modify :
      (P : A → Type κ) (f : A → A) (xs : List A) (i : ℕ)
      → All P xs
      → ((x : A) → get_elem? xs i ≡ some x → P x → P (f x))
      → All P (modify f xs i)
  All-modify P f [] i h step = tt
  All-modify P f (x ∷ xs) zero h step = (step x refl h.0, h.1)
  All-modify P f (x ∷ xs) (suc i) h step = (h.0, All-modify P f xs i h.1 step)
