-- ===== src/Base/Any.antt =====
-- What `some` and `findIndex` find in a list, and in the list of a field.
use Prim.Native.Nat.{ℕ, zero, suc}
use mathlib.Core.Path.{◌≡◌, refl}
use mathlib.Core.Logic.{inl, inr}
use mathlib.Core.Bool.{Bool, true}
use mathlib.Core.List.{List, [], ◌∷◌, map}
use mathlib.Core.Option.{some, some-injective}
use empire_backend.Base.Lists.{get_elem?, any, find_index}
use empire_backend.Base.Tests.{Bool-cases}

module _ {ℓ} {A : Type ℓ} where
  pub any-get_elem? :
      (p : A → Bool) (xs : List A)
      → any p xs ≡ true
      → (i : ℕ) × (x : A) × (get_elem? xs i ≡ some x) × (p x ≡ true)
  any-get_elem? p [] h = cc
  any-get_elem? p (x ∷ xs) h = elim (Bool-cases (p x)) [
    | inl hit ↦ (0, x, refl, hit)
    | inr miss ↦
        let (i, y, here, passes) = any-get_elem? p xs (rw miss at h) in (suc i, y, here, passes)
  ]

  pub any-true :
      (p : A → Bool) (xs : List A) (i : ℕ) {x : A}
      → get_elem? xs i ≡ some x
      → p x ≡ true
      → any p xs ≡ true
  any-true p [] i here passes = cc
  any-true p (y ∷ xs) zero {x} here passes = rw (some-injective y x here, passes) refl
  any-true p (y ∷ xs) (suc i) here passes = elim (Bool-cases (p y)) [
    | inl hit ↦ rw hit refl
    | inr miss ↦ rw miss (any-true p xs i here passes)
  ]

pub find_index-map {ℓ κ} :
    {A : Type ℓ} {B : Type κ} (f : A → B) (p : B → Bool) (xs : List A)
    → find_index (λ x. p (f x)) xs ≡ find_index p (map f xs)
find_index-map f p [] = refl
find_index-map f p (x ∷ xs) = rw (find_index-map f p xs)
