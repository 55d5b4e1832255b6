-- ===== src/Base/Counting.antt =====
-- Lists without repetition, and how many items of a list pass a test.
use Prim.Native.Nat.{ℕ, zero, suc, ◌+◌, ◌<◌}
use mathlib.Core.Path.{◌≡◌, refl, ap, subst, sym, ◌∙◌}
use mathlib.Core.Logic.{◌≢◌, inl, inr}
use mathlib.Core.Bool.{Bool, true, false}
use mathlib.Core.List.{List, [], ◌∷◌, ◌++◌, map}
use mathlib.Core.Option.{some, some-injective}
use native.Mathlib.Omega.{arith}
use empire_backend.Base.Tests.{if◌then◌else◌, Bool-cases, ◌==◌}
use empire_backend.Base.Lists.{
  get_elem?, set, find_index, filter, count, All, All-get_elem?, get_elem?-map,
}

-- No item stands twice in the list.
abbrev pub Distinct {ℓ} : {A : Type ℓ} → List A → Type ℓ
Distinct [] = Unit
Distinct (x ∷ xs) = All (λ y. y ≢ x) xs × Distinct xs

module _ {ℓ} {A : Type ℓ} (key : A → ℕ) where
  absent :
      (xs : List A) (k i : ℕ) {x : A}
      → All (λ j. j ≢ k) (map key xs)
      → get_elem? xs i ≡ some x
      → key x ≢ k
  absent xs k i h e = All-get_elem? (λ j. j ≢ k) (map key xs) i h (get_elem?-map key xs i e)

  -- Where the keys are distinct, `findIndex` by the key of an item finds that item.
  pub find_index-Distinct :
      (xs : List A) (i : ℕ) {x : A}
      → Distinct (map key xs)
      → get_elem? xs i ≡ some x
      → find_index (λ y. key y == key x) xs ≡ some i
  find_index-Distinct [] i d e = cc
  find_index-Distinct (y ∷ xs) zero {x} d e =
      let same : key y ≡ key x = ap key (some-injective y x e) in ground (arith, same)
  find_index-Distinct (y ∷ xs) (suc i) {x} d e =
      let differs = absent xs (key y) i d.0 e in ground (arith, find_index-Distinct xs i d.1 e)

-- A write that keeps an item's image keeps the image of the list.
pub map-set_same {ℓ κ} :
    {A : Type ℓ} {B : Type κ} (f : A → B) (xs : List A) (i : ℕ) (v : A) {b : B}
    → get_elem? (map f xs) i ≡ some b
    → f v ≡ b
    → map f (set xs i v) ≡ map f xs
map-set_same f [] i v h e = refl
map-set_same f (x ∷ xs) zero v {b} h e = ap (λ z. z ∷ map f xs) (e ∙ sym (some-injective (f x) b h))
map-set_same f (x ∷ xs) (suc i) v h e = ap (λ l. f x ∷ l) (map-set_same f xs i v h e)

module _ {ℓ} {A : Type ℓ} (p : A → Bool) where
  -- An item of the filtered list is an item of the list that passes the test.
  pub filter-get_elem? :
      (xs : List A) (i : ℕ) {x : A}
      → get_elem? (filter p xs) i ≡ some x
      → (j : ℕ) × (get_elem? xs j ≡ some x) × (p x ≡ true)
  filter-get_elem? [] i e = cc
  filter-get_elem? (y ∷ xs) zero {x} e = elim (Bool-cases (p y)) [
    | inl hit ↦
        let same = some-injective y x (rw hit at e) in
        (0, ap some same, subst (λ z. p z ≡ true) same hit)
    | inr miss ↦ let (j, at, pass) = filter-get_elem? xs zero (rw miss at e) in (suc j, at, pass)
  ]
  filter-get_elem? (y ∷ xs) (suc i) e = elim (Bool-cases (p y)) [
    | inl hit ↦ let (j, at, pass) = filter-get_elem? xs i (rw hit at e) in (suc j, at, pass)
    | inr miss ↦ let (j, at, pass) = filter-get_elem? xs (suc i) (rw miss at e) in (suc j, at, pass)
  ]

  pub count_pos :
      (xs : List A) (j : ℕ) {x : A} → get_elem? xs j ≡ some x → p x ≡ true → 0 < count p xs
  count_pos [] j e h = cc
  count_pos (y ∷ xs) zero {x} e h =
      let hit = subst (λ z. p z ≡ true) (sym (some-injective y x e)) h in rw hit (omega arith)
  count_pos (y ∷ xs) (suc j) e h = ground (arith, count_pos xs j e h)

  pub count_pos-get_elem? :
      (xs : List A)
      → 0 < count p xs
      → (j : ℕ) × ((x : A) × (get_elem? xs j ≡ some x) × (p x ≡ true))
  count_pos-get_elem? [] h = absurd (omega arith)
  count_pos-get_elem? (y ∷ xs) h = elim (Bool-cases (p y)) [
    | inl hit ↦ (0, (y, refl, hit))
    | inr miss ↦
        let (j, (x, at, pass)) = count_pos-get_elem? xs (rw miss at h) in (suc j, (x, at, pass))
  ]

pub count-append {ℓ} :
    {A : Type ℓ} (p : A → Bool) (xs ys : List A) → count p (xs ++ ys) ≡ count p xs + count p ys
count-append p [] ys = omega arith
count-append p (x ∷ xs) ys = ground (arith, count-append p xs ys)

abbrev pub bit : Bool → ℕ
bit true = 1
bit false = 0

-- How a write changes the count.
pub count-set {ℓ} :
    {A : Type ℓ} (p : A → Bool) (xs : List A) (i : ℕ) (v : A) {x : A}
    → get_elem? xs i ≡ some x
    → count p (set xs i v) + bit (p x) ≡ count p xs + bit (p v)
count-set p [] i v e = cc
count-set p (y ∷ xs) zero v {x} e =
    let same = some-injective y x e in
    subst (λ z. count p (v ∷ xs) + bit (p z) ≡ count p (y ∷ xs) + bit (p v)) same (swap (p y) (p v))
  where
    swap :
        (a b : Bool)
        → (if b then suc (count p xs) else count p xs) + bit a
          ≡ (if a then suc (count p xs) else count p xs) + bit b
    swap true true = refl
    swap true false = omega arith
    swap false true = omega arith
    swap false false = refl
count-set p (y ∷ xs) (suc i) v e = elim (Bool-cases (p y)) [
  | inl hit ↦ rw hit (omega (arith, count-set p xs i v e))
  | inr miss ↦ rw miss (count-set p xs i v e)
]

-- An item of the mapped list is the image of an item.
pub map-get_elem? {ℓ κ} :
    {A : Type ℓ} {B : Type κ} (f : A → B) (xs : List A) (i : ℕ) {b : B}
    → get_elem? (map f xs) i ≡ some b
    → (x : A) × (get_elem? xs i ≡ some x) × (f x ≡ b)
map-get_elem? f [] i e = cc
map-get_elem? f (y ∷ xs) zero {b} e = (y, refl, some-injective (f y) b e)
map-get_elem? f (y ∷ xs) (suc i) e = map-get_elem? f xs i e

pub map-append {ℓ κ} :
    {A : Type ℓ} {B : Type κ} (f : A → B) (xs ys : List A) → map f (xs ++ ys) ≡ map f xs ++ map f ys
map-append f [] ys = refl
map-append f (x ∷ xs) ys = ap (λ l. f x ∷ l) (map-append f xs ys)
