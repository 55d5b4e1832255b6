-- ===== src/SnakesLadders/Matching/Split.antt =====
-- libs/fabzen-common: what `splitArrayByPredicate` makes of its items.
use empire_backend.Base.{
  ℕ, ◌+◌, ◌≡◌, Bool, false, List, [], ◌∷◌, ◌++◌, any, count, All, arith, Bool-cases, inl, inr, ◌<◌,
  length, bit, length-append,
}
use empire_backend.SnakesLadders.Matching.{put_item, split_from, split_array_by_predicate}

module _ {ℓ} {A : Type ℓ} (predicate : A → A → Bool) where
  -- No item is in conflict with one that stands before it.
  abbrev pub IsFree : List A → Type 0
  IsFree [] = Unit
  IsFree (x ∷ xs) = All (λ y. predicate x y ≡ false) xs × IsFree xs

  -- How many items of the groups pass a test.
  abbrev pub total : (A → Bool) → List (List A) → ℕ
  total p [] = 0
  total p (group ∷ groups) = count p group + total p groups

  pub record IsSplit (items : List A) (groups : List (List A)) : Type ℓ where
    pub free : All IsFree groups
    pub filled : All (λ (g : List A). 0 < length g) groups
    pub same : (p : A → Bool) → total p groups ≡ count p items

  All-append-one : (P : A → Type 0) (xs : List A) (y : A) → All P xs → P y → All P (xs ++ (y ∷ []))
  All-append-one P [] y h q = (q, tt)
  All-append-one P (x ∷ xs) y h q = (h.0, All-append-one P xs y h.1 q)

  IsFree-append-one :
      (group : List A) (item : A)
      → IsFree group
      → any (λ r. predicate r item) group ≡ false
      → IsFree (group ++ (item ∷ []))
  IsFree-append-one [] item h e = (tt, tt)
  IsFree-append-one (x ∷ xs) item h e = (
    All-append-one (λ y. predicate x y ≡ false) xs item h.0 (ground arith),
    IsFree-append-one xs item h.1 (ground arith),
  )

  count-append-one :
      (p : A → Bool) (xs : List A) (y : A) → count p (xs ++ (y ∷ [])) ≡ count p xs + bit (p y)
  count-append-one p [] y = elim (Bool-cases (p y)) [ inl e ↦ rw e | inr e ↦ rw e ]
  count-append-one p (x ∷ xs) y = elim (Bool-cases (p x)) [
    | inl e ↦ rw e (omega (arith, count-append-one p xs y))
    | inr e ↦ rw e (count-append-one p xs y)
  ]

  put_item-free :
      (item : A) (groups : List (List A))
      → All IsFree groups
      → All IsFree (put_item predicate item groups)
  unfolding put_item
  put_item-free item [] h = ((tt, tt), tt)
  put_item-free item (group ∷ groups) h = elim (Bool-cases (any (λ r. predicate r item) group)) [
    | inl e ↦ rw e (h.0, put_item-free item groups h.1)
    | inr e ↦ rw e (IsFree-append-one group item h.0 e, h.1)
  ]

  put_item-filled :
      (item : A) (groups : List (List A))
      → All (λ (g : List A). 0 < length g) groups
      → All (λ (g : List A). 0 < length g) (put_item predicate item groups)
  unfolding put_item
  put_item-filled item [] h = (omega arith, tt)
  put_item-filled item (group ∷ groups) h = elim (Bool-cases (any (λ r. predicate r item) group)) [
    | inl e ↦ rw e (h.0, put_item-filled item groups h.1)
    | inr e ↦ rw e (omega (arith, length-append group (item ∷ [])), h.1)
  ]

  put_item-total :
      (p : A → Bool) (item : A) (groups : List (List A))
      → total p (put_item predicate item groups) ≡ total p groups + bit (p item)
  unfolding put_item
  put_item-total p item [] = elim (Bool-cases (p item)) [ inl e ↦ rw e | inr e ↦ rw e ]
  put_item-total p item (group ∷ groups) = elim (Bool-cases (any (λ r. predicate r item) group)) [
    | inl e ↦ rw e (omega (arith, put_item-total p item groups))
    | inr e ↦ rw e (omega (arith, count-append-one p group item))
  ]

  split_from-IsSplit :
      (items : List A) (result : List (List A))
      → All IsFree result
      → All (λ (g : List A). 0 < length g) result
      → All IsFree (split_from predicate items result)
        × (All (λ (g : List A). 0 < length g) (split_from predicate items result)
            × ((p : A → Bool)
                → total p (split_from predicate items result) ≡ total p result + count p items))
  unfolding split_from
  split_from-IsSplit [] result free filled = (free, (filled, λ p. omega arith))
  split_from-IsSplit (item ∷ items) result free filled =
      let (f, (g, h)) =
        split_from-IsSplit items (put_item predicate item result) (put_item-free item result free)
          (put_item-filled item result filled) in
      (
        f,
        (
          g,
          λ p. elim (Bool-cases (p item)) [
            | inl e ↦
                let b : bit (p item) ≡ 1 = rw e in
                rw e (omega (arith, h p, b, put_item-total p item result))
            | inr e ↦
                let b : bit (p item) ≡ 0 = rw e in
                rw e (omega (arith, h p, b, put_item-total p item result))
          ],
        ),
      )

  -- Each item of the list is in one of the groups as often as in the list, no group is empty, and
  -- no group has an item that the predicate relates to a later one.
  pub split_array_by_predicate-IsSplit :
      (items : List A) → IsSplit items (split_array_by_predicate items predicate)
  unfolding split_array_by_predicate
  split_array_by_predicate-IsSplit items =
      let (f, (g, h)) = split_from-IsSplit items [] tt tt in
      record { free = f; filled = g; same = λ p. omega (arith, h p) }
