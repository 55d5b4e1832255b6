-- ===== src/SnakesLadders/Pawn/Ladders.antt =====
-- Where a table of ladders or of snakes leads.
use empire_backend.Base.{
  ℕ, ◌≤◌, ◌≡◌, refl, sym, ap, ◌≢◌, ◌⊎◌, inl, inr, Bool, true, false, List, [], ◌∷◌, arith, ◌==◌,
  if◌then◌else◌, Bool-cases, All, ==_iff,
}
use mathlib.Core.List.{Memᴰ}
use empire_backend.SnakesLadders.Pawn.{follow}

-- No pair starts at `index`.
abbrev pub IsPlain : ℕ → List (ℕ × ℕ) → Type 0
IsPlain index = All (λ (e : ℕ × ℕ). e.0 ≢ index)

-- Each pair leads at most to `top`.
abbrev pub EndsBelow : ℕ → List (ℕ × ℕ) → Type 0
EndsBelow top = All (λ (e : ℕ × ℕ). e.1 ≤ top)

pub follow-plain :
    (index : ℕ) (l : List (ℕ × ℕ)) (p : ℕ) (b : Bool)
    → IsPlain index l
    → follow index l p b ≡ (p, b)
unfolding follow
follow-plain index [] p b h = refl
follow-plain index ((s, e) ∷ l) p b h = ground (arith, follow-plain index l p b h.1)

pub follow-le :
    (top index : ℕ) (l : List (ℕ × ℕ)) (p : ℕ) (b : Bool)
    → EndsBelow top l
    → p ≤ top
    → (follow index l p b).0 ≤ top
unfolding follow
follow-le top index [] p b h k = k
follow-le top index ((s, e) ∷ l) p b h k =
    follow-le top index l (if s == index then e else p) (if s == index then true else b) h.1
      (ground arith)

pub follow-raised : (index : ℕ) (l : List (ℕ × ℕ)) (p : ℕ) → (follow index l p true).1 ≡ true
unfolding follow
follow-raised index [] p = refl
follow-raised index ((s, e) ∷ l) p =
    ground (arith, follow-raised index l e, follow-raised index l p)

-- A flag that is still down means that no pair starts at `index`, and that nothing moved.
pub follow-unflagged :
    (index : ℕ) (l : List (ℕ × ℕ)) (p : ℕ)
    → (follow index l p false).1 ≡ false
    → (follow index l p false ≡ (p, false)) × IsPlain index l
unfolding follow
follow-unflagged index [] p h = (refl, tt)
follow-unflagged index ((s, e) ∷ l) p h =
    ground (arith, follow-raised index l e, follow-unflagged index l p)

-- Some pair of the list leads from `index` to `target`.
abbrev pub Leads : List (ℕ × ℕ) → ℕ → ℕ → Type 0
Leads l index target = Memᴰ {A = ℕ × ℕ} (index, target) l

pub follow_hit :
    (index s e : ℕ) (l : List (ℕ × ℕ)) (p : ℕ) (b : Bool)
    → (s == index) ≡ true
    → follow index ((s, e) ∷ l) p b ≡ follow index l e true
unfolding follow
follow_hit index s e l p b h = ground arith

pub follow_miss :
    (index s e : ℕ) (l : List (ℕ × ℕ)) (p : ℕ) (b : Bool)
    → (s == index) ≡ false
    → follow index ((s, e) ∷ l) p b ≡ follow index l p b
unfolding follow
follow_miss index s e l p b h = ground arith

-- The loop ends at its start with the flag as it was, or at the end of a pair of the list.
pub follow-Leads :
    (index : ℕ) (l : List (ℕ × ℕ)) (p : ℕ) (b : Bool)
    → (follow index l p b ≡ (p, b))
      ⊎ (((follow index l p b).1 ≡ true) × Leads l index (follow index l p b).0)
follow-Leads index [] p b = inl (unfold follow in refl)
follow-Leads index ((s, e) ∷ l) p b = elim (Bool-cases (s == index)) [
  | inl hit ↦ rw (follow_hit index s e l p b hit) (elim (follow-Leads index l e true) [
    | inl same ↦
        rw same (inr (refl, Memᴰ.head (ap (λ (k : ℕ). (k, e)) (sym ((==_iff s index).0 hit)))))
    | inr (up, m) ↦ inr (up, Memᴰ.tail m)
  ])
  | inr miss ↦ rw (follow_miss index s e l p b miss) (elim (follow-Leads index l p b) [
    | inl same ↦ inl same
    | inr (up, m) ↦ inr (up, Memᴰ.tail m)
  ])
]
