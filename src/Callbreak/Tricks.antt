-- ===== src/Callbreak/Tricks.antt =====
-- common.service.ts and cbr-gameplay.gateway.ts: the two cards that a table keeps while the cards
-- of a trick are thrown.
pub mod Strong
pub mod Winner
use empire_backend.Base.{
  ℕ, suc, ◌+◌, ◌≤◌, ◌<◌, ◌≡◌, refl, sym, ap, subst, ◌∙◌, Bool, true, false, not, ◌&&◌, ◌||◌, inl,
  inr, Option, none, some, List, [], ◌∷◌, ◌++◌, ◌==◌, ltb, if◌then◌else◌, any, append-nil,
  Bool-cases, ==_iff, ==_self, both, arith,
}
use empire_backend.Callbreak.{
  CardGroup, group_number, Card, same_group, is_spade, same_card, can_be_lead_card,
  can_be_first_card, can_add_lead_card, compare_cards, strongest, get_strong_card, Trick, lead_with,
  throw_on, throw_all, play,
}

abbrev pub member : List Card → Card → Bool
member cards x = any (same_card x) cards

-- The lead card is the highest spade of the cards, if the first card is not a spade.
unfoldable pub LeadTop : (Card → Bool) → Card → Option Card → Type 0
LeadTop m first none = (x : Card) → m x ≡ true → is_spade x ≡ true → is_spade first ≡ true
LeadTop m first (some lead) =
    (is_spade first ≡ false)
    × (is_spade lead ≡ true)
    × (m lead ≡ true)
    × ((x : Card) → m x ≡ true → is_spade x ≡ true → x.number ≤ lead.number)

unfoldable pub FirstTop : (Card → Bool) → Card → Type 0
FirstTop m first =
    (m first ≡ true)
    × ((x : Card) → m x ≡ true → same_group first x ≡ true → x.number ≤ first.number)

unfoldable pub IsTop : (Card → Bool) → Trick → Type 0
unfolding LeadTop FirstTop
IsTop m t = FirstTop m t.first_card × LeadTop m t.first_card t.lead_card?

abbrev pub with_card : Card → (Card → Bool) → Card → Bool
with_card c m x = same_card x c || m x

first-step :
    (m : Card → Bool) (first c : Card)
    → FirstTop m first
    → (can_be_first_card first c ≡ true → FirstTop (with_card c m) c)
      × (can_be_first_card first c ≡ false → FirstTop (with_card c m) first)
unfolding FirstTop can_be_first_card
first-step m first c h = grind arith

lead-step :
    (m : Card → Bool) (first c lead : Card)
    → LeadTop m first (some lead)
    → (can_be_lead_card lead c ≡ true → LeadTop (with_card c m) first (some c))
      × (can_be_lead_card lead c ≡ false → LeadTop (with_card c m) first (some lead))
unfolding LeadTop can_be_lead_card
lead-step m first c lead h = grind arith

-- A card that is the highest of the colour led keeps the lead card what it is.
higher-step :
    (m : Card → Bool) (first c : Card) (lead? : Option Card)
    → can_be_first_card first c ≡ true
    → LeadTop m first lead?
    → LeadTop (with_card c m) c lead?
unfolding LeadTop can_be_first_card
higher-step m first c none can h = grind arith
higher-step m first c (some lead) can h = grind arith

add-step :
    (m : Card → Bool) (first c : Card)
    → LeadTop m first none
    → (can_add_lead_card first c ≡ true → LeadTop (with_card c m) first (some c))
      × (can_add_lead_card first c ≡ false → LeadTop (with_card c m) first none)
unfolding LeadTop can_add_lead_card
add-step m first c h = grind arith

throw_on-IsTop :
    (m : Card → Bool) (c first : Card) (lead? : Option Card)
    → IsTop m record { first_card = first; lead_card? = lead? }
    → IsTop (with_card c m) (throw_on c record { first_card = first; lead_card? = lead? })
unfolding IsTop throw_on
throw_on-IsTop m c first none (top, lead) = elim (Bool-cases (can_be_first_card first c)) [
  | inl can ↦ rw can ((first-step m first c top).0 can, higher-step m first c none can lead)
  | inr cannot ↦ elim (Bool-cases (can_add_lead_card first c)) [
    | inl add ↦
        rw (cannot, add) ((first-step m first c top).1 cannot, (add-step m first c lead).0 add)
    | inr skip ↦
        rw (cannot, skip) ((first-step m first c top).1 cannot, (add-step m first c lead).1 skip)
  ]
]
throw_on-IsTop m c first (some l) (top, lead) = elim (Bool-cases (can_be_first_card first c)) [
  | inl can ↦ rw can ((first-step m first c top).0 can, higher-step m first c (some l) can lead)
  | inr cannot ↦ elim (Bool-cases (can_be_lead_card l c)) [
    | inl higher ↦
        rw (cannot, higher)
          ((first-step m first c top).1 cannot, (lead-step m first c l lead).0 higher)
    | inr lower ↦
        rw (cannot, lower)
          ((first-step m first c top).1 cannot, (lead-step m first c l lead).1 lower)
  ]
]

pub any-swap :
    (x c : Card) (cards seen : List Card)
    → member (cards ++ (c ∷ seen)) x ≡ with_card c (member (cards ++ seen)) x
any-swap x c [] seen = refl
any-swap x c (d ∷ cards) seen = ground (arith, any-swap x c cards seen)

pub any-rotate : (x : Card) (xs ys : List Card) → member (xs ++ ys) x ≡ member (ys ++ xs) x
any-rotate x [] ys = ap (λ l. member l x) (sym (append-nil ys))
any-rotate x (d ∷ xs) ys =
    ap (λ b. same_card x d || b) (any-rotate x xs ys) ∙ sym (any-swap x d ys xs)

-- Only the members matter.
pub IsTop-same : (m n : Card → Bool) (t : Trick) → ((x : Card) → n x ≡ m x) → IsTop m t → IsTop n t
unfolding IsTop FirstTop LeadTop
IsTop-same m n t same h = subst (λ k. IsTop k t) (λ i x. (sym (same x)) i) h

pub throw_all-IsTop :
    (cards seen : List Card) (t : Trick)
    → IsTop (member seen) t
    → IsTop (member (cards ++ seen)) (throw_all cards t)
unfolding throw_all
throw_all-IsTop [] seen t h = h
throw_all-IsTop (c ∷ cards) seen t h =
    IsTop-same (member (cards ++ (c ∷ seen))) (member (c ∷ (cards ++ seen))) _
      (λ x. sym (any-swap x c cards seen))
      (throw_all-IsTop cards (c ∷ seen) (throw_on c t)
        (throw_on-IsTop (member seen) c t.first_card t.lead_card? h))
