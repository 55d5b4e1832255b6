-- ===== src/Callbreak/Possible.antt =====
-- common.service.ts: which cards `getPossibleCards` lets a player throw.
use empire_backend.Base.{
  ◌≡◌, refl, sym, ap, subst, ◌∙◌, Bool, true, false, ◌&&◌, inl, inr, Option, none, some, List, [],
  ◌∷◌, ltb, if◌then◌else◌, filter, any, All, Bool-cases, both, arith,
}
use empire_backend.Callbreak.{
  Card, same_group, is_spade, Trick, or_else, choices, get_possible_cards,
}

-- A card that is higher than the highest of the colour led.
abbrev pub beats : Card → Card → Bool
beats first c = same_group first c && ltb first.number c.number

abbrev pub over : Card → Card → Bool
over lead c = is_spade c && ltb lead.number c.number

-- What the player must do on a trick without a lead card, and on one with it.
abbrev pub IsForced : Trick → List Card → List Card → Option Card → Type 0
IsForced t remaining possible none =
    (any (beats t.first_card) remaining ≡ true → All (λ c. beats t.first_card c ≡ true) possible)
    × (any (same_group t.first_card) remaining ≡ false
        → any is_spade remaining ≡ true
        → All (λ c. is_spade c ≡ true) possible)
IsForced t remaining possible (some lead) =
    any (same_group t.first_card) remaining ≡ false
    → any (over lead) remaining ≡ true
    → All (λ c. over lead c ≡ true) possible

-- The possible cards are of the player, there is one if the player has a card, the colour led is
-- followed if it can be, and the card is beaten if it must be.
pub record IsLegal (t : Trick) (remaining possible : List Card) : Type 0 where
  pub owned : (p : Card → Bool) → any p possible ≡ true → any p remaining ≡ true
  pub some_card : any (λ c. true) remaining ≡ true → any (λ c. true) possible ≡ true
  pub follows :
      any (same_group t.first_card) remaining ≡ true
      → All (λ c. same_group t.first_card c ≡ true) possible
  pub forced : IsForced t remaining possible t.lead_card?

All-filter : (p : Card → Bool) (cards : List Card) → All (λ c. p c ≡ true) (filter p cards)
All-filter p [] = tt
All-filter p (c ∷ cards) = elim (Bool-cases (p c)) [
  | inl hit ↦ rw hit (hit, All-filter p cards)
  | inr miss ↦ rw miss (All-filter p cards)
]

filter-none : (p : Card → Bool) (cards : List Card) → any p cards ≡ false → filter p cards ≡ []
filter-none p [] h = refl
filter-none p (c ∷ cards) h = ground (arith, filter-none p cards)

or_else-filter :
    (p : Card → Bool) (cards rest : List Card)
    → any p cards ≡ true
    → or_else (filter p cards) rest ≡ filter p cards
or_else-filter p [] rest h = cc
or_else-filter p (c ∷ cards) rest h = elim (Bool-cases (p c)) [
  | inl hit ↦ rw hit refl
  | inr miss ↦ rw miss (or_else-filter p cards rest (rw miss at h))
]

any-filter :
    (q p : Card → Bool) (cards : List Card) → any q (filter p cards) ≡ true → any q cards ≡ true
any-filter q p [] h = cc
any-filter q p (c ∷ cards) h = ground (arith, any-filter q p cards)

any-filter-true :
    (p : Card → Bool) (cards : List Card)
    → any p cards ≡ true
    → any (λ c. true) (filter p cards) ≡ true
any-filter-true p [] h = cc
any-filter-true p (c ∷ cards) h = ground (arith, any-filter-true p cards)

-- The rule that decides.
rule : Card → List Card → Option Card → Card → Bool
rule first remaining none =
    if any (beats first) remaining
    then beats first
    else if any (same_group first) remaining
    then same_group first
    else if any is_spade remaining
    then is_spade
    else λ c. true
rule first remaining (some lead) =
    if any (same_group first) remaining
    then same_group first
    else if any (over lead) remaining
    then over lead
    else λ c. true

or_else_assoc : (a b c : List Card) → or_else (or_else a b) c ≡ or_else a (or_else b c)
or_else_assoc [] b c = refl
or_else_assoc (x ∷ a) b c = refl

filter_all : (cards : List Card) → filter (λ c. true) cards ≡ cards
filter_all [] = refl
filter_all (c ∷ cards) = rw (filter_all cards)

-- A filter that finds nothing leaves the choice to the next.
or_else-if :
    (p q : Card → Bool) (cards rest : List Card)
    → rest ≡ filter q cards
    → or_else (filter p cards) rest ≡ filter (if any p cards then p else q) cards
or_else-if p q cards rest e = elim (Bool-cases (any p cards)) [
  | inl hit ↦ rw hit (or_else-filter p cards rest hit)
  | inr miss ↦ rw (miss, filter-none p cards miss) e
]

get_possible_cards-eq :
    (first : Card) (lead? : Option Card) (remaining : List Card)
    → get_possible_cards (some record { first_card = first; lead_card? = lead? }) remaining
      ≡ filter (rule first remaining lead?) remaining
unfolding get_possible_cards choices rule
get_possible_cards-eq first none remaining =
    or_else_assoc (filter (beats first) remaining) _ remaining
    ∙ or_else-if (beats first) _ remaining _ (
        or_else_assoc (filter (same_group first) remaining) _ remaining
        ∙ or_else-if (same_group first) _ remaining _
            (or_else-if is_spade (λ c. true) remaining remaining (sym (filter_all remaining))))
get_possible_cards-eq first (some lead) remaining =
    or_else_assoc (filter (same_group first) remaining) _ remaining
    ∙ or_else-if (same_group first) _ remaining _
        (or_else-if (over lead) (λ c. true) remaining remaining (sym (filter_all remaining)))

or_else-some :
    (cards rest : List Card)
    → any (λ c. true) rest ≡ true
    → any (λ c. true) (or_else cards rest) ≡ true
or_else-some [] rest h = h
or_else-some (c ∷ cards) rest h = refl

-- The cards of a filter all pass another test that is weaker.
All-filter_weaker :
    (p q : Card → Bool) (cards : List Card)
    → ((c : Card) → p c ≡ true → q c ≡ true)
    → All (λ c. q c ≡ true) (filter p cards)
All-filter_weaker p q [] h = tt
All-filter_weaker p q (c ∷ cards) h = elim (Bool-cases (p c)) [
  | inl hit ↦ rw hit (h c hit, All-filter_weaker p q cards h)
  | inr miss ↦ rw miss (All-filter_weaker p q cards h)
]

rule-follows :
    (first : Card) (lead? : Option Card) (remaining : List Card)
    → any (same_group first) remaining ≡ true
    → (c : Card) → rule first remaining lead? c ≡ true
    → same_group first c ≡ true
unfolding rule
rule-follows first none remaining h c allowed = elim (Bool-cases (any (beats first) remaining)) [
  | inl higher ↦ (both (same_group first c) (ltb first.number c.number) (rw higher at allowed)).0
  | inr lower ↦ rw (lower, h) at allowed
]
rule-follows first (some lead) remaining h c allowed = rw h at allowed

beats-none :
    (first : Card) (cards : List Card)
    → any (same_group first) cards ≡ false
    → any (beats first) cards ≡ false
beats-none first [] h = refl
beats-none first (c ∷ cards) h = elim (Bool-cases (same_group first c)) [
  | inl same ↦ absurd (cc (rw same at h))
  | inr other ↦ rw other (beats-none first cards (rw other at h))
]

rule-IsForced :
    (first : Card) (lead? : Option Card) (remaining : List Card)
    → IsForced
        record { first_card = first; lead_card? = lead? }
        remaining
        (filter (rule first remaining lead?) remaining)
        lead?
unfolding rule
rule-IsForced first none remaining = (
  λ higher. rw higher (All-filter (beats first) remaining),
  λ none_led spades.
      rw (beats-none first remaining none_led, none_led, spades) (All-filter is_spade remaining),
)
rule-IsForced first (some lead) remaining =
    λ none_led higher. rw (none_led, higher) (All-filter (over lead) remaining)

-- On a trick that has begun, the cards that a player may throw are among those that are left; there
-- is one if a card is left; the colour led is followed if it can be; on a trick without a lead card
-- a higher card of the colour is thrown if there is one, and a spade if there is none of the colour;
-- on one with a lead card a higher spade is thrown if there is none of the colour.
pub get_possible_cards-IsLegal :
    (t : Trick) (remaining : List Card)
    → IsLegal t remaining (get_possible_cards (some t) remaining)
unfolding get_possible_cards
get_possible_cards-IsLegal t remaining =
    let e = get_possible_cards-eq t.first_card t.lead_card? remaining in
    let allowed = rule t.first_card remaining t.lead_card? in
    record {
      owned = λ p h. any-filter p allowed remaining (ap (any p) (sym e) ∙ h);
      some_card = or_else-some (choices t remaining) remaining;
      follows = λ h. subst (All (λ c. same_group t.first_card c ≡ true)) (sym e) (
          All-filter_weaker allowed (same_group t.first_card) remaining
            (rule-follows t.first_card t.lead_card? remaining h));
      forced =
          subst (λ l. IsForced t remaining l t.lead_card?) (sym e)
            (rule-IsForced t.first_card t.lead_card? remaining);
    }
