-- ===== src/Callbreak/Tricks/Strong.antt =====
-- common.service.ts: the card that `getStrongCard` picks is the one that the table has kept.
use empire_backend.Base.{
  ◌≤◌, ◌≡◌, refl, sym, ap, ◌∙◌, Bool, true, false, ◌||◌, inl, inr, Option, none, some, List, [],
  ◌∷◌, ◌++◌, ◌==◌, if◌then◌else◌, Bool-cases, ==_iff, both, arith,
}
use empire_backend.Callbreak.{
  CardGroup, group_number, Card, same_group, is_spade, same_card, compare_cards, strongest,
  get_strong_card, Trick, play,
}
use empire_backend.Callbreak.Tricks.{
  member, IsTop, FirstTop, LeadTop, any-swap, any-rotate, IsTop-same, throw_all-IsTop,
}

abbrev pub best : Trick → Card
best t = elim t.lead_card? [ none ↦ t.first_card | some lead ↦ lead ]

group-eq : (g h : CardGroup) → group_number g ≡ group_number h → g ≡ h
group-eq g h e = ground arith

Card-ext : (a b : Card) → a.group ≡ b.group → a.number ≡ b.number → a ≡ b
Card-ext a b p q i = record { group = p i; number = q i }

pub same_card-eq : (a b : Card) → same_card a b ≡ true → a ≡ b
same_card-eq a b h =
    let (group, number) = both (same_group a b) (a.number == b.number) h in
    Card-ext a b (group-eq a.group b.group ((==_iff _ _).0 group)) ((==_iff _ _).0 number)

-- One round of `getStrongCard`.
abbrev round : Card → Card → Card → Card
round first strong c = if same_group first c || is_spade c then compare_cards strong c else strong

same_card_self : (c : Card) → same_card c c ≡ true
same_card_self c = ground arith

round-first :
    (first c : Card)
    → (same_group first c ≡ true → c.number ≤ first.number)
    → (is_spade c ≡ true → is_spade first ≡ true)
    → round first first c ≡ first
unfolding compare_cards
round-first first c top spades = elim (Bool-cases (same_card c first)) [
  | inl same ↦ rw (same_card-eq c first same) (ground arith)
  | inr other ↦ ground arith
]

round-lead :
    (first lead c : Card)
    → is_spade first ≡ false
    → is_spade lead ≡ true
    → (is_spade c ≡ true → c.number ≤ lead.number)
    → round first lead c ≡ lead
unfolding compare_cards
round-lead first lead c plain is_lead top = elim (Bool-cases (same_card c lead)) [
  | inl same ↦ rw (same_card-eq c lead same) (ground arith)
  | inr other ↦ ground arith
]

round-reach :
    (first lead s : Card)
    → is_spade lead ≡ true
    → (is_spade s ≡ true → s.number ≤ lead.number)
    → round first s lead ≡ lead
unfolding compare_cards
round-reach first lead s is_lead below = ground arith

round-below :
    (first lead s c : Card)
    → (is_spade s ≡ true → s.number ≤ lead.number)
    → (is_spade c ≡ true → c.number ≤ lead.number)
    → is_spade (round first s c) ≡ true
    → (round first s c).number ≤ lead.number
unfolding compare_cards
round-below first lead s c below top h = ground arith

member-head : (c : Card) (cards : List Card) → member (c ∷ cards) c ≡ true
member-head c cards = rw (same_card_self c) refl

member-tail : (x c : Card) (cards : List Card) → member cards x ≡ true → member (c ∷ cards) x ≡ true
member-tail x c cards h = ground arith

strongest-kept :
    (first s : Card) (cards : List Card)
    → ((c : Card) → member cards c ≡ true → round first s c ≡ s)
    → strongest first s cards ≡ s
unfolding strongest
strongest-kept first s [] h = refl
strongest-kept first s (c ∷ cards) h =
    ap (λ k. strongest first k cards) (h c (member-head c cards))
    ∙ strongest-kept first s cards (λ x there. h x (member-tail x c cards there))

strongest-reached :
    (first lead s : Card) (cards : List Card)
    → is_spade first ≡ false
    → is_spade lead ≡ true
    → (is_spade s ≡ true → s.number ≤ lead.number)
    → ((x : Card) → member cards x ≡ true → is_spade x ≡ true → x.number ≤ lead.number)
    → member cards lead ≡ true
    → strongest first s cards ≡ lead
unfolding strongest
strongest-reached first lead s [] plain is_lead below top there = cc
strongest-reached first lead s (c ∷ cards) plain is_lead below top there =
    let rest_top : (x : Card) → member cards x ≡ true → is_spade x ≡ true → x.number ≤ lead.number =
      λ x h. top x (member-tail x c cards h) in
    elim (Bool-cases (same_card lead c)) [
      | inl same ↦
          let is_c = same_card-eq lead c same in
          ap (λ k. strongest first k cards)
            (ap (round first s) (sym is_c) ∙ round-reach first lead s is_lead below)
          ∙ strongest-kept first lead cards
              (λ x h. round-lead first lead x plain is_lead (rest_top x h))
      | inr other ↦
          strongest-reached first lead (round first s c) cards plain is_lead
            (round-below first lead s c below (top c (member-head c cards))) rest_top
            (rw other at there)
    ]

IsTop-strong :
    (cards : List Card) (first : Card) (lead? : Option Card)
    → IsTop (member cards) record { first_card = first; lead_card? = lead? }
    → get_strong_card first cards ≡ best record { first_card = first; lead_card? = lead? }
unfolding IsTop FirstTop LeadTop get_strong_card
IsTop-strong cards first none ((_, top), spades) =
    strongest-kept first first cards (λ c there. round-first first c (top c there) (spades c there))
IsTop-strong cards first (some lead) ((_, top), (plain, is_lead, there, below)) =
    strongest-reached first lead first cards plain is_lead (λ spade. cc (plain, spade)) below there

first-IsTop : (c : Card) → IsTop (member (c ∷ [])) record { first_card = c; lead_card? = none }
unfolding IsTop FirstTop LeadTop
first-IsTop c =
    ((member-head c [], (λ x there same. ground arith)), (λ x there spade. ground arith))

-- The members and the order of a trick, from the order of the seats.
pub play-IsTop :
    (c : Card) (ys xs : List Card) → IsTop (member (xs ++ (c ∷ ys))) (play c (ys ++ xs))
play-IsTop c ys xs =
    IsTop-same (member ((ys ++ xs) ++ (c ∷ []))) (member (xs ++ (c ∷ ys))) (play c (ys ++ xs))
      (λ x.
        any-swap x c xs ys
        ∙ ap (λ b. same_card x c || b) (any-rotate x xs ys)
        ∙ sym (any-rotate x (ys ++ xs) (c ∷ [])))
      (throw_all-IsTop (ys ++ xs) (c ∷ []) record { first_card = c; lead_card? = none }
        (first-IsTop c))

-- Whoever begins a trick, `getStrongCard` picks among its cards, in the order of the seats, the lead
-- card that the table has kept, or the first card if there is no lead card.
pub get_strong_card-play :
    (c : Card) (ys xs : List Card)
    → get_strong_card (play c (ys ++ xs)).first_card (xs ++ (c ∷ ys)) ≡ best (play c (ys ++ xs))
get_strong_card-play c ys xs =
    IsTop-strong (xs ++ (c ∷ ys)) (play c (ys ++ xs)).first_card (play c (ys ++ xs)).lead_card?
      (play-IsTop c ys xs)

best-member :
    (m : Card → Bool) (first : Card) (lead? : Option Card)
    → IsTop m record { first_card = first; lead_card? = lead? }
    → m (best record { first_card = first; lead_card? = lead? }) ≡ true
unfolding IsTop FirstTop LeadTop
best-member m first none ((there, _), _) = there
best-member m first (some lead) (_, (_, _, there, _)) = there

pub play-member :
    (c : Card) (ys xs : List Card) → member (xs ++ (c ∷ ys)) (best (play c (ys ++ xs))) ≡ true
play-member c ys xs =
    best-member (member (xs ++ (c ∷ ys))) (play c (ys ++ xs)).first_card
      (play c (ys ++ xs)).lead_card? (play-IsTop c ys xs)
