-- ===== src/Callbreak.antt =====
-- apps/cbr-gameplay/src: the cards of cbr-gameplay.types.ts and their rules in
-- services/gameplay/common.service.ts. `first_card` is the highest card so far of the colour that
-- is led, and `lead_card` the highest spade on it.
pub mod Tricks
pub mod Possible
mod Tests
use empire_backend.Base.{
  ℕ, ◌-◌, ◌*◌, ◌+◌, Bool, true, false, not, ◌&&◌, ◌||◌, Option, none, some, List, [], ◌∷◌, ◌==◌,
  ltb, if◌then◌else◌, filter, map, find_index, get_elem?,
}
use empire_backend.Base.Results.{Result, ok, type_error, or_throw, ◌>>=◌}
use empire_backend.Base.Int.{ℤ, pos, sub_ℕ}

pub data CardGroup : Type 0 where
  diamond club heart spade : CardGroup

abbrev pub group_number : CardGroup → ℕ
group_number club = 20
group_number heart = 40
group_number diamond = 60
group_number spade = 80

-- 'H,10' is the card of the hearts with the number 10; the numbers go from 2 to 14.
pub record Card : Type 0 where
  pub group : CardGroup
  pub number : ℕ

abbrev pub same_group : Card → Card → Bool
same_group a b = group_number a.group == group_number b.group

abbrev pub is_spade : Card → Bool
is_spade a = group_number a.group == 80

-- `card.currentCard === strongCard`
abbrev pub same_card : Card → Card → Bool
same_card a b = same_group a b && (a.number == b.number)

unfoldable pub can_be_lead_card : Card → Card → Bool
can_be_lead_card lead card = same_group lead card && ltb lead.number card.number

unfoldable pub can_be_first_card : Card → Card → Bool
can_be_first_card first card = same_group first card && ltb first.number card.number

unfoldable pub can_add_lead_card : Card → Card → Bool
can_add_lead_card first card = not (is_spade first) && is_spade card

unfoldable pub compare_cards : Card → Card → Card
compare_cards a b =
    if is_spade a || is_spade b
    then if is_spade a && is_spade b
      then if ltb b.number a.number then a else b
      else if is_spade a
      then a
      else b
    else if ltb b.number a.number
    then a
    else b

-- The loop of `getStrongCard`.
unfoldable pub strongest : Card → Card → List Card → Card
unfolding compare_cards
strongest first strong [] = strong
strongest first strong (c ∷ cards) =
    strongest first (if same_group first c || is_spade c then compare_cards strong c else strong)
      cards

unfoldable pub get_strong_card : Card → List Card → Card
unfolding strongest
get_strong_card first cards = strongest first first cards

pub record Player : Type 0 where
  pub player_id : ℕ
  pub current_card : Card

abbrev pub cards_of : List Player → List Card
cards_of players = map (λ p. p.current_card) players

-- `getWinner`, when each player has thrown a card.
unfoldable pub get_winner : Card → List Player → Result ℕ
unfolding get_strong_card
get_winner first players =
    let strong = get_strong_card first (cards_of players) in
    or_throw (find_index (λ p. same_card strong p.current_card) players) type_error >>= λ i.
    or_throw (get_elem? players i) type_error >>= λ p. ok p.player_id

-- The two cards of a table that a trick keeps.
pub record Trick : Type 0 where
  pub first_card : Card
  pub lead_card? : Option Card

abbrev pub lead_with : Card → Trick → Card → Trick
lead_with card t lead =
    if can_be_lead_card lead card then record t { lead_card? = some card } else t

-- The changes of `firstCard` and `leadCard` by a card that is not the first of the trick.
unfoldable pub throw_on : Card → Trick → Trick
unfolding can_be_first_card can_be_lead_card can_add_lead_card
throw_on card t =
    if can_be_first_card t.first_card card
    then record t { first_card = card }
    else elim t.lead_card? [
      | some lead ↦ lead_with card t lead
      | none ↦
          if can_add_lead_card t.first_card card then record t { lead_card? = some card } else t
    ]

unfoldable pub throw_all : List Card → Trick → Trick
unfolding throw_on
throw_all [] t = t
throw_all (c ∷ cards) t = throw_all cards (throw_on c t)

-- A trick from its first card on.
abbrev pub play : Card → List Card → Trick
play first cards = throw_all cards record { first_card = first; lead_card? = none }

pub record GameCard : Type 0 where
  pub card : Card
  pub thrown : Bool

unfoldable pub get_remaining_cards : List GameCard → List Card
get_remaining_cards cards = map (λ c. c.card) (filter (λ c. not c.thrown) cards)

abbrev pub or_else : List Card → List Card → List Card
or_else [] cards = cards
or_else (c ∷ cs) cards = c ∷ cs

-- The filters that `getPossibleCards` tries one after the other.
unfoldable pub choices : Trick → List Card → List Card
choices t remaining = elim t.lead_card? [
  | some lead ↦
      or_else (filter (same_group t.first_card) remaining)
        (filter (λ c. is_spade c && ltb lead.number c.number) remaining)
  | none ↦
      or_else
        (filter (λ c. same_group t.first_card c && ltb t.first_card.number c.number) remaining)
        (or_else (filter (same_group t.first_card) remaining) (filter is_spade remaining))
]

-- `getPossibleCards`; there is no trick before its first card.
unfoldable pub get_possible_cards : Option Trick → List Card → List Card
unfolding choices
get_possible_cards none remaining = remaining
get_possible_cards (some t) remaining = or_else (choices t remaining) remaining

-- in tenths
unfoldable pub get_round_score : ℕ → ℕ → ℤ
get_round_score current hand_bid =
    if ltb current hand_bid
    then sub_ℕ 0 (hand_bid * 10)
    else pos (hand_bid * 10 + (current - hand_bid))
