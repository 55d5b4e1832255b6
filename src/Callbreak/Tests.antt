-- ===== src/Callbreak/Tests.antt =====
-- Runs of the rules of Callbreak, and the theorems on them at concrete cards.
use empire_backend.Base.{ℕ, ◌≡◌, refl, some, List, [], ◌∷◌, get_elem?}
use empire_backend.Base.Results.{ok}
use empire_backend.Base.Int.{pos}
use empire_backend.Callbreak.{
  heart, spade, Card, Player, get_winner, Trick, play, throw_all, can_be_first_card,
  can_be_lead_card, can_add_lead_card, get_possible_cards, get_round_score,
}
use empire_backend.Callbreak.Tricks.Winner.{get_winner-play}
use empire_backend.Callbreak.Possible.{IsLegal, get_possible_cards-IsLegal}

abbrev h : ℕ → Card
h n = record { group = heart; number = n }

abbrev s : ℕ → Card
s n = record { group = spade; number = n }

-- The third player has no heart and no spade above the lead card, and throws a lower one.
abbrev trick : Trick
trick = record { first_card = h 9; lead_card? = some (s 5) }

play_keeps_the_lead : play (h 4) (h 9 ∷ s 5 ∷ s 3 ∷ []) ≡ trick
unfolding throw_all can_be_first_card can_be_lead_card can_add_lead_card
play_keeps_the_lead = refl

five_for_four : get_round_score 5 4 ≡ pos 41
unfolding get_round_score
five_for_four = refl

abbrev players : List Player
players =
    record { player_id = 1; current_card = s 5 }
    ∷ record { player_id = 2; current_card = s 3 }
    ∷ record { player_id = 3; current_card = h 4 }
    ∷ record { player_id = 4; current_card = h 9 }
    ∷ []

-- The third player begins.
get_winner-play_example :
    (i : ℕ) × (p : Player) × (get_elem? players i ≡ some p)
    × (p.current_card ≡ s 5)
    × (get_winner (h 9) players ≡ ok p.player_id)
unfolding throw_all can_be_first_card can_be_lead_card can_add_lead_card
get_winner-play_example = get_winner-play (h 4) (h 9 ∷ []) (s 5 ∷ s 3 ∷ []) players refl

get_possible_cards-IsLegal_example :
    IsLegal trick (s 3 ∷ s 7 ∷ []) (get_possible_cards (some trick) (s 3 ∷ s 7 ∷ []))
get_possible_cards-IsLegal_example = get_possible_cards-IsLegal trick (s 3 ∷ s 7 ∷ [])
