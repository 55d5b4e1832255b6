-- ===== src/Callbreak/Tricks/Winner.antt =====
-- common.service.ts: `getWinner`.
use empire_backend.Base.{
  ℕ, suc, ◌≡◌, refl, sym, ap, ◌∙◌, true, inl, inr, some, List, [], ◌∷◌, ◌++◌, get_elem?, find_index,
  find_index-get_elem?, Bool-cases,
}
use empire_backend.Base.Results.{ok}
use empire_backend.Callbreak.{Card, same_card, get_strong_card, play, Player, get_winner, cards_of}
use empire_backend.Callbreak.Tricks.{member}
use empire_backend.Callbreak.Tricks.Strong.{best, get_strong_card-play, play-member, same_card-eq}

find_index-any :
    (x : Card) (players : List Player)
    → member (cards_of players) x ≡ true
    → (i : ℕ) × (find_index (λ p. same_card x p.current_card) players ≡ some i)
find_index-any x [] h = cc
find_index-any x (p ∷ players) h = elim (Bool-cases (same_card x p.current_card)) [
  | inl hit ↦ (0, rw hit refl)
  | inr miss ↦
      let (i, found) = find_index-any x players (rw miss at h) in (suc i, rw (miss, found) refl)
]

get_winner-eq :
    (first : Card) (players : List Player) (i : ℕ) (p : Player)
    → find_index (λ p. same_card (get_strong_card first (cards_of players)) p.current_card) players
      ≡ some i
    → get_elem? players i ≡ some p
    → get_winner first players ≡ ok p.player_id
unfolding get_winner
get_winner-eq first players i p found here = rw (found, here) refl

-- Of the players whose cards are those of a trick, in the order of the seats and whoever began, the
-- winner is one whose card is the lead card that the table has kept, or the first card if there is no
-- lead card.
pub get_winner-play :
    (c : Card) (ys xs : List Card) (players : List Player)
    → cards_of players ≡ xs ++ (c ∷ ys)
    → (i : ℕ) × (p : Player) × (get_elem? players i ≡ some p)
      × (p.current_card ≡ best (play c (ys ++ xs)))
      × (get_winner (play c (ys ++ xs)).first_card players ≡ ok p.player_id)
get_winner-play c ys xs players cards =
    let strong = get_strong_card (play c (ys ++ xs)).first_card (cards_of players) in
    let is_best : strong ≡ best (play c (ys ++ xs)) =
      ap (get_strong_card (play c (ys ++ xs)).first_card) cards ∙ get_strong_card-play c ys xs in
    let there : member (cards_of players) strong ≡ true =
      ap (member (cards_of players)) is_best
      ∙ ap (λ l. member l (best (play c (ys ++ xs)))) cards
      ∙ play-member c ys xs in
    let (i, found) = find_index-any strong players there in
    let (p, here, same) =
      find_index-get_elem? (λ p. same_card strong p.current_card) players i found in
    (
      i,
      p,
      here,
      sym (same_card-eq strong p.current_card same) ∙ is_best,
      get_winner-eq (play c (ys ++ xs)).first_card players i p found here,
    )
