-- ===== src/SnakesLadders/Table/Move/EndGame.antt =====
-- `shouldEndGame`: the map of counts says when a player has both pawns home.
use empire_backend.Base.{
  ℕ, ◌+◌, ◌<◌, ◌≡◌, refl, ◌↔◌, inl, inr, Bool, true, false, ◌&&◌, ◌||◌, List, [], ◌∷◌, arith, ◌==◌,
  if◌then◌else◌, any, count, Bool-cases, ==_iff,
}
use empire_backend.SnakesLadders.Types.{is_home}
use empire_backend.SnakesLadders.Pawn.{Pawn}
use empire_backend.SnakesLadders.Table.{Table}
use empire_backend.SnakesLadders.Table.Turn.{is_of}
use empire_backend.SnakesLadders.Table.Move.{bump, count_home_pawns, should_end_game}

-- `playerIndexCount.get(k) || 0`
abbrev value_at : ℕ → List (ℕ × ℕ) → ℕ
value_at k [] = 0
value_at k ((j, n) ∷ m) = if j == k then n else value_at k m

-- Each key stands once, with a count above 0.
abbrev AreCounts : List (ℕ × ℕ) → Type 0
AreCounts [] = Unit {0}
AreCounts ((j, n) ∷ m) = (0 < n) × (value_at j m ≡ 0) × AreCounts m

value_at-bump :
    (k j : ℕ) (m : List (ℕ × ℕ))
    → value_at j (bump k m) ≡ (if k == j then value_at j m + 1 else value_at j m)
unfolding bump
value_at-bump k j [] = ground arith
value_at-bump k j ((i, n) ∷ m) = ground (arith, value_at-bump k j m)

bump-AreCounts : (k : ℕ) (m : List (ℕ × ℕ)) → AreCounts m → AreCounts (bump k m)
unfolding bump
bump-AreCounts k [] h = omega arith
bump-AreCounts k ((i, n) ∷ m) h = ground (arith, bump-AreCounts k m, value_at-bump k i m)

abbrev is_home_of : ℕ → Pawn → Bool
is_home_of k p = is_of k p && is_home p.position

value_at-count_home_pawns :
    (k : ℕ) (pawns : List Pawn) (m : List (ℕ × ℕ))
    → value_at k (count_home_pawns pawns m) ≡ value_at k m + count (is_home_of k) pawns
unfolding count_home_pawns
value_at-count_home_pawns k [] m = omega arith
value_at-count_home_pawns k (p ∷ pawns) m = ground (
  arith,
  value_at-count_home_pawns k pawns (if is_home p.position then bump p.player_index m else m),
  value_at-bump p.player_index k m,
)

count_home_pawns-AreCounts :
    (pawns : List Pawn) (m : List (ℕ × ℕ)) → AreCounts m → AreCounts (count_home_pawns pawns m)
unfolding count_home_pawns
count_home_pawns-AreCounts [] m h = h
count_home_pawns-AreCounts (p ∷ pawns) m h =
    count_home_pawns-AreCounts pawns _ (step (is_home p.position))
  where
    step : (b : Bool) → AreCounts (if b then bump p.player_index m else m)
    step true = bump-AreCounts p.player_index m h
    step false = h

abbrev is_two : ℕ × ℕ → Bool
is_two e = e.1 == 2

any-is_two :
    (m : List (ℕ × ℕ)) → AreCounts m → (any is_two m ≡ true) ↔ ((k : ℕ) × (value_at k m ≡ 2))
any-is_two [] h = (λ e. cc, λ e. absurd (omega (arith, e.1)))
any-is_two ((j, n) ∷ m) h =
    let (to, from) = any-is_two m h.2 in
    (
      (λ e. elim (Bool-cases (n == 2)) [
        | inl two ↦ (j, ground arith)
        | inr other ↦ let (k, at) = to (rw other at e) in (k, ground arith)
      ]),
      (λ e. elim (Bool-cases (j == e.0)) [
        | inl same ↦ let two : n ≡ 2 = rw same at e.1 in rw ((==_iff n 2).1 two) refl
        | inr other ↦ let later = from (e.0, rw other at e.1) in right (n == 2) _ later
      ]),
    )
  where
    right : (a b : Bool) → b ≡ true → (a || b) ≡ true
    right true b r = refl
    right false b r = r

-- `shouldEndGame` holds exactly when some player has just two pawns in the home, so for two pawns a
-- player exactly when somebody has brought all pawns home.
pub should_end_game_iff :
    (t : Table)
    → (should_end_game t ≡ true)
      ↔ ((k : ℕ) × (count (λ p. is_of k p && is_home p.position) t.pawns ≡ 2))
unfolding should_end_game
should_end_game_iff t =
    let (to, from) =
      any-is_two (count_home_pawns t.pawns []) (count_home_pawns-AreCounts t.pawns [] tt) in
    let counted = λ (k : ℕ). value_at-count_home_pawns k t.pawns [] in
    (
      (λ e. let (k, at) = to e in (k, omega (arith, counted k))),
      (λ h. from (h.0, omega (arith, counted h.0, h.1))),
    )
