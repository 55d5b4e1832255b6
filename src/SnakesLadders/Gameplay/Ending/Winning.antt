-- ===== src/SnakesLadders/Gameplay/Ending/Winning.antt =====
-- gameplay.usecases .ts: what `isWinner` and `getNumberOfWinners` compute.
use empire_backend.Base.{
  ℕ, zero, suc, ◌≤◌, ◌<◌, ◌≡◌, refl, ◌↔◌, inl, inr, Bool, true, false, not, ◌&&◌, some, List, [],
  ◌∷◌, map, arith, ltb, ◌==◌, length, get_elem?, filter, Bool-cases, ap, sym, subst,
  get_elem?-filter, get_elem?-map, filter-get_elem?, map-get_elem?, length-filter, count_pos,
  ==_self,
}
use empire_backend.SnakesLadders.Table.{User, Table}
use empire_backend.SnakesLadders.Gameplay.Winners.{
  stays, get_total_score, scores_of, larger, max_from, max_value, equals?, is_winner,
  get_number_of_winners,
}

-- The player is at the table and has the greatest score.
abbrev pub wins : Table → User → Bool
wins t u = is_winner t (get_total_score t u.user_id) && not u.did_leave

scores_of-eq :
    (t : Table) (users : List User)
    → scores_of t users ≡ map (λ (u : User). get_total_score t u.user_id) (filter stays users)
unfolding scores_of
scores_of-eq t [] = refl
scores_of-eq t (u ∷ users) = elim (Bool-cases u.did_leave) [
  | inl e ↦ rw e (scores_of-eq t users)
  | inr e ↦ rw (e, scores_of-eq t users)
]

-- The first score and those after it.
max_from-ge :
    (m : ℕ) (xs : List ℕ) (k : ℕ) {x : ℕ} → get_elem? (m ∷ xs) k ≡ some x → x ≤ max_from m xs
max_from-ge m [] zero e = ground arith
max_from-ge m [] (suc k) e = cc
max_from-ge m (y ∷ xs) zero e = let below = max_from-ge (larger m y) xs 0 refl in ground arith
max_from-ge m (y ∷ xs) (suc zero) e = let below = max_from-ge (larger m y) xs 0 refl in ground arith
max_from-ge m (y ∷ xs) (suc (suc k)) e = max_from-ge (larger m y) xs (suc k) e

max_from-get_elem? : (m : ℕ) (xs : List ℕ) → (k : ℕ) × (get_elem? (m ∷ xs) k ≡ some (max_from m xs))
max_from-get_elem? m [] = (0, refl)
max_from-get_elem? m (y ∷ xs) = elim (Bool-cases (ltb m y)) [
  | inl e ↦ let (k, at) = max_from-get_elem? y xs in (suc k, rw e at)
  | inr e ↦ let (k, at) = max_from-get_elem? m xs in max_from-skip m y xs k e at
]
  where
    max_from-skip :
        (m y : ℕ) (xs : List ℕ) (k : ℕ)
        → ltb m y ≡ false
        → get_elem? (m ∷ xs) k ≡ some (max_from m xs)
        → (j : ℕ) × (get_elem? (m ∷ y ∷ xs) j ≡ some (max_from m (y ∷ xs)))
    max_from-skip m y xs zero e at = (zero, rw e at)
    max_from-skip m y xs (suc k) e at = (suc (suc k), rw e at)

-- A score of the list is the maximum just when none is greater.
is_max_iff :
    (scores : List ℕ) (k s : ℕ)
    → get_elem? scores k ≡ some s
    → (equals? (max_value scores) s ≡ true) ↔ ((j x : ℕ) → get_elem? scores j ≡ some x → x ≤ s)
unfolding max_value
is_max_iff [] k s at = cc
is_max_iff (y ∷ scores) k s at = (
  λ e j x h. let below = max_from-ge y scores j h in ground arith,
  λ greatest.
      let (j, top) = max_from-get_elem? y scores in
      let above = max_from-ge y scores k at in let below = greatest j _ top in ground arith,
)

abbrev pub score_of_user : Table → User → ℕ
score_of_user t u = get_total_score t u.user_id

-- The scores are those of the players at the table.
score-scores_of :
    (t : Table) (j : ℕ) (v : User)
    → get_elem? t.users j ≡ some v
    → v.did_leave ≡ false
    → (k : ℕ) × (get_elem? (scores_of t t.users) k ≡ some (score_of_user t v))
score-scores_of t j v at stay =
    let (k, kept) = get_elem?-filter stays t.users j at (rw stay) in
    (k, rw (scores_of-eq t t.users) (get_elem?-map (score_of_user t) (filter stays t.users) k kept))

scores_of-score :
    (t : Table) (k x : ℕ)
    → get_elem? (scores_of t t.users) k ≡ some x
    → (j : ℕ) × ((v : User) × (get_elem? t.users j ≡ some v)
        × (v.did_leave ≡ false)
        × (score_of_user t v ≡ x))
scores_of-score t k x at =
    let (v, kept, e) =
      map-get_elem? (score_of_user t) (filter stays t.users) k
        (subst (λ l. get_elem? l k ≡ some x) (scores_of-eq t t.users) at) in
    let (j, here, pass) = filter-get_elem? stays t.users k kept in (j, (v, here, ground arith, e))

-- `isWinner` together with the test of `didLeave` picks the players who are still at the table and
-- whose score no other such player exceeds.
pub wins_iff :
    (t : Table) (i : ℕ) (u : User)
    → get_elem? t.users i ≡ some u
    → (wins t u ≡ true) ↔ (
        (u.did_leave ≡ false)
        × ((j : ℕ) (v : User)
            → get_elem? t.users j ≡ some v
            → v.did_leave ≡ false
            → score_of_user t v ≤ score_of_user t u))
unfolding is_winner
wins_iff t i u here = (
  λ won.
      let stay : u.did_leave ≡ false = ground arith in
      let top : equals? (max_value (scores_of t t.users)) (score_of_user t u) ≡ true =
        ground arith in
      let (k, at) = score-scores_of t i u here stay in
      (
        stay,
        λ j v there stays_v.
            let (l, at_l) = score-scores_of t j v there stays_v in
            (is_max_iff (scores_of t t.users) k (score_of_user t u) at).0 top l (score_of_user t v)
              at_l,
      ),
  λ (stay, greatest).
      let (k, at) = score-scores_of t i u here stay in
      let top = (is_max_iff (scores_of t t.users) k (score_of_user t u) at).1 (λ l x at_l.
        let (j, (v, there, stays_v, e)) = scores_of-score t l x at_l in
        subst (λ y. y ≤ score_of_user t u) e (greatest j v there stays_v)) in
      rw (top, stay),
)

wins-filter :
    (t : Table) (users : List User)
    → length (filter (wins t) users)
      ≡ length (filter (equals? (max_value (scores_of t t.users))) (scores_of t users))
unfolding is_winner scores_of
wins-filter t [] = refl
wins-filter t (u ∷ users) = elim (Bool-cases u.did_leave) [
  | inl e ↦ elim (Bool-cases (is_winner t (score_of_user t u))) [
    | inl top ↦ rw (e, top) (wins-filter t users)
    | inr top ↦ rw (e, top) (wins-filter t users)
  ]
  | inr e ↦ elim (Bool-cases (is_winner t (score_of_user t u))) [
    | inl top ↦ rw (e, top) (ap suc (wins-filter t users))
    | inr top ↦ rw (e, top) (wins-filter t users)
  ]
]

-- `getNumberOfWinners` counts the players that win.
pub wins-count : (t : Table) → length (filter (wins t) t.users) ≡ get_number_of_winners t
unfolding get_number_of_winners
wins-count t = wins-filter t t.users

max-pos :
    (scores : List ℕ) (k : ℕ) {s : ℕ}
    → get_elem? scores k ≡ some s
    → 0 < length (filter (equals? (max_value scores)) scores)
unfolding max_value
max-pos [] k at = cc
max-pos (y ∷ scores) k at =
    let (j, top) = max_from-get_elem? y scores in
    let m = max_from y scores in
    subst (λ n. 0 < n) (sym (length-filter (λ x. m == x) (y ∷ scores)))
      (count_pos (λ x. m == x) (y ∷ scores) j top (==_self m))

-- With a player at the table there is a winner.
pub winners-pos :
    (t : Table) (i : ℕ) (u : User)
    → get_elem? t.users i ≡ some u
    → u.did_leave ≡ false
    → 0 < get_number_of_winners t
unfolding get_number_of_winners
winners-pos t i u here stay =
    let (k, at) = score-scores_of t i u here stay in max-pos (scores_of t t.users) k at
