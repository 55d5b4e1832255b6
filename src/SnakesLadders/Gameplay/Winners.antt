-- ===== src/SnakesLadders/Gameplay/Winners.antt =====
-- gameplay.usecases .ts: `isWinner`, `getNumberOfWinners`, `getTotalScore`, `getSum`,
-- `getRemainingPlayers`.
use empire_backend.Base.{
  ℕ, ◌+◌, Bool, false, not, Option, none, some, List, [], ◌∷◌, ltb, ◌==◌, if◌then◌else◌, length,
  find_index, filter,
}
use empire_backend.SnakesLadders.Table.{User, Table}
use empire_backend.SnakesLadders.Table.Turn.{is_user, calculate_total_points_of_my_pawns}

unfoldable pub get_sum : List ℕ → ℕ → ℕ
get_sum [] sum = sum
get_sum (value ∷ score) sum = get_sum score (sum + value)

abbrev pub stays : User → Bool
stays u = not u.did_leave

unfoldable pub get_remaining_players : Table → List User
get_remaining_players t = filter stays t.users

-- `getSum(calculateTotalPointsOfMyPawns(index))`; no pawn has the index -1.
unfoldable pub score_at : Table → Option ℕ → ℕ
unfolding get_sum calculate_total_points_of_my_pawns
score_at t none = 0
score_at t (some index) = get_sum (calculate_total_points_of_my_pawns index t) 0

unfoldable pub get_total_score : Table → ℕ → ℕ
unfolding score_at
get_total_score t user_id = score_at t (find_index (is_user user_id) t.users)

-- The `scores` that `isWinner` and `getNumberOfWinners` collect.
unfoldable pub scores_of : Table → List User → List ℕ
unfolding get_total_score
scores_of t [] = []
scores_of t (u ∷ users) =
    let rest = scores_of t users in if u.did_leave then rest else get_total_score t u.user_id ∷ rest

abbrev pub larger : ℕ → ℕ → ℕ
larger a b = if ltb a b then b else a

abbrev pub max_from : ℕ → List ℕ → ℕ
max_from m [] = m
max_from m (x ∷ xs) = max_from (larger m x) xs

-- `Math.max(...scores)`; `none` is -Infinity.
unfoldable pub max_value : List ℕ → Option ℕ
max_value [] = none
max_value (x ∷ xs) = some (max_from x xs)

abbrev pub equals? : Option ℕ → ℕ → Bool
equals? none s = false
equals? (some m) s = m == s

unfoldable pub is_winner : Table → ℕ → Bool
unfolding scores_of max_value
is_winner t user_score = equals? (max_value (scores_of t t.users)) user_score

unfoldable pub get_number_of_winners : Table → ℕ
unfolding scores_of max_value
get_number_of_winners t =
    let scores = scores_of t t.users in length (filter (equals? (max_value scores)) scores)
