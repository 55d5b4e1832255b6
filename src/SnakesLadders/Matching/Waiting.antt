-- ===== src/SnakesLadders/Matching/Waiting.antt =====
-- gameplay.usecases .ts: the waiting table that a user is shown.
use mathlib.Core.Option.{get_or}
use empire_backend.Base.{
  ℕ, zero, suc, ◌≤◌, ◌≡◌, refl, Bool, List, [], ◌∷◌, ◌==◌, length, take, drop, any, find?,
  Bool-cases, inl, inr, arith, ◌<◌, All,
}
use empire_backend.SnakesLadders.Matching.{WaitingInfo, id_of, flatten, get_waiting_table_users}
use empire_backend.SnakesLadders.Matching.Chunks.{tables_of, flatten-tables_of, tables_of-sizes}

abbrev pub has_user : ℕ → List WaitingInfo → Bool
has_user user_id table = any (λ v. id_of v == user_id) table

table-from :
    (fuel : ℕ) (ws : List WaitingInfo) (user_id max_player : ℕ)
    → get_waiting_table_users fuel ws user_id max_player
      ≡ get_or (find? (has_user user_id) (tables_of fuel max_player ws)) []
unfolding get_waiting_table_users tables_of
table-from fuel [] user_id max_player = refl
table-from zero (w ∷ ws) user_id max_player = refl
table-from (suc fuel) (w ∷ ws) user_id max_player =
    elim (Bool-cases (has_user user_id (take max_player (w ∷ ws)))) [
      | inl here ↦ rw here
      | inr away ↦ rw away (table-from fuel (drop max_player (w ∷ ws)) user_id max_player)
    ]

-- The waiting table that a user is shown is the first with the user among the tables that the
-- queue, in its order, is cut into, or empty where no table has the user; the tables have 1 to
-- `max_player` users, and there has to be room for one.
pub get_waiting_table_users-eq :
    (ws : List WaitingInfo) (user_id max_player : ℕ)
    → 0 < max_player
    → (tables : List (List WaitingInfo)) × (flatten tables ≡ ws)
      × All (λ (l : List WaitingInfo). (0 < length l) × (length l ≤ max_player)) tables
      × (get_waiting_table_users (length ws) ws user_id max_player
          ≡ get_or (find? (has_user user_id) tables) [])
get_waiting_table_users-eq ws user_id max_player pos = (
  tables_of (length ws) max_player ws,
  flatten-tables_of max_player pos (length ws) ws (omega arith),
  tables_of-sizes max_player pos (length ws) ws,
  table-from (length ws) ws user_id max_player,
)
