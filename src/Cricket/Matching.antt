-- ===== src/Cricket/Matching.antt =====
-- apps/epl-gameplay/src/domain/use-cases/matching-queue.usecases.ts: the loop of `match` on the
-- users that wait, in the order of the queue. Times are in milliseconds; `now` comes after the
-- users have joined, so that no subtraction of a waiting time stops at 0.
pub mod Paired
use empire_backend.Base.{
  ℕ, zero, suc, ◌+◌, ◌-◌, ◌*◌, Bool, ◌&&◌, Option, none, some, List, [], ◌∷◌, ◌++◌, map, ltb, ◌==◌,
  if◌then◌else◌, length, get_elem?, take, drop,
}
use empire_backend.Base.Results.{Result, ok, err, type_error, stuck, ◌>>=◌, or_throw}

pub record WaitingInfo : Type 0 where
  pub user_id : ℕ
  pub expiry : ℕ

abbrev pub players_per_game : ℕ
players_per_game = 2

abbrev pub waiting_time_extension_in_seconds : ℕ
waiting_time_extension_in_seconds = 10

-- `waitingUsers[i].expiry`
unfoldable pub expiry_at : List WaitingInfo → ℕ → Result ℕ
expiry_at waiting_users i = elim (get_elem? waiting_users i) [
  | none ↦ err type_error
  | some w ↦ ok w.expiry
]

unfoldable pub get_matching_timeout : List WaitingInfo → ℕ → ℕ → Result ℕ
unfolding expiry_at
get_matching_timeout waiting_users waiting_time max_player =
    if length waiting_users == 1
    then expiry_at waiting_users 0
    else if ltb 1 (length waiting_users) && ltb (length waiting_users) max_player
    then (expiry_at waiting_users 1 >>= λ second.
        ok (second - waiting_time * 1000 + waiting_time_extension_in_seconds * 1000))
    else (expiry_at waiting_users (max_player - 1) >>= λ last.
        ok (last - waiting_time * 1000 + 1000))

-- The users who timed out, and the calls of `startGame`.
pub record Matching : Type 0 where
  pub timed_out : List ℕ
  pub games : List (List WaitingInfo)

-- The body of the loop for one group, put before what the rest of the loop collects.
unfoldable pub judge : ℕ → List WaitingInfo → ℕ → Matching → Matching
judge now group timeout rest =
    if ltb timeout now
    then if length group == 1
      then record rest { timed_out = map (λ (w : WaitingInfo). w.user_id) group ++ rest.timed_out }
      else record rest { games = group ∷ rest.games }
    else rest

-- The loop of `match`; without fuel left it is still running.
unfoldable pub match_loop : ℕ → ℕ → ℕ → List WaitingInfo → Result Matching
unfolding get_matching_timeout judge
match_loop fuel now waiting_time [] = ok (record { timed_out = []; games = [] })
match_loop zero now waiting_time (w ∷ ws) = err stuck
match_loop (suc fuel) now waiting_time (w ∷ ws) =
    get_matching_timeout (take players_per_game (w ∷ ws)) waiting_time players_per_game
    >>= λ timeout. match_loop fuel now waiting_time (drop players_per_game (w ∷ ws)) >>= λ rest.
        ok (judge now (take players_per_game (w ∷ ws)) timeout rest)
