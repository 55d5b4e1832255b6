-- ===== src/SnakesLadders/Matching.antt =====
-- apps/sl-gameplay: the queue of redis-queue.repository.ts, the matching of
-- matching-queue.usecases.ts with `splitArrayByPredicate` of libs/fabzen-common, and the waiting
-- tables of gameplay.usecases .ts. Times are in seconds and `expiry` is `now` plus the waiting time.
pub mod Split
pub mod Chunks
pub mod Matched
pub mod Waiting
use empire_backend.Base.{
  ℕ, zero, suc, ◌+◌, ◌-◌, Bool, true, false, not, ◌&&◌, Option, none, some, List, [], ◌∷◌, ◌++◌,
  map, ltb, leb, ◌==◌, if◌then◌else◌, length, get_elem?, take, drop, filter, any, find_index,
}
use empire_backend.Base.Results.{Result, ok, err, type_error, stuck, ◌>>=◌, or_throw}
use empire_backend.SnakesLadders.Types.{waiting_time_extension_in_seconds}
use empire_backend.SnakesLadders.Table.{UserDetails}

pub record WaitingInfo : Type 0 where
  pub user_details : UserDetails
  pub expiry : ℕ

abbrev pub id_of : WaitingInfo → ℕ
id_of w = w.user_details.user_id

-- The two inner loops of `splitArrayByPredicate`: the first group without a conflict takes the
-- item, and a new group is made where there is none.
unfoldable pub put_item {ℓ} : {A : Type ℓ} → (A → A → Bool) → A → List (List A) → List (List A)
put_item predicate item [] = (item ∷ []) ∷ []
put_item predicate item (group ∷ groups) =
    let rest = put_item predicate item groups in
    if any (λ reference_item. predicate reference_item item) group
    then group ∷ rest
    else (group ++ (item ∷ [])) ∷ groups

unfoldable pub split_from {ℓ} :
    {A : Type ℓ} → (A → A → Bool) → List A → List (List A) → List (List A)
unfolding put_item
split_from predicate [] result = result
split_from predicate (item ∷ items) result =
    split_from predicate items (put_item predicate item result)

unfoldable pub split_array_by_predicate {ℓ} : {A : Type ℓ} → List A → (A → A → Bool) → List (List A)
unfolding split_from
split_array_by_predicate items predicate = split_from predicate items []

-- `checkIfSameOrigin`
abbrev pub check_if_same_origin : WaitingInfo → WaitingInfo → Bool
check_if_same_origin a b = a.user_details.ip == b.user_details.ip

unfoldable pub split_waiting_users : List WaitingInfo → List (List WaitingInfo)
unfolding split_array_by_predicate
split_waiting_users waiting_users = split_array_by_predicate waiting_users check_if_same_origin

-- `waitingUsers[i].expiry`
unfoldable pub expiry_at : List WaitingInfo → ℕ → Result ℕ
expiry_at waiting_users i = elim (get_elem? waiting_users i) [
  | none ↦ err type_error
  | some w ↦ ok w.expiry
]

abbrev pub earlier : ℕ → ℕ → ℕ
earlier a b = if ltb b a then b else a

unfoldable pub get_matching_timeout : List WaitingInfo → ℕ → ℕ → Result ℕ
unfolding expiry_at
get_matching_timeout waiting_users waiting_time max_player =
    if length waiting_users == 1
    then expiry_at waiting_users 0
    else if ltb 1 (length waiting_users) && ltb (length waiting_users) max_player
    then (expiry_at waiting_users 1 >>= λ second. expiry_at waiting_users 0 >>= λ first.
        ok (earlier first (second - waiting_time + waiting_time_extension_in_seconds)))
    else (expiry_at waiting_users (max_player - 1) >>= λ last. ok (last - waiting_time + 0))

-- What a run of `_match` has collected: the ids that timed out and the games that were started.
pub record Matching : Type 0 where
  pub timed_out : List ℕ
  pub games : List (List WaitingInfo)

abbrev pub nothing : Matching
nothing = record { timed_out = []; games = [] }

-- The body of the loop for one waiting table, put before what the rest of the loop collects.
unfoldable pub judge : ℕ → List WaitingInfo → ℕ → Matching → Matching
judge now table timeout rest =
    if ltb timeout now
    then if length table == 1
      then record rest { timed_out = map id_of table ++ rest.timed_out }
      else record rest { games = table ∷ rest.games }
    else rest

-- The loop of `_match`; without fuel left it is still running.
unfoldable pub match_loop : ℕ → ℕ → ℕ → ℕ → List WaitingInfo → Result Matching
unfolding get_matching_timeout judge
match_loop fuel now waiting_time max_player [] = ok nothing
match_loop zero now waiting_time max_player (w ∷ ws) = err stuck
match_loop (suc fuel) now waiting_time max_player (w ∷ ws) =
    get_matching_timeout (take max_player (w ∷ ws)) waiting_time max_player >>= λ timeout.
    match_loop fuel now waiting_time max_player (drop max_player (w ∷ ws)) >>= λ rest.
    ok (judge now (take max_player (w ∷ ws)) timeout rest)

abbrev pub flatten {ℓ} : {A : Type ℓ} → List (List A) → List A
flatten [] = []
flatten (l ∷ ls) = l ++ flatten ls

-- `userIdsToRemove`
unfoldable pub ids_to_remove : Matching → List ℕ
ids_to_remove m = map id_of (flatten m.games) ++ m.timed_out

-- `removeUsersFromQueue`, on the users of one table type
unfoldable pub remove_users_from_queue : List ℕ → List WaitingInfo → List WaitingInfo
remove_users_from_queue user_ids queue = filter (λ w. not (any (λ k. k == id_of w) user_ids)) queue

-- `setValue` of the hash: the entry of a user that is there is replaced.
unfoldable pub put_in_queue : WaitingInfo → List WaitingInfo → List WaitingInfo
put_in_queue new_user [] = new_user ∷ []
put_in_queue new_user (w ∷ ws) =
    let rest = put_in_queue new_user ws in
    if id_of w == id_of new_user then new_user ∷ ws else w ∷ rest

-- `sort((a, b) => a.expiry - b.expiry)`, which is stable
unfoldable pub insert_by_expiry : WaitingInfo → List WaitingInfo → List WaitingInfo
insert_by_expiry x [] = x ∷ []
insert_by_expiry x (w ∷ ws) =
    let rest = insert_by_expiry x ws in if leb x.expiry w.expiry then x ∷ w ∷ ws else w ∷ rest

unfoldable pub get_users_from_queue : List WaitingInfo → List WaitingInfo
unfolding insert_by_expiry
get_users_from_queue [] = []
get_users_from_queue (w ∷ ws) = insert_by_expiry w (get_users_from_queue ws)

-- The loop over the groups in `match`.
unfoldable pub match_groups : ℕ → ℕ → ℕ → List (List WaitingInfo) → Result (List Matching)
unfolding match_loop
match_groups now waiting_time max_player [] = ok []
match_groups now waiting_time max_player (group ∷ groups) =
    match_loop (length group) now waiting_time max_player group >>= λ m.
    match_groups now waiting_time max_player groups >>= λ ms. ok (m ∷ ms)

-- `match` up to the removal of the users.
unfoldable pub match_users : Bool → ℕ → ℕ → ℕ → List WaitingInfo → Result (List Matching)
unfolding get_users_from_queue split_waiting_users match_groups
match_users is_ip_restriction_enabled now waiting_time max_player queue =
    let waiting_users = get_users_from_queue queue in
    match_groups now waiting_time max_player
      (if is_ip_restriction_enabled then split_waiting_users waiting_users else waiting_users ∷ [])

-- `getWaitingTableUsers`: the waiting table with the user, or nothing.
unfoldable pub get_waiting_table_users : ℕ → List WaitingInfo → ℕ → ℕ → List WaitingInfo
get_waiting_table_users fuel [] user_id max_player = []
get_waiting_table_users zero (w ∷ ws) user_id max_player = []
get_waiting_table_users (suc fuel) (w ∷ ws) user_id max_player =
    let rest = get_waiting_table_users fuel (drop max_player (w ∷ ws)) user_id max_player in
    if any (λ v. id_of v == user_id) (take max_player (w ∷ ws))
    then take max_player (w ∷ ws)
    else rest

-- `getWaitingPlayerId`: the player number, which is 0 for a user who does not wait.
unfoldable pub get_waiting_player_id : List WaitingInfo → ℕ → ℕ → ℕ
unfolding get_waiting_table_users
get_waiting_player_id waiting_users user_id max_player =
    let table = get_waiting_table_users (length waiting_users) waiting_users user_id max_player in
    elim (find_index (λ v. id_of v == user_id) table) [ none ↦ 0 | some i ↦ i + 1 ]
