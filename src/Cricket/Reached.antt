-- ===== src/Cricket/Reached.antt =====
-- apps/epl-gameplay: the handlers as steps, in any order.
use empire_backend.Base.{
  ℕ, ◌≡◌, refl, false, true, length, ◌&&◌, none, some, [], ◌∷◌, ltb, ◌==◌, get_elem?, find?, ap,
  sym, subst, Bool-cases, inl, inr, ◌+◌,
}
use empire_backend.Base.Results.{internal, type_error, or_throw-ok}
use empire_backend.Base.Actions.{Action, done}
use empire_backend.Base.Keeping.{Keeps, Always, Keeps-bind, Keeps-then, Keeps-lift, Keeps-if}
use empire_backend.Cricket.{
  Role, GameStatus, Player, Table, World, Job, inning_start, inning_end, turn_events, is_batsman,
  is_completed, create, delete_user_table_cache,
}
use empire_backend.Cricket.Handlers.{
  other_role, second_innings, handle_turn_timeout, handle_inning_start, handle_game_ended,
  handle_inning_end, calculate_and_update_score, calculate_target_score, with_target, reset_runs,
  next_turn, handle_turn_result, has_chased, schedule_turn_events, check_and_handle_is_out,
  with_runs, handle_bat_bowl_request, start_game, score_of, total_number_of_turns,
  get_remaining_players, with_left, end_if_one_remains, handle_leave_table,
}
use empire_backend.Cricket.Roles.{
  IsTwoSided, IsFair, IsTwoSided-map, IsTwoSided-set, retrieve-Keeps, store-Keeps, cache-Keeps,
  same-Keeps,
}

abbrev Kept : Action World (Unit {0}) → Type 0
Kept m = Keeps IsFair (Always IsFair) m

untouched : Kept done
untouched = same-Keeps (λ w. refl)

handle_turn_timeout-Keeps : (table_id : ℕ) → Kept (handle_turn_timeout table_id)
unfolding handle_turn_timeout
handle_turn_timeout-Keeps table_id = Keeps-bind IsFair (retrieve-Keeps table_id) (λ t s.
    Keeps-if IsFair (is_completed t.status) (λ _. untouched)
      (λ _. Keeps-then IsFair (same-Keeps (λ w. refl)) (store-Keeps t s)))

handle_inning_start-Keeps : (table_id : ℕ) → Kept (handle_inning_start table_id)
unfolding handle_inning_start
handle_inning_start-Keeps table_id = Keeps-bind IsFair (retrieve-Keeps table_id) (λ t s.
    Keeps-if IsFair (is_completed t.status) (λ _. untouched)
      (λ _. Keeps-then IsFair (same-Keeps (λ w. refl)) (
        Keeps-then IsFair (store-Keeps (record t { turn_no = 1; is_out = false }) s)
          (same-Keeps (λ w. refl)))))

handle_game_ended-Keeps : (table_id : ℕ) → Kept (handle_game_ended table_id)
unfolding handle_game_ended
handle_game_ended-Keeps table_id =
    Keeps-bind IsFair (retrieve-Keeps table_id) (λ t s.
      Keeps-if IsFair (is_completed t.status) (λ _. same-Keeps (λ w. refl)) (λ _. untouched))

second_innings-IsTwoSided : (t : Table) → IsTwoSided t.users → IsTwoSided (second_innings t).users
unfolding second_innings
second_innings-IsTwoSided t = IsTwoSided-map _ t.users (λ p q e. ap other_role e)

handle_inning_end-Keeps : (table_id : ℕ) → Kept (handle_inning_end table_id)
unfolding handle_inning_end
handle_inning_end-Keeps table_id = Keeps-bind IsFair (retrieve-Keeps table_id) (λ t s.
    Keeps-if IsFair (t.innings == 1)
      (λ _.
        Keeps-then IsFair (store-Keeps (second_innings t) (second_innings-IsTwoSided t s))
          (handle_inning_start-Keeps table_id))
      (λ _.
        Keeps-if IsFair (t.innings == 2)
          (λ _.
            Keeps-then IsFair (store-Keeps (record t { status = GameStatus.completed }) s)
              (handle_game_ended-Keeps table_id))
          (λ _. untouched)))

calculate_and_update_score-Keeps : (table_id : ℕ) → Kept (calculate_and_update_score table_id)
unfolding calculate_and_update_score
calculate_and_update_score-Keeps table_id = Keeps-bind IsFair (retrieve-Keeps table_id) (λ t s.
    store-Keeps _ (
      IsTwoSided-map (λ (p : Player). record p { score = p.score + p.runs }) t.users (λ p q e. e)
        s))

with_target-users : (t : Table) → (with_target t).users ≡ t.users
unfolding with_target
with_target-users t = elim (Bool-cases (ltb 0 (score_of (find? is_batsman t.users)))) [
  | inl e ↦ rw e
  | inr e ↦ rw e
]

calculate_target_score-Keeps : (table_id : ℕ) → Kept (calculate_target_score table_id)
unfolding calculate_target_score
calculate_target_score-Keeps table_id =
    Keeps-bind IsFair (retrieve-Keeps table_id)
      (λ t s. store-Keeps (with_target t) (subst IsTwoSided (sym (with_target-users t)) s))

next_turn-Keeps : (table_id : ℕ) (t : Table) → IsTwoSided t.users → Kept (next_turn table_id t)
unfolding next_turn
next_turn-Keeps table_id t s =
    Keeps-if IsFair t.is_out
      (λ _. Keeps-then IsFair (calculate_target_score-Keeps table_id) (same-Keeps (λ w. refl)))
      (λ _.
        Keeps-if IsFair ((t.innings == 2) && has_chased t) (λ _. handle_game_ended-Keeps table_id)
          (λ _. store-Keeps (record t { turn_no = t.turn_no + 1 }) s))

handle_turn_result-Keeps : (table_id : ℕ) → Kept (handle_turn_result table_id)
unfolding handle_turn_result
handle_turn_result-Keeps table_id = Keeps-bind IsFair (retrieve-Keeps table_id) (λ before _.
    Keeps-then IsFair
      (Keeps-if IsFair before.bat_bowl_action (λ _. calculate_and_update_score-Keeps table_id)
        (λ _. untouched))
      (Keeps-bind IsFair (retrieve-Keeps table_id) (λ t s.
        Keeps-then IsFair (same-Keeps (λ w. refl)) (
          next_turn-Keeps table_id (reset_runs t)
            (IsTwoSided-map (λ (p : Player). record p { runs = 0 }) t.users (λ p q e. e) s)))))

schedule_turn_events-Keeps : (table_id : ℕ) → Kept (schedule_turn_events table_id)
unfolding schedule_turn_events
schedule_turn_events-Keeps table_id = Keeps-bind IsFair (retrieve-Keeps table_id) (λ t s.
    Keeps-if IsFair (is_completed t.status) (λ _. untouched)
      (λ _.
        Keeps-if IsFair (ltb total_number_of_turns t.turn_no)
          (λ _. Keeps-then IsFair (calculate_target_score-Keeps table_id) (same-Keeps (λ w. refl)))
          (λ _.
            Keeps-then IsFair (handle_turn_timeout-Keeps table_id)
              (Keeps-then IsFair (handle_turn_result-Keeps table_id) (same-Keeps (λ w. refl))))))

check_and_handle_is_out-Keeps : (table_id : ℕ) → Kept (check_and_handle_is_out table_id)
unfolding check_and_handle_is_out
check_and_handle_is_out-Keeps table_id = Keeps-bind IsFair (retrieve-Keeps table_id) (λ t s.
    Keeps-if IsFair t.is_out
      (λ _.
        Keeps-then IsFair
          (store-Keeps
            (record t {
              innings = t.innings + 1;
              target_score =
                  some (elim (find? is_batsman t.users) as (λ _. ℕ) [
                    | none ↦ 0
                    | some b ↦ b.score + 1
                  ]);
            })
            s)
          (same-Keeps (λ w. refl)))
      (λ _. untouched))

handle_bat_bowl_request-Keeps :
    (table_id runs user_id : ℕ) (role : Role)
    → Kept (handle_bat_bowl_request table_id runs user_id role)
unfolding handle_bat_bowl_request with_runs
handle_bat_bowl_request-Keeps table_id runs user_id role =
    Keeps-bind IsFair (retrieve-Keeps table_id) (λ t s.
      Keeps-bind IsFair (Keeps-lift IsFair {Q = Always IsFair} _ (λ i e. tt)) (λ index _.
        Keeps-bind IsFair
          (Keeps-lift IsFair {Q = λ p. get_elem? t.users index ≡ some p} _
            (λ p e. or_throw-ok (get_elem? t.users index) internal p e))
          (λ p here. Keeps-then IsFair (Keeps-lift IsFair _ (λ v e. tt)) (
            Keeps-then IsFair
              (store-Keeps (with_runs index runs p t)
                (IsTwoSided-set t.users index p (record p { runs = runs }) here refl s))
              (check_and_handle_is_out-Keeps table_id)))))

start_game-Keeps :
    (fresh u v : ℕ) (role : Role) (amount win_amount : ℕ)
    → Kept (start_game fresh (u ∷ v ∷ []) (role ∷ other_role role ∷ []) amount win_amount)
unfolding start_game create
start_game-Keeps fresh u v role amount win_amount =
    Keeps-then IsFair
      (cache-Keeps
        (create fresh (u ∷ v ∷ []) (role ∷ other_role role ∷ []) amount win_amount
          GameStatus.ongoing)
        (record { first = _; second = _; both = refl; sides = refl }))
      (Keeps-then IsFair (same-Keeps (λ w. refl)) (same-Keeps (λ w. refl)))

end_if_one_remains-Keeps : (t : Table) → IsTwoSided t.users → Kept (end_if_one_remains t)
unfolding end_if_one_remains
end_if_one_remains-Keeps t s =
    Keeps-if IsFair (length (get_remaining_players t) == 1)
      (λ _.
        Keeps-then IsFair (store-Keeps (record t { status = GameStatus.completed }) s)
          (handle_game_ended-Keeps t.id))
      (λ _. untouched)

handle_leave_table-Keeps : (table_id user_id : ℕ) → Kept (handle_leave_table table_id user_id)
unfolding handle_leave_table delete_user_table_cache
handle_leave_table-Keeps table_id user_id = Keeps-bind IsFair (retrieve-Keeps table_id) (λ t s.
    Keeps-bind IsFair (Keeps-lift IsFair {Q = Always IsFair} _ (λ i e. tt)) (λ index _.
      Keeps-bind IsFair
        (Keeps-lift IsFair {Q = λ p. get_elem? t.users index ≡ some p} _
          (λ p e. or_throw-ok (get_elem? t.users index) type_error p e))
        (λ p here.
          let sides = IsTwoSided-set t.users index p (record p { did_leave = true }) here refl s in
          Keeps-then IsFair (same-Keeps (λ w. refl)) (
            Keeps-then IsFair (same-Keeps (λ w. refl)) (
              Keeps-then IsFair (store-Keeps (with_left index p t) sides)
                (end_if_one_remains-Keeps (with_left index p t) sides))))))

-- What a timer runs.
unfoldable pub handle_job : ℕ → Job → Action World (Unit {0})
handle_job table_id inning_start = handle_inning_start table_id
handle_job table_id inning_end = handle_inning_end table_id
handle_job table_id turn_events = schedule_turn_events table_id

handle_job-Keeps : (table_id : ℕ) (j : Job) → Kept (handle_job table_id j)
unfolding handle_job
handle_job-Keeps table_id inning_start = handle_inning_start-Keeps table_id
handle_job-Keeps table_id inning_end = handle_inning_end-Keeps table_id
handle_job-Keeps table_id turn_events = schedule_turn_events-Keeps table_id

-- One handler runs from start to end. A game has two users, and a job that runs was started before.
pub data Step (w : World) : World → Type 0 where
  starts :
      (fresh u v : ℕ) (role : Role) (amount win_amount : ℕ)
      → Step w (start_game fresh (u ∷ v ∷ []) (role ∷ other_role role ∷ []) amount win_amount w).1
  requests :
      (table_id runs user_id : ℕ) (role : Role)
      → Step w (handle_bat_bowl_request table_id runs user_id role w).1
  leaves : (table_id user_id : ℕ) → Step w (handle_leave_table table_id user_id w).1
  runs_job :
      (i table_id : ℕ) (j : Job)
      → get_elem? w.jobs i ≡ some (table_id, j)
      → Step w (handle_job table_id j w).1

pub data IsReachable : World → Type 0 where
  start : (w : World) → ((table_id : ℕ) → w.tables table_id ≡ none) → IsReachable w
  step : (w w' : World) → IsReachable w → Step w w' → IsReachable w'

Step-IsFair : (w w' : World) → IsFair w → Step w w' → IsFair w'
Step-IsFair w w' fair (starts fresh u v role amount win_amount) =
    ((start_game-Keeps fresh u v role amount win_amount).run w fair).0
Step-IsFair w w' fair (requests table_id runs user_id role) =
    ((handle_bat_bowl_request-Keeps table_id runs user_id role).run w fair).0
Step-IsFair w w' fair (leaves table_id user_id) =
    ((handle_leave_table-Keeps table_id user_id).run w fair).0
Step-IsFair w w' fair (runs_job i table_id j there) = ((handle_job-Keeps table_id j).run w fair).0

-- Whatever games were started for two users, requests to bat, to bowl or to leave were made and
-- timers have run, in any order and whichever of them raised, each table that is stored has two
-- players, of whom one bats and one bowls.
pub IsReachable-IsFair : (w : World) → IsReachable w → IsFair w
unfolding IsFair
IsReachable-IsFair w (start _ nothing) = λ table_id t here. let gone = nothing table_id in cc
IsReachable-IsFair w (step v _ before s) = Step-IsFair v w (IsReachable-IsFair v before) s
