-- ===== src/Cricket/Endless.antt =====
-- apps/epl-gameplay: the turns after the target is passed, without further requests.
use empire_backend.Base.{
  ℕ, zero, suc, ◌+◌, ◌*◌, ◌<◌, ◌≤◌, ◌≡◌, refl, Bool, true, false, some, [], ◌∷◌, ◌++◌, ltb, count,
  count-append, arith, ◌∙◌, ap, ==_self,
}
use mathlib.Core.Option.{get_or}
use empire_backend.Base.Results.{ok}
use empire_backend.Base.Actions.{◌>>=◌, ◌>>◌}
use empire_backend.Cricket.{
  Player, Table, World, Event, turn_events, turn_timeout, turn_result, game_ended, is_completed,
  retrieve_game_table, store_game_table,
}
use empire_backend.Cricket.Handlers.{
  has_chased, next_turn, handle_game_ended, handle_turn_result, handle_turn_timeout,
  schedule_turn_events, user_ids, calculate_and_update_score,
}
use empire_backend.Cricket.Chase.{seated, scored, chase}

abbrev pub is_game_ended : Event → Bool
is_game_ended (game_ended _ _) = true
is_game_ended _ = false

-- The table's timer of the turns goes off `n` times.
abbrev pub run_turns : ℕ → ℕ → World → World
run_turns table_id zero w = w
run_turns table_id (suc n) w = (schedule_turn_events table_id (run_turns table_id n w)).1

abbrev pub after : ℕ → Player → Player
after n p = record p { score = p.score + n * p.runs }

pub record GoesOn (first : Bool) (t : Table) (a b : Player) (w w' : World) : Type 0 where
  pub returns : (schedule_turn_events t.id w).0 ≡ ok tt
  pub stored : w'.tables t.id ≡ some (chase first (scored a) (scored b) t)
  pub jobs : w'.jobs ≡ w.jobs ++ ((t.id, turn_events) ∷ [])
  pub events :
      w'.events
      ≡ (w.events ++ (turn_timeout t.id (user_ids (chase first a b t)) ∷ []))
        ++ (turn_result t.id (seated first (scored a) (scored b)) false t.target_score ∷ [])

-- One turn at a table whose target is passed.
pub schedule_turn_events-GoesOn :
    (first : Bool) (a b : Player) (t : Table) (w : World)
    → w.tables t.id ≡ some (chase first a b t)
    → is_completed t.status ≡ false
    → t.turn_no ≤ 6
    → get_or t.target_score 0 < a.score + a.runs
    → GoesOn first t a b w (schedule_turn_events t.id w).1
unfolding schedule_turn_events handle_turn_timeout handle_turn_result calculate_and_update_score
    next_turn has_chased handle_game_ended retrieve_game_table store_game_table ◌>>=◌ ◌>>◌
schedule_turn_events-GoesOn true a b t w here open_ soon passed =
    let over : ltb (get_or t.target_score 0) (a.score + a.runs) ≡ true = ground arith in
    let early : ltb 6 t.turn_no ≡ false = ground arith in
    record {
      returns = simp (here, ==_self t.id, over, open_, early);
      stored = simp (here, ==_self t.id, over, open_, early);
      jobs = simp (here, ==_self t.id, over, open_, early);
      events = simp (here, ==_self t.id, over, open_, early);
    }
schedule_turn_events-GoesOn false a b t w here open_ soon passed =
    let over : ltb (get_or t.target_score 0) (a.score + a.runs) ≡ true = ground arith in
    let early : ltb 6 t.turn_no ≡ false = ground arith in
    record {
      returns = simp (here, ==_self t.id, over, open_, early);
      stored = simp (here, ==_self t.id, over, open_, early);
      jobs = simp (here, ==_self t.id, over, open_, early);
      events = simp (here, ==_self t.id, over, open_, early);
    }

after_zero : (p : Player) → p ≡ after 0 p
after_zero p = ap (λ s. record p { score = s }) (omega arith)

after_suc : (n : ℕ) (p : Player) → scored (after n p) ≡ after (suc n) p
after_suc n p = ap (λ s. record p { score = s }) (grind arith)

pub record IsEndless (first : Bool) (t : Table) (a b : Player) (w : World) (n : ℕ) : Type 0 where
  pub stored : (run_turns t.id n w).tables t.id ≡ some (chase first (after n a) (after n b) t)
  pub returns : (schedule_turn_events t.id (run_turns t.id n w)).0 ≡ ok tt
  pub jobs :
      (run_turns t.id (suc n) w).jobs ≡ (run_turns t.id n w).jobs ++ ((t.id, turn_events) ∷ [])
  pub results : count is_game_ended (run_turns t.id n w).events ≡ count is_game_ended w.events

-- Once the batsman has passed the target in a turn of the second innings, in which a request was
-- made and the batsman is not out, which is not later than the sixth, at a table that is not
-- completed and whichever of the two sits first: if nobody asks for anything more, the game never
-- ends. However often the timer of the turns goes off, it raises nothing and is set again, the runs
-- of the last answers are added once more, the status stays as it was, and no result of the game is
-- told.
pub schedule_turn_events-IsEndless :
    (first : Bool) (a b : Player) (t : Table) (w : World)
    → w.tables t.id ≡ some (chase first a b t)
    → is_completed t.status ≡ false
    → t.turn_no ≤ 6
    → get_or t.target_score 0 < a.score + a.runs
    → (n : ℕ) → IsEndless first t a b w n
schedule_turn_events-IsEndless first a b t w here open_ soon passed n =
    let now = turned n in
    record {
      stored = now.0;
      returns = (go n now.0).returns;
      jobs = (go n now.0).jobs;
      results = now.1;
    }
  where
    same :
        (c d : Player) {c' d' : Player}
        → c ≡ c'
        → d ≡ d'
        → some (chase first c d t) ≡ some (chase first c' d' t)
    same c d {c'} p q = ap (λ x. some (chase first x d t)) p ∙ ap (λ y. some (chase first c' y t)) q

    go :
        (m : ℕ)
        → (run_turns t.id m w).tables t.id ≡ some (chase first (after m a) (after m b) t)
        → GoesOn first t (after m a) (after m b) (run_turns t.id m w) (run_turns t.id (suc m) w)
    go m e =
        schedule_turn_events-GoesOn first (after m a) (after m b) t (run_turns t.id m w) e open_
          soon (omega arith)

    turned :
        (m : ℕ)
        → ((run_turns t.id m w).tables t.id ≡ some (chase first (after m a) (after m b) t))
          × (count is_game_ended (run_turns t.id m w).events ≡ count is_game_ended w.events)
    turned zero = (here ∙ same a b (after_zero a) (after_zero b), refl)
    turned (suc m) =
        let (e, told) = turned m in
        let before = (run_turns t.id m w).events in
        let once =
          count-append is_game_ended before
            (turn_timeout t.id (user_ids (chase first (after m a) (after m b) t)) ∷ []) in
        let second =
          count-append is_game_ended
            (before ++ (turn_timeout t.id (user_ids (chase first (after m a) (after m b) t)) ∷ []))
            (turn_result t.id (seated first (scored (after m a)) (scored (after m b))) false
                t.target_score
              ∷ []) in
        (
          (go m e).stored
              ∙ same (scored (after m a)) (scored (after m b)) (after_suc m a) (after_suc m b),
          ap (count is_game_ended) (go m e).events ∙ omega (arith, once, second, told),
        )
