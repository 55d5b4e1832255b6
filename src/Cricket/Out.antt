-- ===== src/Cricket/Out.antt =====
-- apps/epl-gameplay: what a request to bat or to bowl does.
use empire_backend.Base.{
  ℕ, ◌+◌, ◌≡◌, true, some, List, [], ◌∷◌, ◌++◌, ◌==◌, if◌then◌else◌, Bool-cases, inl, inr, ==_self,
}
use empire_backend.Base.Results.{ok}
use empire_backend.Base.Actions.{◌>>=◌, ◌>>◌}
use empire_backend.Cricket.{
  batsman, bowler, Player, Table, World, inning_start, retrieve_game_table, store_game_table,
}
use empire_backend.Cricket.Handlers.{
  check_if_out, with_runs, check_and_handle_is_out, handle_bat_bowl_request,
}

-- The batsman `a` sits first and `b` bowls.
abbrev pub two : Player → Player → List Player
two a b = record a { role = batsman } ∷ record b { role = bowler } ∷ []

abbrev pub batted : ℕ → Player → Player → Table → Table
batted runs a b t = record t {
  users = two (record a { runs = runs }) b;
  is_out = runs == b.runs;
  bat_bowl_action = true;
}

abbrev pub answered : ℕ → Player → Player → Table → Table
answered runs a b t =
    if runs == b.runs
    then record (batted runs a b t) { innings = t.innings + 1; target_score = some (a.score + 1) }
    else batted runs a b t

pub record IsAnswered (runs : ℕ) (a b : Player) (t : Table) (w w' : World) : Type 0 where
  pub stored : w'.tables t.id ≡ some (answered runs a b t)
  pub jobs : w'.jobs ≡ (if runs == b.runs then w.jobs ++ ((t.id, inning_start) ∷ []) else w.jobs)
  pub events : w'.events ≡ w.events

-- A request of the batsman, who sits first, is compared at once with the runs that the table has
-- for the bowler. With other runs the table only takes them. With the same runs the innings is one
-- up, the target is the score and one, and the start of an innings is scheduled, while the players
-- keep their roles.
pub handle_bat_bowl_request-IsAnswered :
    (runs : ℕ) (a b : Player) (t : Table) (w : World)
    → w.tables t.id ≡ some (record t { users = two a b })
    → (w' : World) × (handle_bat_bowl_request t.id runs a.user_id batsman w ≡ (ok tt, w'))
      × IsAnswered runs a b t w w'
unfolding handle_bat_bowl_request with_runs check_if_out check_and_handle_is_out retrieve_game_table
    store_game_table ◌>>=◌ ◌>>◌
handle_bat_bowl_request-IsAnswered runs a b t w here = elim (Bool-cases (runs == b.runs)) [
  | inl out ↦ (
    (handle_bat_bowl_request t.id runs a.user_id batsman w).1,
    simp (here, ==_self t.id, ==_self a.user_id, out),
    record {
      stored = simp (here, ==_self t.id, ==_self a.user_id, out);
      jobs = simp (here, ==_self t.id, ==_self a.user_id, out);
      events = simp (here, ==_self t.id, ==_self a.user_id, out);
    },
  )
  | inr in_ ↦ (
    (handle_bat_bowl_request t.id runs a.user_id batsman w).1,
    simp (here, ==_self t.id, ==_self a.user_id, in_),
    record {
      stored = simp (here, ==_self t.id, ==_self a.user_id, in_);
      jobs = simp (here, ==_self t.id, ==_self a.user_id, in_);
      events = simp (here, ==_self t.id, ==_self a.user_id, in_);
    },
  )
]
