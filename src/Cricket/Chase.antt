-- ===== src/Cricket/Chase.antt =====
-- apps/epl-gameplay: how a game is decided. `handleGameEnded` tells the results, and
-- `handleTurnResult` should call it once the target is passed.
use empire_backend.Base.{
  ◌+◌, ◌<◌, ◌≡◌, ◌≢◌, Bool, true, false, some, List, [], ◌∷◌, ◌++◌, ltb, ◌==◌, if◌then◌else◌,
  Bool-cases, inl, inr, arith, ==_self,
}
use mathlib.Core.Option.{get_or}
use empire_backend.Base.Results.{ok}
use empire_backend.Base.Actions.{◌>>=◌, ◌>>◌}
use empire_backend.Cricket.{
  batsman, bowler, Player, Table, World, PlayerResult, turn_result, is_completed,
  retrieve_game_table, store_game_table,
}
use empire_backend.Cricket.Handlers.{
  winner, player_results, has_chased, next_turn, handle_game_ended, handle_turn_result,
  calculate_and_update_score,
}
use empire_backend.Cricket.Out.{two}

abbrev pub told : Table → Player → Bool → PlayerResult
told t p wins = record {
  user_id = p.user_id;
  score = p.score;
  win_amount = if wins then t.win_amount else 0;
  is_winner = wins;
}

-- The batsman `a` and the bowler `b`, with the batsman in the first seat or in the second.
abbrev pub seated : Bool → Player → Player → List Player
seated true a b = two a b
seated false a b = record b { role = bowler } ∷ record a { role = batsman } ∷ []

-- One result for each player, in the order of their seats.
abbrev pub in_seats : Bool → PlayerResult → PlayerResult → List PlayerResult
in_seats true x y = x ∷ y ∷ []
in_seats false x y = y ∷ x ∷ []

-- At a table of a batsman and a bowler with different ids, in whatever order they sit, the player
-- with the greater score is told to have won the whole amount and the other to have won nothing;
-- with the same score both are told to have won nothing.
pub player_results-eq :
    (batsman_first : Bool) (t : Table) (a b : Player)
    → a.user_id ≢ b.user_id
    → player_results (record t { users = seated batsman_first a b })
      ≡ in_seats batsman_first (told t a (ltb b.score a.score)) (told t b (ltb a.score b.score))
unfolding player_results winner
player_results-eq batsman_first t a b differ =
    let ab : (a.user_id == b.user_id) ≡ false = ground arith in
    let ba : (b.user_id == a.user_id) ≡ false = ground arith in
    elim (Bool-cases (ltb b.score a.score)) [
      | inl more ↦
          let less : ltb a.score b.score ≡ false = ground arith in
          for_seats batsman_first (simp (more, less, ba, ==_self a.user_id))
            (simp (more, less, ba, ==_self a.user_id))
      | inr most ↦ elim (Bool-cases (ltb a.score b.score)) [
        | inl less ↦
            for_seats batsman_first (simp (most, less, ab, ==_self b.user_id))
              (simp (most, less, ab, ==_self b.user_id))
        | inr same ↦ for_seats batsman_first (simp (most, same)) (simp (most, same))
      ]
    ]
  where
    results : Bool → List PlayerResult
    results first = player_results (record t { users = seated first a b })

    expected : Bool → List PlayerResult
    expected first =
        in_seats first (told t a (ltb b.score a.score)) (told t b (ltb a.score b.score))

    for_seats :
        (first : Bool)
        → results true ≡ expected true
        → results false ≡ expected false
        → results first ≡ expected first
    for_seats true x y = x
    for_seats false x y = y

abbrev pub scored : Player → Player
scored p = record p { score = p.score + p.runs }

-- The table of the second innings, with the answers of the turn.
abbrev pub chase : Bool → Player → Player → Table → Table
chase batsman_first a b t = record t {
  users = seated batsman_first a b;
  innings = 2;
  is_out = false;
  bat_bowl_action = true;
}

-- When the batsman passes the target in a turn of the second innings, in which a request was made
-- and the batsman is not out, at a table that is not completed and whichever of the two sits first:
-- the runs are added and the turn's result is told, but the game does not end. No result of the
-- game is told, the stored table has the status that it had, and no job is started.
pub handle_turn_result-chased :
    (batsman_first : Bool) (a b : Player) (t : Table) (w : World)
    → w.tables t.id ≡ some (chase batsman_first a b t)
    → is_completed t.status ≡ false
    → get_or t.target_score 0 < a.score + a.runs
    → (w' : World) × (handle_turn_result t.id w ≡ (ok tt, w'))
      × (w'.tables t.id ≡ some (chase batsman_first (scored a) (scored b) t))
      × (w'.jobs ≡ w.jobs)
      × (w'.events
          ≡ w.events
            ++ (turn_result t.id (seated batsman_first (scored a) (scored b)) false t.target_score
                ∷ []))
unfolding handle_turn_result calculate_and_update_score next_turn has_chased handle_game_ended
    retrieve_game_table store_game_table ◌>>=◌ ◌>>◌
handle_turn_result-chased true a b t w here open_ passed =
    let over : ltb (get_or t.target_score 0) (a.score + a.runs) ≡ true = ground arith in
    (
      (handle_turn_result t.id w).1,
      simp (here, ==_self t.id, over, open_),
      simp (here, ==_self t.id, over, open_),
      simp (here, ==_self t.id, over, open_),
      simp (here, ==_self t.id, over, open_),
    )
handle_turn_result-chased false a b t w here open_ passed =
    let over : ltb (get_or t.target_score 0) (a.score + a.runs) ≡ true = ground arith in
    (
      (handle_turn_result t.id w).1,
      simp (here, ==_self t.id, over, open_),
      simp (here, ==_self t.id, over, open_),
      simp (here, ==_self t.id, over, open_),
      simp (here, ==_self t.id, over, open_),
    )
