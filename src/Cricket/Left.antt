-- ===== src/Cricket/Left.antt =====
-- apps/epl-gameplay: what a request to leave the table does.
use empire_backend.Base.{
  filter, length, get_elem?, ℕ, ◌≡◌, ◌≢◌, refl, Bool, true, false, not, none, some, [], ◌∷◌, ◌++◌,
  ltb, ◌==◌, ◌∙◌, arith, ==_self, ap,
}
use empire_backend.Base.Results.{ok}
use empire_backend.Base.Actions.{◌>>=◌, ◌>>◌}
use empire_backend.Cricket.{
  batsman, bowler, GameStatus, Player, Table, World, player_left, game_ended, retrieve_game_table,
  store_game_table, delete_user_table_cache,
}
use empire_backend.Cricket.Handlers.{
  with_left, find_user, get_remaining_players, end_if_one_remains, handle_leave_table,
  handle_game_ended, user_ids, player_results,
}
use empire_backend.Cricket.Chase.{seated, in_seats, told, player_results-eq}

abbrev pub left : Bool → Player → Player
left true p = record p { did_leave = true }
left false p = p

-- The table that is stored when the batsman or the bowler leaves.
abbrev pub ended : Bool → Bool → Player → Player → Table → Table
ended batsman_first batsman_leaves a b t = record t {
  users = seated batsman_first (left batsman_leaves a) (left (not batsman_leaves) b);
  status = GameStatus.completed;
}

abbrev pub leaver : Bool → Player → Player → Player
leaver true a b = a
leaver false a b = b

pub record IsEnded (batsman_first batsman_leaves : Bool) (a b : Player) (t : Table) (w w' : World)
    : Type 0 where
  pub stored : w'.tables t.id ≡ some (ended batsman_first batsman_leaves a b t)
  pub cache : w'.user_tables (leaver batsman_leaves a b).user_id ≡ none
  pub jobs : w'.jobs ≡ w.jobs
  pub events :
      w'.events
      ≡ (w.events
          ++ (player_left
                (user_ids (record t { users = seated batsman_first a b }))
                t.id
                (leaver batsman_leaves a b).player_id
              ∷ []))
        ++ (game_ended t.id (
              in_seats batsman_first
                (told t a (ltb b.score a.score))
                (told t b (ltb a.score b.score)))
            ∷ [])

-- One of the two players of the table `t` leaves, which is then stored as `after`.
record IsLast (user_id player_id : ℕ) (after t : Table) (w w' : World) : Type 0 where
  stored : w'.tables t.id ≡ some after
  cache : w'.user_tables user_id ≡ none
  jobs : w'.jobs ≡ w.jobs
  events :
      w'.events
      ≡ (w.events ++ (player_left (user_ids t) t.id player_id ∷ []))
        ++ (game_ended t.id (player_results after) ∷ [])

handle_leave_table-IsLast :
    (index : ℕ) (p : Player) (t : Table) (w : World)
    → w.tables t.id ≡ some t
    → find_user p.user_id t.users ≡ some index
    → get_elem? t.users index ≡ some p
    → filter (λ (q : Player). not q.did_leave) t.users ≡ t.users
    → (length (filter (λ (q : Player). not q.did_leave) (with_left index p t).users) == 1) ≡ true
    → (w' : World) × (handle_leave_table t.id p.user_id w ≡ (ok tt, w'))
      × IsLast p.user_id p.player_id
          (record (with_left index p t) { status = GameStatus.completed })
          t
          w
          w'
unfolding handle_leave_table end_if_one_remains get_remaining_players handle_game_ended
    retrieve_game_table store_game_table delete_user_table_cache ◌>>=◌ ◌>>◌
handle_leave_table-IsLast index p t w here found seat all one = (
  (handle_leave_table t.id p.user_id w).1,
  simp (here, found, seat, one, ==_self t.id),
  record {
    stored = simp (here, found, seat, one, ==_self t.id);
    cache = simp (here, found, seat, one, ==_self t.id, ==_self p.user_id);
    jobs = simp (here, found, seat, one, ==_self t.id);
    events = simp (here, found, seat, one, all, ==_self t.id);
  },
)

ended_results :
    (batsman_first batsman_leaves : Bool) (a b : Player) (t : Table)
    → a.user_id ≢ b.user_id
    → player_results (ended batsman_first batsman_leaves a b t)
      ≡ in_seats batsman_first (told t a (ltb b.score a.score)) (told t b (ltb a.score b.score))
ended_results batsman_first true a b t differ =
    player_results-eq batsman_first (record t { status = GameStatus.completed }) (left true a) b
      differ
ended_results batsman_first false a b t differ =
    player_results-eq batsman_first (record t { status = GameStatus.completed }) a (left true b)
      differ

IsLast-IsEnded :
    (batsman_first batsman_leaves : Bool) (a b : Player) (t : Table) (w w' : World)
    → a.user_id ≢ b.user_id
    → IsLast
        (leaver batsman_leaves a b).user_id
        (leaver batsman_leaves a b).player_id
        (ended batsman_first batsman_leaves a b t)
        (record t { users = seated batsman_first a b })
        w
        w'
    → IsEnded batsman_first batsman_leaves a b t w w'
IsLast-IsEnded batsman_first batsman_leaves a b t w w' differ last = record {
  stored = last.stored;
  cache = last.cache;
  jobs = last.jobs;
  events =
      last.events
      ∙ ap
          (λ r.
            (w.events
              ++ (player_left (user_ids (record t { users = seated batsman_first a b })) t.id
                    (leaver batsman_leaves a b).player_id
                  ∷ []))
            ++ (game_ended t.id r ∷ []))
          (ended_results batsman_first batsman_leaves a b t differ);
}

-- When one of the two players leaves, with neither gone before, whichever of them it is and wherever
-- they sit, the table is stored as completed and no longer cached for that user, and both are told
-- who leaves and then the results of the game. Those are by the scores alone, so that a player who
-- leaves with the greater score is told to have won the whole amount.
pub handle_leave_table-IsEnded :
    (batsman_first batsman_leaves : Bool) (a b : Player) (t : Table) (w : World)
    → w.tables t.id ≡ some (record t { users = seated batsman_first a b })
    → a.user_id ≢ b.user_id
    → a.did_leave ≡ false
    → b.did_leave ≡ false
    → (w' : World) × (handle_leave_table t.id (leaver batsman_leaves a b).user_id w ≡ (ok tt, w'))
      × IsEnded batsman_first batsman_leaves a b t w w'
handle_leave_table-IsEnded true true a b t w here differ stays stays' =
    let (w', run, last) =
      handle_leave_table-IsLast 0 (record a { role = batsman })
        (record t { users = seated true a b }) w here (simp (==_self a.user_id)) refl
        (simp (stays, stays')) (simp stays') in
    (w', run, IsLast-IsEnded true true a b t w w' differ last)
handle_leave_table-IsEnded true false a b t w here differ stays stays' =
    let ab : (a.user_id == b.user_id) ≡ false = ground arith in
    let (w', run, last) =
      handle_leave_table-IsLast 1 (record b { role = bowler })
        (record t { users = seated true a b }) w here (simp (ab, ==_self b.user_id)) refl
        (simp (stays, stays')) (simp stays) in
    (w', run, IsLast-IsEnded true false a b t w w' differ last)
handle_leave_table-IsEnded false true a b t w here differ stays stays' =
    let ba : (b.user_id == a.user_id) ≡ false = ground arith in
    let (w', run, last) =
      handle_leave_table-IsLast 1 (record a { role = batsman })
        (record t { users = seated false a b }) w here (simp (ba, ==_self a.user_id)) refl
        (simp (stays, stays')) (simp stays') in
    (w', run, IsLast-IsEnded false true a b t w w' differ last)
handle_leave_table-IsEnded false false a b t w here differ stays stays' =
    let (w', run, last) =
      handle_leave_table-IsLast 0 (record b { role = bowler })
        (record t { users = seated false a b }) w here (simp (==_self b.user_id)) refl
        (simp (stays, stays')) (simp stays) in
    (w', run, IsLast-IsEnded false false a b t w w' differ last)
