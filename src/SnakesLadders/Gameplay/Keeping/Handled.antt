-- ===== src/SnakesLadders/Gameplay/Keeping/Handled.antt =====
-- gameplay.usecases .ts: `handleLeaveTable`, and with it `handleSkipTurn` and the timers.
use empire_backend.Base.{
  ℕ, ◌≤◌, ◌≡◌, refl, ◌≢◌, Bool, true, false, if◌then◌else◌, not, ◌&&◌, Option, none, some, length,
  get_elem?, leb, ◌==◌, arith, Bool-cases, inl, inr, sym, ◌∙◌, subst, length-filter,
  count_pos-get_elem?, ==_iff, ==_self, [], ◌∷◌, ◌++◌, map,
}
use empire_backend.Base.Results.{ok, type_error, or_throw-ok}
use empire_backend.SnakesLadders.Types.{GameAction, GameStatus}
use empire_backend.SnakesLadders.Table.{User, Table, TableData, to_data}
use empire_backend.SnakesLadders.Table.Turn.{increment_counter_and_timeout}
use empire_backend.SnakesLadders.Table.Turn.Next.{set_next_turn-IsNextSeat}
use empire_backend.SnakesLadders.Table.Invariant.{IsLayout}
use empire_backend.SnakesLadders.Table.Stored.{new_table-to_data}
use empire_backend.SnakesLadders.Gameplay.{
  World, Action, leave_table, create_history, GameTimerOption, ◌>>=◌, ◌>>◌, load, write,
}
use empire_backend.SnakesLadders.Gameplay.Winners.{get_remaining_players, stays}
use empire_backend.SnakesLadders.Gameplay.Ending.{id_of, handle_end_game}
use empire_backend.SnakesLadders.Gameplay.Ending.Payout.{handle_end_game-IsPaidOut}
use empire_backend.SnakesLadders.Gameplay.Leaving.{
  without_player, pass_turn_on, after_leave, leave_from, handle_leave_table, skip_or_leave,
  handle_skip_turn, is_end_game, dispatch, handle_timeout,
}
use empire_backend.SnakesLadders.Gameplay.Keeping.{
  StoreOf, IsLive, IsStored, IsStore, Keeps, Always, Keeps-then, Keeps-bind, Keeps-lift, Keeps-if,
  Keeps-same, retrieve_game_table-Keeps, IsLive-same, store_game_table-Keeps, write-IsStore,
  then_run-Keeps,
}
use empire_backend.SnakesLadders.Gameplay.Keeping.Played.{set_next_turn-IsLive, handle_next-Keeps}
use empire_backend.SnakesLadders.Gameplay.Keeping.Left.{
  skip_turn-IsLive, skip_and_stay-Keeps, IsLayout-leave, leave-remaining, leave-HasTurn,
}
use empire_backend.SnakesLadders.Gameplay.Keeping.Ended.{IsPaidOut-IsStore, handle_end_game-Keeps}

-- The store but for one table.
abbrev OthersStored : ℕ → (ℕ → Option TableData) → Type 0
OthersStored table_id m = (j : ℕ) → j ≢ table_id → (d : TableData) → m j ≡ some d → IsStored j d

last_player-IsStore :
    (now : ℕ) (t : Table) (w : World)
    → IsLayout t
    → w.tables t.id ≡ some (to_data t)
    → OthersStored t.id w.tables
    → IsStore (handle_end_game now t.id w).1.tables
last_player-IsStore now t w layout here others =
    let read : load (w.tables t.id) ≡ ok (record t { status = GameStatus.waiting }) =
      rw here (new_table-to_data 0 t) in
    let (w', run, paid) =
      handle_end_game-IsPaidOut now t.id (record t { status = GameStatus.waiting }) w read refl refl
        layout.user_ids in
    subst (λ r. IsStore r.1.tables) (sym run) (IsPaidOut-IsStore t.id _ w w' paid others)

remaining_player :
    (t : Table)
    → 2 ≤ length (get_remaining_players t)
    → (i : ℕ) × ((u : User) × (get_elem? t.users i ≡ some u) × (u.did_leave ≡ false))
unfolding get_remaining_players
remaining_player t many =
    let (i, (u, here, pass)) =
      count_pos-get_elem? stays t.users (omega (arith, many, length-filter stays t.users)) in
    (i, (u, here, ground arith))

pass_turn_on-IsStore :
    (now user_id : ℕ) (t : Table) (w : World)
    → IsLayout t
    → 2 ≤ length (get_remaining_players t)
    → OthersStored t.id w.tables
    → IsStore (pass_turn_on now user_id t w).1.tables
unfolding pass_turn_on ◌>>=◌ ◌>>◌
pass_turn_on-IsStore now user_id t w layout many others =
    let (i, (u, here, stay)) = remaining_player t many in
    let (turn, run, n) = set_next_turn-IsNextSeat user_id t i u here stay in
    let t' : Table = record t { current_turn = turn } in
    let next : Table = record (increment_counter_and_timeout now t') {
      action = GameAction.roll_dice;
      updated_at = now;
    } in
    let live = set_next_turn-IsLive user_id t t' i u layout many here stay run in
    rw run (write-IsStore next w.tables (IsLive-same t' next refl refl refl live) others)

write_same :
    {A : Type 0} (m : ℕ → Option A) (k j : ℕ) (v : Option A) → m k ≡ v → write k v m j ≡ m j
write_same m k j v e = elim (Bool-cases (j == k)) [
  | inl hit ↦ rw hit (sym (subst (λ i. m i ≡ v) (sym ((==_iff j k).0 hit)) e))
  | inr miss ↦ rw miss
]

if-IsStore :
    (b : Bool) (m n : Action (Unit {0})) (w : World)
    → (b ≡ true → IsStore (m w).1.tables)
    → (b ≡ false → IsStore (n w).1.tables)
    → IsStore ((if b then m else n) w).1.tables
if-IsStore true m n w h k = h refl
if-IsStore false m n w h k = k refl

after_leave-IsStore :
    (now index : ℕ) (u : User) (t : Table) (w : World)
    → get_elem? t.users index ≡ some u
    → IsLive t
    → w.tables t.id ≡ some (to_data (without_player now index u t))
    → OthersStored t.id w.tables
    → IsStore (after_leave now u.user_id (without_player now index u t) w).1.tables
unfolding after_leave without_player
after_leave-IsStore now index u t w here live stored others =
    let t' = without_player now index u t in
    let layout = IsLayout-leave now index u t here live.valid.layout in
    let least = leave-remaining now index u t here live in
    if-IsStore (length (get_remaining_players t') == 1) _ _ w
      (λ last. last_player-IsStore now t' w layout stored others)
      (λ more.
        let many : 2 ≤ length (get_remaining_players t') = ground (arith, least, more) in
        if-IsStore (u.user_id == t.current_turn) _ _ w
          (λ mine. pass_turn_on-IsStore now u.user_id t' w layout many others)
          (λ other j d e.
            let turn = leave-HasTurn now index u t here live.valid other in
            let live' : IsLive t' = record {
              valid = record { layout = layout; turn = turn };
              remaining = many;
            } in
            write-IsStore t' w.tables live' others j d
              (write_same w.tables t.id j (some (to_data t')) stored ∙ e)))

leave_from-Keeps :
    (now user_id : ℕ) (t : Table) (index : ℕ) (u : User)
    → get_elem? t.users index ≡ some u
    → IsLive t
    → Keeps StoreOf (Always StoreOf) (leave_from now user_id t index u)
unfolding leave_from ◌>>◌ ◌>>=◌
leave_from-Keeps now user_id t index u here live = record {
  run = λ w store.
      let t' = without_player now index u t in
      let w' : World = record w {
        tables = write t.id (some (to_data t')) w.tables;
        user_tables = write user_id none w.user_tables;
        events =
            w.events
            ++ ((0, leave_table (map id_of (get_remaining_players t)) t.id u.player_id) ∷ []);
      } in
      let kept =
        after_leave-IsStore now index u t w' here live (rw (==_self t.id)) (λ j differs d e.
          let miss : (j == t.id) ≡ false = ground arith in store j d (rw miss at e)) in
      then_run-Keeps StoreOf (Always StoreOf) (Always StoreOf)
        (λ _. create_history t.id (some user_id)) (λ a _. Keeps-same (λ v. refl))
        (after_leave now u.user_id t' w') kept (λ a e. tt);
}

pub handle_leave_table-Keeps :
    (now table_id user_id : ℕ)
    → Keeps StoreOf (Always StoreOf) (handle_leave_table now table_id user_id)
unfolding handle_leave_table
handle_leave_table-Keeps now table_id user_id =
    Keeps-bind StoreOf (retrieve_game_table-Keeps table_id) (λ t h.
      Keeps-bind StoreOf (Keeps-lift StoreOf {Q = (Always StoreOf)} _ (λ i e. tt)) (λ index _.
        Keeps-bind StoreOf
          (Keeps-lift StoreOf {Q = λ u. get_elem? t.users index ≡ some u} _
            (λ u e. or_throw-ok (get_elem? t.users index) type_error u e))
          (λ u here. leave_from-Keeps now user_id t index u here h.live)))

skip_or_leave-Keeps :
    (now table_id : ℕ) (t : Table)
    → IsLive t
    → Keeps StoreOf (Always StoreOf) (skip_or_leave now table_id t)
unfolding skip_or_leave
skip_or_leave-Keeps now table_id t live =
    Keeps-bind StoreOf
      (Keeps-lift StoreOf {Q = λ (r : Table × Bool). IsLive r.0} _
        (λ r e. skip_turn-IsLive now t r live e))
      (λ r live'.
        Keeps-then StoreOf
          (store_game_table-Keeps (record r.0 { updated_at = now })
            (IsLive-same r.0 (record r.0 { updated_at = now }) refl refl refl live'))
          (Keeps-bind StoreOf (retrieve_game_table-Keeps table_id) (λ t' h.
            Keeps-if StoreOf r.1 (λ e. handle_leave_table-Keeps now t'.id t'.current_turn)
              (λ e. skip_and_stay-Keeps now table_id t' h.live))))

pub handle_skip_turn-Keeps :
    (now table_id user_id : ℕ)
    → Keeps StoreOf (Always StoreOf) (handle_skip_turn now table_id user_id)
unfolding handle_skip_turn
handle_skip_turn-Keeps now table_id user_id =
    Keeps-bind StoreOf (retrieve_game_table-Keeps table_id) (λ t h.
      Keeps-if StoreOf (t.current_turn == user_id) (λ e. skip_or_leave-Keeps now table_id t h.live)
        (λ e. Keeps-same (λ w. refl)))

dispatch-Keeps :
    (now table_id turn : ℕ) (action : GameAction)
    → Keeps StoreOf (Always StoreOf) (dispatch now table_id turn action)
unfolding dispatch
dispatch-Keeps now table_id turn GameAction.next = handle_next-Keeps table_id
dispatch-Keeps now table_id turn GameAction.skip_turn = handle_skip_turn-Keeps now table_id turn
dispatch-Keeps now table_id turn GameAction.end_game = handle_end_game-Keeps now table_id
dispatch-Keeps now table_id turn GameAction.waiting = Keeps-same (λ w. refl)
dispatch-Keeps now table_id turn GameAction.pawn_kill = Keeps-same (λ w. refl)
dispatch-Keeps now table_id turn GameAction.roll_dice = Keeps-same (λ w. refl)
dispatch-Keeps now table_id turn GameAction.move_pawn = Keeps-same (λ w. refl)
dispatch-Keeps now table_id turn GameAction.leave_table = Keeps-same (λ w. refl)
dispatch-Keeps now table_id turn GameAction.discard_game = Keeps-same (λ w. refl)

pub handle_timeout-Keeps :
    (now : ℕ) (o : GameTimerOption) → Keeps StoreOf (Always StoreOf) (handle_timeout now o)
unfolding handle_timeout
handle_timeout-Keeps now o = Keeps-bind StoreOf (retrieve_game_table-Keeps o.table_id) (λ t h.
    Keeps-if StoreOf (leb o.target_counter t.counter && not (is_end_game o.action))
      (λ e. Keeps-same (λ w. refl)) (λ e. dispatch-Keeps now o.table_id t.current_turn o.action))
