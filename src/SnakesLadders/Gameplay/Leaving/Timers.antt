-- ===== src/SnakesLadders/Gameplay/Leaving/Timers.antt =====
-- game-timer.usecases.ts: a timer that was started for one state of a table does nothing once the
-- table has moved on.
use empire_backend.Base.{
  ℕ, ◌+◌, ◌≤◌, ◌≡◌, refl, true, false, not, some, leb, arith, Bool-cases, inl, inr, find?,
  find_index, length, ◌∙◌, sym, ==_self, subst,
}
use empire_backend.Base.Results
use empire_backend.Base.Results.{
  Result, ok, err, or_throw, or_throw-eq-ok, throw_if-eq-ok, bad_request, type_error,
}
use empire_backend.SnakesLadders.Types.{GameAction, GameStatus, is_roll_dice}
use empire_backend.SnakesLadders.Table.{Table, to_data}
use empire_backend.SnakesLadders.Table.Stored.{new_table-to_data}
use empire_backend.SnakesLadders.Table.Turn.{
  roll_dice, set_next_turn, is_user, next_turn_from, start_after, check_if_pass_turn_to_next,
  get_random_dice_outcome,
}
use empire_backend.SnakesLadders.Gameplay.{
  World, GameTimerOption, Action, ◌>>=◌, ◌>>◌, then_run, lift, load, write, skip_timer,
}
use empire_backend.SnakesLadders.Gameplay.Stored.{retrieve_game_table-ok}
use empire_backend.SnakesLadders.Gameplay.Playing.{
  announce_roll, after_roll, roll_for, handle_roll_dice,
}
use empire_backend.SnakesLadders.Gameplay.Leaving.{is_end_game, handle_timeout}

-- The timer's table has reached the counter the timer waits for.
pub handle_timeout-stale :
    (now : ℕ) (o : GameTimerOption) (w : World) (t : Table)
    → load (w.tables o.table_id) ≡ ok t
    → o.target_counter ≤ t.counter
    → is_end_game o.action ≡ false
    → handle_timeout now o w ≡ (ok tt, w)
unfolding handle_timeout ◌>>=◌
handle_timeout-stale now o w t stored late other =
    let reached : leb o.target_counter t.counter ≡ true = ground arith in
    rw (retrieve_game_table-ok o.table_id w stored, reached, other)

-- A table is stored whose counter is one above that of `t`.
IsAhead : Table → World → Type 0
IsAhead t w = (t' : Table) × (load (w.tables t.id) ≡ ok t') × (t'.counter ≡ t.counter + 1)

announce_roll-IsAhead :
    (now table_id player_id dice : ℕ) (t t' : Table) (w w' : World)
    → t'.id ≡ t.id
    → t'.counter ≡ t.counter + 1
    → announce_roll now table_id player_id dice t' w ≡ (ok tt, w')
    → IsAhead t w'
unfolding announce_roll ◌>>=◌ ◌>>◌ IsAhead
announce_roll-IsAhead now table_id player_id dice t t' w w' id counter e =
    let stored = record t' { updated_at = now } in
    let tables : w'.tables ≡ write t'.id (some (to_data stored)) w.tables = cc e in
    let read : load (write t'.id (some (to_data stored)) w.tables t.id)
        ≡ ok (record stored { status = GameStatus.waiting }) =
      subst
        (λ k.
          load (write t'.id (some (to_data stored)) w.tables k)
          ≡ ok (record stored { status = GameStatus.waiting }))
        id (rw (==_self t'.id) (new_table-to_data 0 stored)) in
    (
      record stored { status = GameStatus.waiting },
      subst (λ m. load (m t.id) ≡ ok (record stored { status = GameStatus.waiting })) (sym tables)
          read,
      counter,
    )

-- What a successful action has passed.
>>=-eq-ok :
    {A B : Type 0} (m : Action A) (f : A → Action B) (w w' : World) {b : B}
    → (m >>= f) w ≡ (ok b, w')
    → (a : A) × ((v : World) × (m w ≡ (ok a, v)) × (f a v ≡ (ok b, w')))
unfolding ◌>>=◌
>>=-eq-ok {A} {B} m f w w' {b} e = go (m w) refl e
  where
    go :
        (r : Result A × World)
        → m w ≡ r
        → then_run r f ≡ (ok b, w')
        → (a : A) × ((v : World) × (m w ≡ (ok a, v)) × (f a v ≡ (ok b, w')))
    go (ok a, v) e' h = (a, (v, e', h))
    go (err x, v) e' h = cc

set_next_turn-keeps :
    (user_id : ℕ) (t t' : Table)
    → set_next_turn user_id t ≡ ok t'
    → (t'.id ≡ t.id) × (t'.counter ≡ t.counter)
unfolding set_next_turn
set_next_turn-keeps user_id t t' e =
    let (turn, run, rest) =
      Results.>>=-eq-ok
        (next_turn_from (length t.users) (start_after (find_index (is_user user_id) t.users))
          t.users)
        _ e in
    (cc rest, cc rest)

after_roll-IsAhead :
    (now table_id dice : ℕ) (t t' : Table) (player_id : ℕ) (w w' : World)
    → t'.id ≡ t.id
    → t'.counter ≡ t.counter + 1
    → after_roll now table_id dice t' player_id w ≡ (ok tt, w')
    → IsAhead t w'
unfolding after_roll
after_roll-IsAhead now table_id dice t t' player_id w w' id counter e =
    elim (Bool-cases (check_if_pass_turn_to_next t')) [
      | inl pass ↦
          let (t2, (v, run, rest)) =
            >>=-eq-ok
              (lift (set_next_turn t'.current_turn (record t' { action = GameAction.roll_dice }))) _
              w w' (rw pass at e) in
          let (same_id, same_counter) =
            set_next_turn-keeps t'.current_turn (record t' { action = GameAction.roll_dice }) t2
              (cc run) in
          announce_roll-IsAhead now table_id player_id dice t t2 v w' (same_id ∙ id)
            (same_counter ∙ counter) rest
      | inr stay ↦
          announce_roll-IsAhead now table_id player_id dice t
            (record t' { action = GameAction.move_pawn }) w w' id counter (rw stay at e)
    ]

roll_for-IsAhead :
    (now outcome user_id table_id : ℕ) (t : Table) (w w' : World)
    → roll_for now outcome user_id table_id t w ≡ (ok tt, w')
    → IsAhead t w'
unfolding roll_for roll_dice
roll_for-IsAhead now outcome user_id table_id t w w' e =
    let ((dice, t'), (v, run, rest)) = >>=-eq-ok (lift (roll_dice now outcome t)) _ w w' e in
    let rolled : roll_dice now outcome t ≡ ok (dice, t') = cc run in
    let (_, after) = throw_if-eq-ok (not (is_roll_dice t.action)) bad_request _ rolled in
    let (u, (v', _, end)) =
      >>=-eq-ok (lift (or_throw (find? (is_user user_id) t'.users) type_error)) _ v w' rest in
    after_roll-IsAhead now table_id dice t t' u.player_id v' w' (cc after) (cc after) end

-- A roll that succeeds cancels the timer that was set for the roll: whenever it fires afterwards,
-- before anything else has changed, it does nothing.
pub handle_roll_dice-cancels :
    (now num den table_id now' : ℕ) (t : Table) (w w' : World)
    → load (w.tables table_id) ≡ ok t
    → t.id ≡ table_id
    → handle_roll_dice now num den t.current_turn table_id w ≡ (ok tt, w')
    → handle_timeout now' (skip_timer t) w' ≡ (ok tt, w')
unfolding handle_roll_dice IsAhead ◌>>=◌
handle_roll_dice-cancels now num den table_id now' t w w' stored id e =
    let run : handle_roll_dice now num den t.current_turn table_id w
        ≡ roll_for now (get_random_dice_outcome num den) t.current_turn table_id t w =
      rw (retrieve_game_table-ok table_id w stored, ==_self t.current_turn) refl in
    let (t', read, counter) = roll_for-IsAhead now _ t.current_turn table_id t w w' (sym run ∙ e) in
    handle_timeout-stale now' (skip_timer t) w' t' read (omega (arith, counter)) refl
