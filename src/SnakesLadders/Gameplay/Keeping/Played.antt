-- ===== src/SnakesLadders/Gameplay/Keeping/Played.antt =====
-- gameplay.usecases .ts: `handleRollDice`, `handleMovePawn`, `handleNext` and `handleSkipTurn` for
-- a player who stays keep the stored tables valid.
use empire_backend.Base.{ℕ, ◌≤◌, ◌≡◌, refl, false, not, ◌||◌, some, length, get_elem?, ◌==◌, subst}
use empire_backend.Base.Results.{ok, bad_request, throw_if-eq-ok}
use empire_backend.SnakesLadders.Types.{Board, PawnId, is_roll_dice}
use empire_backend.SnakesLadders.Pawn.Laws.{IsBoard}
use empire_backend.SnakesLadders.Table.{User, Table}
use empire_backend.SnakesLadders.Table.Turn.{set_next_turn, roll_dice, check_if_pass_turn_to_next}
use empire_backend.SnakesLadders.Table.Turn.Next.{set_next_turn-IsNextSeat}
use empire_backend.SnakesLadders.Table.Move.{MoveResult, after_move, move_pawn, should_end_game}
use empire_backend.SnakesLadders.Table.Move.Facts.{move_pawn-MoveFacts}
use empire_backend.SnakesLadders.Table.Invariant.{IsLayout}
use empire_backend.SnakesLadders.Table.Invariant.Keeps.{set_next_turn-IsTable}
use empire_backend.SnakesLadders.Table.Invariant.Moves.{move_pawn-IsTable}
use empire_backend.SnakesLadders.Gameplay.Winners.{get_remaining_players}
use empire_backend.SnakesLadders.Gameplay.Playing.{
  announce_roll, after_roll, player_id_of, roll_for, handle_roll_dice, roll_next, settle_move,
  end_or_continue, handle_move_pawn, handle_next,
}
use empire_backend.SnakesLadders.Gameplay.Keeping.{
  StoreOf, IsLive, Keeps, Always, Keeps-then, Keeps-bind, Keeps-lift, Keeps-if, Keeps-same,
  retrieve_game_table-Keeps, IsLive-same, store_game_table-Keeps,
}
use empire_backend.SnakesLadders.Gameplay.Keeping.Ended.{handle_end_game-Keeps}

-- The turn goes on at a table whose layout is valid and where two players remain.
pub set_next_turn-IsLive :
    (user_id : ℕ) (t t' : Table) (i : ℕ) (u : User)
    → IsLayout t
    → 2 ≤ length (get_remaining_players t)
    → get_elem? t.users i ≡ some u
    → u.did_leave ≡ false
    → set_next_turn user_id t ≡ ok t'
    → IsLive t'
unfolding get_remaining_players
set_next_turn-IsLive user_id t t' i u layout many seat stay e =
    let (turn, run, n) = set_next_turn-IsNextSeat user_id t i u seat stay in
    let next : t' ≡ record t { current_turn = turn } = cc (run, e) in
    record {
      valid = set_next_turn-IsTable user_id t t' i u layout seat stay e;
      remaining = rw next many;
    }

pub next-IsLive :
    (user_id : ℕ) (t t' : Table) → IsLive t → set_next_turn user_id t ≡ ok t' → IsLive t'
next-IsLive user_id t t' h =
    set_next_turn-IsLive user_id t t' h.valid.turn.index h.valid.turn.user h.valid.layout
      h.remaining h.valid.turn.seat h.valid.turn.stays

roll_dice-IsLive :
    (now outcome : ℕ) (t : Table) (r : ℕ × Table)
    → IsLive t
    → roll_dice now outcome t ≡ ok r
    → IsLive r.1
unfolding roll_dice
roll_dice-IsLive now outcome t (dice, t') h e =
    let (_, e') = throw_if-eq-ok (not (is_roll_dice t.action)) bad_request _ e in
    IsLive-same t t' (cc e') (cc e') (cc e') h

announce_roll-Keeps :
    (now table_id player_id dice : ℕ) (t : Table)
    → IsLive t
    → Keeps StoreOf (Always StoreOf) (announce_roll now table_id player_id dice t)
unfolding announce_roll
announce_roll-Keeps now table_id player_id dice t live =
    let stored = record t { updated_at = now } in
    Keeps-then StoreOf (store_game_table-Keeps stored (IsLive-same t stored refl refl refl live)) (
      Keeps-then StoreOf (Keeps-same (λ w. refl))
        (Keeps-then StoreOf (Keeps-same (λ w. refl)) (Keeps-same (λ w. refl))))

after_roll-Keeps :
    (now table_id dice : ℕ) (t : Table) (player_id : ℕ)
    → IsLive t
    → Keeps StoreOf (Always StoreOf) (after_roll now table_id dice t player_id)
unfolding after_roll
after_roll-Keeps now table_id dice t player_id live =
    Keeps-if StoreOf (check_if_pass_turn_to_next t)
      (λ e.
        Keeps-bind StoreOf
          (Keeps-lift StoreOf {Q = IsLive} _
            (λ t' next. next-IsLive t.current_turn _ t' (IsLive-same t _ refl refl refl live) next))
          (λ t' live'. announce_roll-Keeps now table_id player_id dice t' live'))
      (λ e. announce_roll-Keeps now table_id player_id dice _ (IsLive-same t _ refl refl refl live))

pub handle_roll_dice-Keeps :
    (now num den user_id table_id : ℕ)
    → Keeps StoreOf (Always StoreOf) (handle_roll_dice now num den user_id table_id)
unfolding handle_roll_dice roll_for
handle_roll_dice-Keeps now num den user_id table_id =
    Keeps-bind StoreOf (retrieve_game_table-Keeps table_id) (λ t h.
      Keeps-if StoreOf (user_id == t.current_turn)
        (λ e.
          Keeps-bind StoreOf
            (Keeps-lift StoreOf {Q = λ (r : ℕ × Table). IsLive r.1} _
              (λ r rolled. roll_dice-IsLive now _ t r h.live rolled))
            (λ r live.
              Keeps-bind StoreOf (Keeps-lift StoreOf {Q = (Always StoreOf)} _ (λ u found. tt))
                (λ u _. after_roll-Keeps now table_id r.0 r.1 (player_id_of u) live)))
        (λ e. Keeps-same (λ w. refl)))

move_pawn-IsLive :
    (now table_id : ℕ) (pawn_id : PawnId) (dice : ℕ) (board : Board) (t : Table)
    (r : MoveResult × Table)
    → IsBoard board
    → IsLive t
    → move_pawn now table_id pawn_id dice board t ≡ ok r
    → IsLive r.1
unfolding get_remaining_players after_move
move_pawn-IsLive now table_id pawn_id dice board t (r, t') b h e =
    let f = move_pawn-MoveFacts now table_id pawn_id dice board t r t' h.valid.seated e in
    record {
      valid = move_pawn-IsTable now table_id pawn_id dice board t r t' b h.valid e;
      remaining = rw f.after h.remaining;
    }

settle_move-Keeps :
    (now table_id : ℕ) (r : MoveResult) (t : Table)
    → IsLive t
    → Keeps StoreOf IsLive (settle_move now table_id r t)
unfolding settle_move
settle_move-Keeps now table_id r t live =
    Keeps-if StoreOf (r.is_home_flag || r.kill_pawn_flag)
      (λ e. Keeps-then StoreOf (store_game_table-Keeps (roll_next now t) (next_live t live)) (
        Keeps-then StoreOf
          (Keeps-if StoreOf r.kill_pawn_flag (λ _. Keeps-same (λ w. refl))
            (λ _. Keeps-same (λ w. refl)))
          (Keeps-lift StoreOf (ok (roll_next now t))
            (λ t' h. subst IsLive (cc h) (next_live t live)))))
      (λ e.
        Keeps-bind StoreOf
          (Keeps-lift StoreOf {Q = IsLive} _ (λ t' h. next-IsLive t.current_turn t t' live h))
          (λ t' live'.
            Keeps-then StoreOf (store_game_table-Keeps (roll_next now t') (next_live t' live')) (
              Keeps-lift StoreOf (ok (roll_next now t'))
                (λ u h. subst IsLive (cc h) (next_live t' live')))))
  where
    next_live : (u : Table) → IsLive u → IsLive (roll_next now u)
    next_live u h = IsLive-same u (roll_next now u) refl refl refl h

pub end_or_continue-Keeps :
    (now table_id delay : ℕ) (t : Table)
    → Keeps StoreOf (Always StoreOf) (end_or_continue now table_id delay t)
unfolding end_or_continue
end_or_continue-Keeps now table_id delay t =
    Keeps-if StoreOf (should_end_game t) (λ e. handle_end_game-Keeps now table_id)
      (λ e. Keeps-then StoreOf (Keeps-same (λ w. refl)) (Keeps-same (λ w. refl)))

pub handle_move_pawn-Keeps :
    (now : ℕ) (board : Board) (table_id : ℕ) (pawn_id : PawnId)
    → IsBoard board
    → Keeps StoreOf (Always StoreOf) (handle_move_pawn now board table_id pawn_id)
unfolding handle_move_pawn
handle_move_pawn-Keeps now board table_id pawn_id b =
    Keeps-bind StoreOf (retrieve_game_table-Keeps table_id) (λ t h.
      Keeps-bind StoreOf
        (Keeps-lift StoreOf {Q = λ (r : MoveResult × Table). IsLive r.1} _
          (λ r moved. move_pawn-IsLive now table_id pawn_id t.dice board t r b h.live moved))
        (λ r live. Keeps-then StoreOf (Keeps-same (λ w. refl)) (
          Keeps-bind StoreOf (settle_move-Keeps now table_id r.0 r.1 live)
            (λ t' live'. end_or_continue-Keeps now table_id _ t'))))

pub handle_next-Keeps : (table_id : ℕ) → Keeps StoreOf (Always StoreOf) (handle_next table_id)
unfolding handle_next
handle_next-Keeps table_id =
    Keeps-bind StoreOf (retrieve_game_table-Keeps table_id) (λ t h. Keeps-same (λ w. refl))
