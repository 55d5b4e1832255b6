-- ===== src/LudoMega/Gameplay/Kept.antt =====
-- gameplay.use-cases.ts: whatever is stored is a valid table, after any sequence of handlers.
use empire_backend.Base.{
  ℕ, ◌≡◌, refl, sym, subst, Bool, inl, inr, Option, none, some, List, [], ◌∷◌, map, ◌==◌, leb,
  Bool-cases,
}
use mathlib.Core.Option.{some-injective}
use empire_backend.Base.Keeping.{Keeps, Always, Keeps-bind, Keeps-then, Keeps-lift, Keeps-if}
use empire_backend.Base.Results.{ok, ok-injective}
use empire_backend.LudoMega.{
  GameAction, start_game, skip_turn, end_game, roll_dice, move_pawn, leave_table, discard_game,
  PawnId,
}
use empire_backend.LudoMega.Pawn.{
  Pawn, from_pawn_position, from_pawn_id, to_pawn_position, get_pawn_id,
}
use empire_backend.LudoMega.Table.{
  Table, TableData, from_data, to_data, already_started, increment_counter_and_timeout,
}
use empire_backend.LudoMega.Table.Offers.{get_can_move_pawns}
use empire_backend.LudoMega.Table.Turn
use empire_backend.LudoMega.Table.Turn.{Rolled, roll_dice_on, should_end_game, get_home_pawn_count}
use empire_backend.LudoMega.Table.Move.{Moved, move_pawn_on}
use empire_backend.LudoMega.Table.Valid.{IsTable, IsDice}
use empire_backend.LudoMega.Table.Valid.Kept.{skip_turn-IsTable, roll_dice_on-IsTable}
use empire_backend.LudoMega.Table.Valid.Moves.{move_pawn_on-IsTable}
use empire_backend.LudoMega.Gameplay.{
  World, Action, load, write, retrieve_game_table, store_game_table, store_and_cache,
  prepare_game_table, delete_game_table, emit_skipped, begin_game, handle_ready_to_start, go_on,
  after_roll, handle_roll_dice, finish_game, end_with, handle_end_game, after_move_request,
  handle_move_pawn, after_skip, handle_skip_turn, dispatch, handle_timeout, GameTimerOption,
}

from_pawn_position-to_pawn_position :
    (pawns : List Pawn) → map from_pawn_position (map to_pawn_position pawns) ≡ pawns
unfolding from_pawn_position from_pawn_id to_pawn_position get_pawn_id
from_pawn_position-to_pawn_position [] = refl
from_pawn_position-to_pawn_position (p ∷ pawns) =
    rw (from_pawn_position-to_pawn_position pawns) refl

-- A table that is stored is read back as it was.
pub from_data-to_data : (t : Table) → from_data (to_data t) ≡ t
unfolding from_data to_data
from_data-to_data t = rw (from_pawn_position-to_pawn_position t.pawns) refl

unfoldable pub IsStore : (ℕ → Option TableData) → Type 0
IsStore m = (table_id : ℕ) (d : TableData) → m table_id ≡ some d → IsTable (from_data d)

abbrev pub StoreOf : World → Type 0
StoreOf w = IsStore w.tables

write-IsStore :
    (k : ℕ) (t : Table) (m : ℕ → Option TableData)
    → IsTable t
    → IsStore m
    → IsStore (write k (some (to_data t)) m)
unfolding IsStore
write-IsStore k t m valid store table_id d here = elim (Bool-cases (table_id == k)) [
  | inl hit ↦
      subst (λ x. IsTable (from_data x)) (some-injective (to_data t) d (rw hit at here))
        (subst IsTable (sym (from_data-to_data t)) valid)
  | inr miss ↦ store table_id d (rw miss at here)
]

delete-IsStore : (k : ℕ) (m : ℕ → Option TableData) → IsStore m → IsStore (write k none m)
unfolding IsStore
delete-IsStore k m store table_id d here = elim (Bool-cases (table_id == k)) [
  | inl hit ↦ absurd (cc (rw hit at here))
  | inr miss ↦ store table_id d (rw miss at here)
]

abbrev Keep : {T : Type 0} → Action T → Type 0
Keep m = Keeps StoreOf (Always StoreOf) m

Keeps-same : {m : Action (Unit {0})} → ((w : World) → (m w).1.tables ≡ w.tables) → Keep m
Keeps-same {m} h = record { run = λ w store. (subst IsStore (sym (h w)) store, λ a e. tt) }

load-IsTable :
    (o : Option TableData) (t : Table)
    → ((d : TableData) → o ≡ some d → IsTable (from_data d))
    → load o ≡ ok t
    → IsTable t
load-IsTable none t h e = cc
load-IsTable (some d) t h e = subst IsTable (ok-injective (from_data d) t e) (h d refl)

retrieve_game_table-Keeps : (table_id : ℕ) → Keeps StoreOf IsTable (retrieve_game_table table_id)
unfolding retrieve_game_table IsStore
retrieve_game_table-Keeps table_id = record {
  run = λ w store. (store, λ t e. load-IsTable (w.tables table_id) t (store table_id) e);
}

store_game_table-Keeps : (t : Table) → IsTable t → Keep (store_game_table t)
unfolding store_game_table
store_game_table-Keeps t valid = record {
  run = λ w store. (write-IsStore t.id t w.tables valid store, λ a e. tt);
}

pub prepare_game_table-Keeps : (t : Table) → IsTable t → Keep (prepare_game_table t)
unfolding prepare_game_table store_and_cache
prepare_game_table-Keeps t valid =
    Keeps-then StoreOf
      record { run = λ w store. (write-IsStore t.id t w.tables valid store, λ a e. tt) }
      (Keeps-same (λ w. refl))

go_on-Keeps : (table_id : ℕ) (t : Table) → Keep (go_on table_id t)
unfolding go_on
go_on-Keeps table_id t = Keeps-then StoreOf (Keeps-same (λ w. refl)) (Keeps-same (λ w. refl))

increment-IsTable :
    (now : ℕ) (t : Table) → IsTable t → IsTable (increment_counter_and_timeout now t)
unfolding IsTable increment_counter_and_timeout get_can_move_pawns
increment-IsTable now t h = h

begin_game-Keeps : (now table_id : ℕ) (t : Table) → IsTable t → Keep (begin_game now table_id t)
unfolding begin_game
begin_game-Keeps now table_id t valid = Keeps-then StoreOf (Keeps-same (λ w. refl)) (
    Keeps-then StoreOf (store_game_table-Keeps _ (increment-IsTable now t valid))
      (Keeps-lift StoreOf _ (λ v e. tt)))

pub handle_ready_to_start-Keeps : (now table_id : ℕ) → Keep (handle_ready_to_start now table_id)
unfolding handle_ready_to_start
handle_ready_to_start-Keeps now table_id =
    Keeps-bind StoreOf (retrieve_game_table-Keeps table_id) (λ t valid.
      Keeps-if StoreOf (already_started t) (λ e. Keeps-lift StoreOf _ (λ v e. tt))
        (λ e. begin_game-Keeps now table_id t valid))

emit_skipped-Keeps : (o : Option Turn.MovePawnResponseEvent) → Keep (emit_skipped o)
emit_skipped-Keeps none = Keeps-same (λ w. refl)
emit_skipped-Keeps (some e) = Keeps-same (λ w. refl)

after_roll-Keeps : (table_id : ℕ) (r : Rolled) → IsTable r.1 → Keep (after_roll table_id r)
unfolding after_roll
after_roll-Keeps table_id (skipped_move, t) valid =
    Keeps-then StoreOf (store_game_table-Keeps t valid) (
      Keeps-then StoreOf (emit_skipped-Keeps skipped_move) (
        Keeps-if StoreOf (should_end_game t) (λ e. Keeps-same (λ w. refl))
          (λ e. go_on-Keeps table_id t)))

pub handle_roll_dice-Keeps :
    (extra : Bool) (now dice table_id user_id : ℕ)
    → IsDice dice
    → Keep (handle_roll_dice extra now dice table_id user_id)
unfolding handle_roll_dice
handle_roll_dice-Keeps extra now dice table_id user_id is_dice =
    Keeps-bind StoreOf (retrieve_game_table-Keeps table_id) (λ t valid.
      Keeps-bind StoreOf
        (Keeps-lift StoreOf {Q = λ r. IsTable r.1} (roll_dice_on extra now dice t)
          (λ r h. roll_dice_on-IsTable extra now dice t is_dice valid h))
        (λ r kept.
          Keeps-then StoreOf (after_roll-Keeps table_id r kept) (Keeps-lift StoreOf _ (λ v e. tt))))

finish_game-Keeps : (table_id : ℕ) (t : Table) → Keep (finish_game table_id t)
unfolding finish_game delete_game_table
finish_game-Keeps table_id t =
    Keeps-then StoreOf
      record { run = λ w store. (delete-IsStore table_id w.tables store, λ a e. tt) }
      (Keeps-same (λ w. refl))

pub handle_end_game-Keeps : (table_id : ℕ) → Keep (handle_end_game table_id)
unfolding handle_end_game end_with
handle_end_game-Keeps table_id = Keeps-bind StoreOf (retrieve_game_table-Keeps table_id) (λ t valid.
    Keeps-if StoreOf (get_home_pawn_count t.pawns == 4)
      (λ e.
        Keeps-then StoreOf (Keeps-same (λ w. refl))
          (finish_game-Keeps table_id (Turn.credit_bonus_for_remaining_moves t)))
      (λ e. finish_game-Keeps table_id t))

after_move_request-Keeps :
    (table_id : ℕ) (r : Moved) → IsTable r.1 → Keep (after_move_request table_id r)
unfolding after_move_request
after_move_request-Keeps table_id (response, t) valid =
    Keeps-then StoreOf (store_game_table-Keeps t valid) (
      Keeps-then StoreOf
        (Keeps-if StoreOf (should_end_game t) (λ e. handle_end_game-Keeps table_id)
          (λ e. go_on-Keeps table_id t))
        (Keeps-lift StoreOf _ (λ v e. tt)))

pub handle_move_pawn-Keeps :
    (now user_id table_id : ℕ) (pawn : PawnId) (dice : ℕ)
    → Keep (handle_move_pawn now user_id table_id pawn dice)
unfolding handle_move_pawn
handle_move_pawn-Keeps now user_id table_id pawn dice =
    Keeps-bind StoreOf (retrieve_game_table-Keeps table_id) (λ t valid.
      Keeps-bind StoreOf
        (Keeps-lift StoreOf {Q = λ r. IsTable r.1} (move_pawn_on now pawn dice t)
          (λ r h. move_pawn_on-IsTable now pawn dice t valid h))
        (λ r kept. after_move_request-Keeps table_id r kept))

pub handle_skip_turn-Keeps : (now table_id : ℕ) → Keep (handle_skip_turn now table_id)
unfolding handle_skip_turn after_skip
handle_skip_turn-Keeps now table_id =
    Keeps-bind StoreOf (retrieve_game_table-Keeps table_id) (λ t valid.
      Keeps-if StoreOf (should_end_game (Turn.skip_turn now t))
        (λ e. handle_end_game-Keeps table_id)
        (λ e. Keeps-then StoreOf (Keeps-same (λ w. refl)) (
          Keeps-then StoreOf (store_game_table-Keeps _ (skip_turn-IsTable now t valid))
            (Keeps-same (λ w. refl)))))

dispatch-Keeps : (now table_id : ℕ) (a : GameAction) → Keep (dispatch now table_id a)
unfolding dispatch
dispatch-Keeps now table_id start_game =
    Keeps-bind StoreOf (handle_ready_to_start-Keeps now table_id) (λ e _. Keeps-same (λ w. refl))
dispatch-Keeps now table_id skip_turn = handle_skip_turn-Keeps now table_id
dispatch-Keeps now table_id end_game = handle_end_game-Keeps table_id
dispatch-Keeps now table_id roll_dice = Keeps-same (λ w. refl)
dispatch-Keeps now table_id move_pawn = Keeps-same (λ w. refl)
dispatch-Keeps now table_id leave_table = Keeps-same (λ w. refl)
dispatch-Keeps now table_id discard_game = Keeps-same (λ w. refl)

pub handle_timeout-Keeps : (now : ℕ) (o : GameTimerOption) → Keep (handle_timeout now o)
unfolding handle_timeout
handle_timeout-Keeps now o = Keeps-bind StoreOf (retrieve_game_table-Keeps o.table_id) (λ t valid.
    Keeps-if StoreOf (leb o.target_counter t.counter) (λ e. Keeps-same (λ w. refl))
      (λ e. dispatch-Keeps now o.table_id o.action))
