-- ===== src/SnakesLadders/Gameplay/Starting/Joined.antt =====
-- gameplay.usecases .ts: `startGame` stores a live table, and `clearTable` keeps the others.
use empire_backend.Base.{
  ℕ, suc, ◌+◌, ◌≤◌, ◌≡◌, refl, Bool, true, false, Option, none, some, List, [], ◌∷◌, map, length,
  filter, Distinct, arith, leb, ◌==◌, ap, sym, subst, Bool-cases, inl, inr,
}
use empire_backend.Base.Results.{ok}
use empire_backend.SnakesLadders.Types.{GameStatus, start_timeout_in_seconds}
use empire_backend.SnakesLadders.Table.{
  UserDetails, Table, TableData, seat_users, create, new_table,
}
use empire_backend.SnakesLadders.Table.Invariant.{IsTable}
use empire_backend.SnakesLadders.Table.Invariant.Create.{create-IsTable}
use empire_backend.SnakesLadders.Gameplay.{load, store_and_cache}
use empire_backend.SnakesLadders.Gameplay.Winners.{get_remaining_players, stays}
use empire_backend.SnakesLadders.Gameplay.Keeping.{
  StoreOf, IsLive, Keeps, Always, Keeps-then, Keeps-bind, Keeps-lift, Keeps-if, Keeps-same,
  write-IsStore,
}
use empire_backend.SnakesLadders.Gameplay.Starting.{
  GameConfig, debit_join_fees, delete_big_table_users_if_big_table, started_table, open_table,
  start_game, win_amount_for, game_duration, refund_and_delete, clear_found, clear_table,
}

seat_users-remaining :
    (index : ℕ) (details : List UserDetails)
    → length (filter stays (seat_users index details)) ≡ length details
unfolding seat_users
seat_users-remaining index [] = refl
seat_users-remaining index (d ∷ details) = ap suc (seat_users-remaining (index + 1) details)

create-IsLive :
    (now fresh : ℕ) (details : List UserDetails) (join_fee : ℕ) (win_amount : Option ℕ)
    (status : GameStatus) (timeout turn_timeout end_at : ℕ) (t : Table)
    → 2 ≤ length details
    → Distinct (map (λ (d : UserDetails). d.user_id) details)
    → create now fresh details join_fee win_amount status timeout turn_timeout end_at ≡ ok t
    → IsLive t
unfolding create new_table get_remaining_players
create-IsLive now fresh [] join_fee win_amount status timeout turn_timeout end_at t many distinct
      e =
    absurd (omega (arith, many))
create-IsLive now fresh (d ∷ details) join_fee win_amount status timeout turn_timeout end_at t many
      distinct e =
    let (t', run, valid) =
      create-IsTable now fresh d details join_fee win_amount status timeout turn_timeout end_at
        distinct in
    let users : t.users ≡ seat_users 0 (d ∷ details) = cc e in
    record {
      valid = subst IsTable (cc (run, e)) valid;
      remaining = rw users (subst (λ n. 2 ≤ n) (sym (seat_users-remaining 0 (d ∷ details))) many);
    }

store_and_cache-Keeps : (t : Table) → IsLive t → Keeps StoreOf (Always StoreOf) (store_and_cache t)
unfolding store_and_cache
store_and_cache-Keeps t live = record {
  run = λ w store. (write-IsStore t w.tables live (λ j differs d e. store j d e), λ a e. tt);
}

open_table-Keeps :
    (now : ℕ) (is_enough : ℕ → ℕ → Bool) (c : GameConfig) (user_ids : List ℕ) (t : Table)
    → IsLive t
    → Keeps StoreOf (Always StoreOf) (open_table now is_enough c user_ids t)
unfolding open_table debit_join_fees delete_big_table_users_if_big_table
open_table-Keeps now is_enough c user_ids t live =
    Keeps-then StoreOf (store_and_cache-Keeps t live) (
      Keeps-then StoreOf
        (Keeps-then StoreOf (Keeps-lift StoreOf {Q = (Always StoreOf)} _ (λ a e. tt))
          (Keeps-same (λ w. refl)))
        (Keeps-then StoreOf (Keeps-same (λ w. refl)) (
          Keeps-then StoreOf (Keeps-same (λ w. refl)) (
            Keeps-then StoreOf (Keeps-same (λ w. refl)) (
              Keeps-bind StoreOf (Keeps-lift StoreOf {Q = (Always StoreOf)} _ (λ a e. tt)) (λ l _.
                Keeps-then StoreOf (Keeps-same (λ w. refl)) (
                  Keeps-if StoreOf (leb c.minimum_join_amount c.join_fee)
                    (λ _. Keeps-same (λ w. refl)) (λ _. Keeps-same (λ w. refl)))))))))

pub start_game-Keeps :
    (now fresh : ℕ) (is_enough : ℕ → ℕ → Bool) (c : GameConfig) (users : List UserDetails)
    → 2 ≤ length users
    → Distinct (map (λ (d : UserDetails). d.user_id) users)
    → Keeps StoreOf (Always StoreOf) (start_game now fresh is_enough c users)
unfolding start_game started_table
start_game-Keeps now fresh is_enough c users many distinct =
    Keeps-then StoreOf
      (Keeps-if StoreOf (c.join_fee == 0) (λ _. Keeps-same (λ w. refl))
        (λ _. Keeps-same (λ w. refl)))
      (Keeps-bind StoreOf
        (Keeps-lift StoreOf {Q = IsLive} _ (λ t e.
          create-IsLive now fresh users c.join_fee (win_amount_for c.winnings (length users))
            GameStatus.ongoing (now + (start_timeout_in_seconds + c.turn_timer)) c.turn_timer
            (now + (start_timeout_in_seconds + game_duration c (length users))) t many distinct e))
        (λ t live. open_table-Keeps now is_enough c _ t live))

refund_and_delete-Keeps :
    (table_id : ℕ) (t : Table) → Keeps StoreOf (Always StoreOf) (refund_and_delete table_id t)
unfolding refund_and_delete
refund_and_delete-Keeps table_id t = Keeps-then StoreOf (Keeps-same (λ w. refl)) (
    Keeps-then StoreOf
      (record {
        run = λ w store. (
          λ j d h. elim (Bool-cases (j == table_id)) [
            | inl hit ↦ cc (rw hit at h)
            | inr miss ↦ store j d (rw miss at h)
          ],
          λ a e. tt,
        );
      })
      (Keeps-lift StoreOf (ok true) (λ a e. tt)))

pub clear_table-Keeps : (table_id : ℕ) → Keeps StoreOf (Always StoreOf) (clear_table table_id)
unfolding clear_table
clear_table-Keeps table_id = record {
  run = λ w store. (clear_found-Keeps (w.tables table_id)).run w store;
}
  where
    clear_found-Keeps :
        (o : Option TableData) → Keeps StoreOf (Always StoreOf) (clear_found table_id o)
    clear_found-Keeps none = Keeps-lift StoreOf (ok false) (λ a e. tt)
    clear_found-Keeps (some d) =
        Keeps-bind StoreOf (Keeps-lift StoreOf {Q = (Always StoreOf)} (load (some d)) (λ t e. tt))
          (λ t _. refund_and_delete-Keeps table_id t)
