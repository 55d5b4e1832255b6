-- ===== src/SnakesLadders/Gameplay/Ending/Payout.antt =====
-- gameplay.usecases .ts: who is paid by `handleEndGame`, and how much.
use empire_backend.Base.{
  ℕ, suc, ◌+◌, ◌≡◌, refl, ◌≢◌, inl, inr, true, false, none, some, List, [], ◌∷◌, ◌++◌, map,
  append-nil, append_assoc, arith, ◌==◌, get_elem?, find_index, ==_self, filter, All, Distinct,
  Bool-cases, ap, sym, length, ◌∙◌, subst, find_index-Distinct,
}
use empire_backend.Base.Results.{ok}
use empire_backend.SnakesLadders.Types.{GameStatus, is_completed}
use empire_backend.SnakesLadders.Table.{User, Table, to_data}
use empire_backend.SnakesLadders.Table.Turn.{is_user}
use empire_backend.SnakesLadders.Gameplay.{
  World, EndGameEvent, WalletCall, Share, credit_winning_amount, load, ◌>>=◌, ◌>>◌,
  store_game_table, write, without_keys, game_end_res,
}
use empire_backend.SnakesLadders.Gameplay.Winners.{
  get_remaining_players, get_total_score, scores_of, is_winner,
}
use empire_backend.SnakesLadders.Gameplay.Stored.{retrieve_game_table-ok}
use empire_backend.SnakesLadders.Gameplay.Ending.Winning.{wins, wins-count}
use empire_backend.SnakesLadders.Table.Stored.{new_table-to_data}
use empire_backend.SnakesLadders.Gameplay.Ending.{
  id_of, has_won, share, end_game_data, settle, settle_all, finish_game, handle_end_game,
}

abbrev pub credits : ℕ → Table → List User → List WalletCall
credits table_id t users =
    map (λ (u : User). credit_winning_amount u.user_id table_id (share t)) (filter (wins t) users)

-- Where the user is found by their id.
abbrev IsFound : Table → User → Type 0
IsFound t u =
    (i : ℕ) × (find_index (is_user u.user_id) t.users ≡ some i) × (get_elem? t.users i ≡ some u)

has_won-eq :
    (t : Table) (u : User) (i : ℕ)
    → find_index (is_user u.user_id) t.users ≡ some i
    → has_won t i u ≡ wins t u
unfolding has_won get_total_score
has_won-eq t u i found = rw found

settle-eq :
    (table_id : ℕ) (t : Table) (u : User) (i : ℕ) (w : World)
    → find_index (is_user u.user_id) t.users ≡ some i
    → settle table_id t u.user_id i u w ≡ (
      ok (end_game_data t u.user_id i u),
      record w { wallet = w.wallet ++ credits table_id t (u ∷ []) },
    )
unfolding settle ◌>>=◌ ◌>>◌
settle-eq table_id t u i w found = elim (Bool-cases (wins t u)) [
  | inl e ↦ rw (has_won-eq t u i found, e)
  | inr e ↦ rw (has_won-eq t u i found, e, append-nil w.wallet)
]

credits-cons :
    (table_id : ℕ) (t : Table) (u : User) (users : List User) (l : List WalletCall)
    → (l ++ credits table_id t (u ∷ [])) ++ credits table_id t users
      ≡ l ++ credits table_id t (u ∷ users)
credits-cons table_id t u users l = elim (Bool-cases (wins t u)) [
  | inl e ↦ rw (e, append_assoc l)
  | inr e ↦ rw (e, append-nil l)
]

settle_all-eq :
    (table_id : ℕ) (t : Table) (users : List User) (w : World)
    → All (IsFound t) users
    → (l : List EndGameEvent) × (settle_all table_id t (map id_of users) w
        ≡ (ok l, record w { wallet = w.wallet ++ credits table_id t users }))
unfolding settle_all ◌>>=◌ ◌>>◌
settle_all-eq table_id t [] w h = ([], rw (append-nil w.wallet))
settle_all-eq table_id t (u ∷ users) w ((i, found, here), h) =
    let w' : World = record w { wallet = w.wallet ++ credits table_id t (u ∷ []) } in
    let (l, rest) = settle_all-eq table_id t users w' h in
    (
      end_game_data t u.user_id i u ∷ l,
      simp (
        found,
        here,
        settle-eq table_id t u i w found,
        rest,
        credits-cons table_id t u users w.wallet,
      ),
    )

-- Each user is found under their own id.
users-IsFound :
    (t : Table) (users : List User) (before : ℕ)
    → Distinct (map id_of t.users)
    → ((j : ℕ) (v : User) → get_elem? users j ≡ some v → get_elem? t.users (before + j) ≡ some v)
    → All (IsFound t) users
users-IsFound t [] before distinct h = tt
users-IsFound t (u ∷ users) before distinct h = (
  (before + 0, find_index-Distinct id_of t.users (before + 0) distinct (h 0 u refl), h 0 u refl),
  users-IsFound t users (before + 1) distinct
      (λ j v e. subst (λ n. get_elem? t.users n ≡ some v) (omega arith) (h (suc j) v e)),
)

-- The amount won and the number of the winners, each of whom gets an equal part of it.
abbrev pub equal_share : Table → Share
equal_share t = record { win_amount = t.win_amount; winners = length (filter (wins t) t.users) }

abbrev pub payments : ℕ → Table → List WalletCall
payments table_id t =
    map (λ (u : User). credit_winning_amount u.user_id table_id (equal_share t))
      (filter (wins t) t.users)

credits-payments : (table_id : ℕ) (t : Table) → credits table_id t t.users ≡ payments table_id t
unfolding share
credits-payments table_id t =
    ap
      (λ n.
        map
          (λ (u : User).
            credit_winning_amount u.user_id table_id
              (record { win_amount = t.win_amount; winners = n }))
          (filter (wins t) t.users))
      (sym (wins-count t))

-- What `handleEndGame` leaves behind.
pub record IsPaidOut (table_id : ℕ) (t : Table) (w w' : World) : Type 0 where
  pub paid : w'.wallet ≡ w.wallet ++ payments table_id t
  pub deleted : w'.tables table_id ≡ none
  pub history : w'.histories ≡ w.histories ++ ((table_id, none) ∷ [])
  pub timers : w'.timers ≡ w.timers
  pub others : (j : ℕ) → j ≢ table_id → w'.tables j ≡ w.tables j

abbrev pub completed : ℕ → Table → Table
completed now t = record t { status = GameStatus.completed; updated_at = now }

pub finish_game-IsPaidOut :
    (table_id : ℕ) (t : Table) (w : World)
    → t.id ≡ table_id
    → Distinct (map id_of t.users)
    → (w' : World) × (finish_game table_id t w ≡ (ok tt, w')) × IsPaidOut table_id t w w'
unfolding finish_game ◌>>=◌ ◌>>◌
finish_game-IsPaidOut table_id t w same distinct =
    let found =
      users-IsFound t t.users 0 distinct
        (λ j v e. subst (λ n. get_elem? t.users n ≡ some v) (omega arith) e) in
    let stored : World = record w { tables = write t.id (some (to_data t)) w.tables } in
    let stay = map id_of (get_remaining_players t) in
    let (l, paid) = settle_all-eq table_id t t.users stored found in
    let w' : World = record stored {
      wallet = w.wallet ++ credits table_id t t.users;
      events = w.events ++ ((500, game_end_res stay table_id l) ∷ []);
      histories = w.histories ++ ((t.id, none) ∷ []);
      tables = write table_id none stored.tables;
      user_tables = without_keys stay w.user_tables;
    } in
    (
      w',
      simp paid,
      record {
        paid = ap (λ l. w.wallet ++ l) (credits-payments table_id t);
        deleted = rw (==_self table_id);
        history = rw same;
        timers = refl;
        others = λ j differs.
            let miss : (j == table_id) ≡ false = ground arith in
            let miss_id : (j == t.id) ≡ false = ground arith in rw (miss, miss_id);
      },
    )

-- Who wins, and how much, is the same after the two writes.
scores_of-completed :
    (now : ℕ) (t : Table) (users : List User)
    → scores_of (completed now t) users ≡ scores_of t users
unfolding scores_of
scores_of-completed now t [] = refl
scores_of-completed now t (u ∷ users) = rw (scores_of-completed now t users)

wins-completed : (now : ℕ) (t : Table) (u : User) → wins (completed now t) u ≡ wins t u
unfolding is_winner
wins-completed now t u = rw (scores_of-completed now t t.users)

share-completed : (now : ℕ) (t : Table) → share (completed now t) ≡ share t
unfolding share
share-completed now t = rw (scores_of-completed now t t.users)

credits-completed :
    (table_id now : ℕ) (t : Table) (users : List User)
    → credits table_id (completed now t) users ≡ credits table_id t users
credits-completed table_id now t [] = refl
credits-completed table_id now t (u ∷ users) = elim (Bool-cases (wins t u)) [
  | inl e ↦
      rw (wins-completed now t u, e, share-completed now t)
        (ap (λ l. credit_winning_amount u.user_id table_id (share t) ∷ l)
          (credits-completed table_id now t users))
  | inr e ↦ rw (wins-completed now t u, e) (credits-completed table_id now t users)
]

payments-completed :
    (table_id now : ℕ) (t : Table) → payments table_id (completed now t) ≡ payments table_id t
payments-completed table_id now t =
    sym (credits-payments table_id (completed now t))
    ∙ credits-completed table_id now t t.users
    ∙ credits-payments table_id t

-- At a table that is stored under its own id, whose players have different ids and whose status is
-- not completed, `handleEndGame` raises nothing, deletes the table, starts no timer, writes one
-- history and calls the wallet once for each player at the table whose score is the greatest, with
-- the amount won divided by the number of these players.
pub handle_end_game-IsPaidOut :
    (now table_id : ℕ) (t : Table) (w : World)
    → load (w.tables table_id) ≡ ok t
    → is_completed t.status ≡ false
    → t.id ≡ table_id
    → Distinct (map id_of t.users)
    → (w' : World) × (handle_end_game now table_id w ≡ (ok tt, w')) × IsPaidOut table_id t w w'
unfolding handle_end_game ◌>>=◌ ◌>>◌
handle_end_game-IsPaidOut now table_id t w stored open_ same distinct =
    let (w', run, h) = finish_game-IsPaidOut table_id (completed now t) w same distinct in
    (
      w',
      rw (retrieve_game_table-ok table_id w stored, open_) run,
      record {
        paid = h.paid ∙ ap (λ l. w.wallet ++ l) (payments-completed table_id now t);
        deleted = h.deleted;
        history = h.history;
        timers = h.timers;
        others = h.others;
      },
    )

-- A table that `storeGameTable` has stored with the status completed, as `handleEndGame` does
-- before it pays, is paid out by a further run of `handleEndGame`; its players have different ids.
pub handle_end_game-again :
    (now : ℕ) (t : Table) (v : World)
    → is_completed t.status ≡ true
    → Distinct (map id_of t.users)
    → (w' : World) × (handle_end_game now t.id (store_game_table t v).1 ≡ (ok tt, w'))
      × IsPaidOut t.id (record t { status = GameStatus.waiting }) (store_game_table t v).1 w'
unfolding store_game_table
handle_end_game-again now t v completed_ distinct =
    handle_end_game-IsPaidOut now t.id (record t { status = GameStatus.waiting })
      (store_game_table t v).1 (rw (==_self t.id) (new_table-to_data 0 t)) refl refl distinct
