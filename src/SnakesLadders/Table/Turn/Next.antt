-- ===== src/SnakesLadders/Table/Turn/Next.antt =====
-- `setNextTurn`: the loop ends exactly when a player is left, and finds the next one in the circle.
use empire_backend.Base.{
  ℕ, zero, suc, ◌+◌, ◌-◌, ◌%◌, ◌≤◌, ◌<◌, ◌≡◌, refl, inl, inr, true, false, some, List, arith,
  length, get_elem?, find_index, Bool-cases, All, All-get_elem?, get_elem?-lt, get_elem?-some, sym,
  ◌∙◌, leb, leb→le,
}
use native.Mathlib.Nat.{mod-add-mod, mod-eq_of_lt, add-mod_right, mod-lt, add-zero}
use empire_backend.Base.Results.{ok, err, stuck}
use empire_backend.SnakesLadders.Table.{User, Table}
use empire_backend.SnakesLadders.Table.Turn.{is_user, next_turn_from, start_after, set_next_turn}

-- `turn` is the id of the first seat at or after `start`, in the circle, whose player is there.
pub record IsNextSeat (users : List User) (start turn : ℕ) : Type 0 where
  pub steps : ℕ
  pub steps_lt : steps < length users
  pub user : User
  pub seat : get_elem? users ((start + steps) % length users) ≡ some user
  pub stays : user.did_leave ≡ false
  pub id : user.user_id ≡ turn
  pub skipped :
      (j : ℕ)
      → j < steps
      → (u : User) × (get_elem? users ((start + j) % length users) ≡ some u) × (u.did_leave ≡ true)

-- Seat `i` is met within one round, wherever the loop starts.
circle : (n start i : ℕ) → i < n → (k : ℕ) × (k < n) × ((start + k) % n ≡ i)
circle n start i h = elim (Bool-cases (leb (start % n) i)) [
  | inl ahead ↦ (
    i - start % n,
    ground arith,
    sym (mod-add-mod start n (i - start % n))
        ∙ (rw (add_back _ _ (leb→le _ _ ahead)) (mod-eq_of_lt h)),
  )
  | inr behind ↦ (
    i + n - start % n,
    ground arith,
    sym (mod-add-mod start n (i + n - start % n))
        ∙ (rw (add_back (start % n) (i + n) (ground (arith, mod-lt start {m = n} (omega arith))))
            (add-mod_right i n ∙ mod-eq_of_lt h)),
  )
]
  where
    add_back : (a b : ℕ) → a ≤ b → a + (b - a) ≡ b
    add_back a b le = omega arith

module _ (users : List User) where
  next_turn_sits :
      (fuel cnt : ℕ) (v : User)
      → get_elem? users (cnt % length users) ≡ some v
      → v.did_leave ≡ false
      → next_turn_from (suc fuel) cnt users ≡ ok v.user_id
  unfolding next_turn_from
  next_turn_sits fuel cnt v e s = ground arith

  next_turn_left :
      (fuel cnt : ℕ) (v : User)
      → get_elem? users (cnt % length users) ≡ some v
      → v.did_leave ≡ true
      → next_turn_from (suc fuel) cnt users ≡ next_turn_from fuel (cnt + 1) users
  unfolding next_turn_from
  next_turn_left fuel cnt v e s = ground arith

  IsNextSeat-here :
      (cnt : ℕ) (v : User)
      → 0 < length users
      → get_elem? users (cnt % length users) ≡ some v
      → v.did_leave ≡ false
      → IsNextSeat users cnt v.user_id
  IsNextSeat-here cnt v pos e s = record {
    steps = 0;
    steps_lt = pos;
    user = v;
    seat = rw (add-zero cnt) e;
    stays = s;
    id = refl;
    skipped = λ j lt. absurd (omega arith);
  }

  IsNextSeat-skip :
      (cnt : ℕ) (v : User) {turn : ℕ} (n : IsNextSeat users (cnt + 1) turn)
      → get_elem? users (cnt % length users) ≡ some v
      → v.did_leave ≡ true
      → suc n.steps < length users
      → IsNextSeat users cnt turn
  IsNextSeat-skip cnt v n e s lt = record {
    steps = suc n.steps;
    steps_lt = lt;
    user = n.user;
    seat = let shift : cnt + suc n.steps ≡ cnt + 1 + n.steps = omega arith in rw shift n.seat;
    stays = n.stays;
    id = n.id;
    skipped = go;
  }
    where
      go :
          (j : ℕ)
          → j < suc n.steps
          → (u : User) × (get_elem? users ((cnt + j) % length users) ≡ some u)
            × (u.did_leave ≡ true)
      go zero h = (v, rw (add-zero cnt) e, s)
      go (suc j) h =
          let shift : cnt + suc j ≡ cnt + 1 + j = omega arith in
          rw shift (n.skipped j (omega arith))

  -- The loop, begun at `cnt`, ends within `fuel` rounds.
  abbrev Ends : ℕ → ℕ → Type 0
  Ends fuel cnt =
      (turn : ℕ) × (next_turn_from fuel cnt users ≡ ok turn)
      × ((n : IsNextSeat users cnt turn) × (n.steps < fuel))

  Ends-skip :
      (fuel cnt : ℕ) (v : User)
      → get_elem? users (cnt % length users) ≡ some v
      → v.did_leave ≡ true
      → fuel < length users
      → Ends fuel (cnt + 1)
      → Ends (suc fuel) cnt
  unfolding IsNextSeat-skip
  Ends-skip fuel cnt v e s lt (turn, run, (n, steps)) = (
    turn,
    next_turn_left fuel cnt v e s ∙ run,
    (IsNextSeat-skip cnt v n e s (omega arith), omega arith),
  )

  Ends-here :
      (fuel cnt : ℕ) (v : User)
      → get_elem? users (cnt % length users) ≡ some v
      → v.did_leave ≡ false
      → fuel < length users
      → Ends (suc fuel) cnt
  unfolding IsNextSeat-here
  Ends-here fuel cnt v e s lt = (
    v.user_id,
    next_turn_sits fuel cnt v e s,
    (IsNextSeat-here cnt v (omega arith) e s, omega arith),
  )

  next_turn_from-Ends :
      (fuel cnt k : ℕ) (u : User)
      → get_elem? users ((cnt + k) % length users) ≡ some u
      → u.did_leave ≡ false
      → k < fuel
      → fuel ≤ length users
      → Ends fuel cnt
  next_turn_from-Ends zero cnt k u e stays h le = absurd (omega arith)
  next_turn_from-Ends (suc fuel) cnt zero u e stays h le =
      Ends-here fuel cnt u (rw (add-zero cnt) at e) stays (omega arith)
  next_turn_from-Ends (suc fuel) cnt (suc k) u e stays h le =
      let (v, here) = get_elem?-some users (cnt % length users) (mod-lt cnt (omega arith)) in
      let shift : cnt + suc k ≡ cnt + 1 + k = omega arith in
      elim (Bool-cases v.did_leave) [
        | inl left ↦ Ends-skip fuel cnt v here left (omega arith) (
            next_turn_from-Ends fuel (cnt + 1) k u (rw shift at e) stays (omega arith)
              (omega arith))
        | inr sits ↦ Ends-here fuel cnt v here sits (omega arith)
      ]

  -- With nobody left the loop turns for ever.
  next_turn_from-stuck :
      (fuel cnt : ℕ)
      → 0 < length users
      → All (λ (u : User). u.did_leave ≡ true) users
      → next_turn_from fuel cnt users ≡ err stuck
  next_turn_from-stuck zero cnt pos h = unfold next_turn_from in refl
  next_turn_from-stuck (suc fuel) cnt pos h =
      let (v, here) = get_elem?-some users (cnt % length users) (mod-lt cnt pos) in
      next_turn_left fuel cnt v here
        (All-get_elem? (λ (u : User). u.did_leave ≡ true) users _ h here)
      ∙ next_turn_from-stuck fuel (cnt + 1) pos h

-- `setNextTurn` gives the turn to the first player, in the circle after `userId`, who has not left;
-- `i` is the seat of any such player. It changes nothing else. A user who is not at the table
-- counts as the one before the first seat.
pub set_next_turn-IsNextSeat :
    (user_id : ℕ) (t : Table) (i : ℕ) (u : User)
    → get_elem? t.users i ≡ some u
    → u.did_leave ≡ false
    → (turn : ℕ) × (set_next_turn user_id t ≡ ok (record t { current_turn = turn }))
      × IsNextSeat t.users (start_after (find_index (is_user user_id) t.users)) turn
unfolding set_next_turn
set_next_turn-IsNextSeat user_id t i u e stays =
    let start = start_after (find_index (is_user user_id) t.users) in
    let (k, lt, met) = circle (length t.users) start i (get_elem?-lt t.users i e) in
    let (turn, run, (n, _)) =
      next_turn_from-Ends t.users (length t.users) start k u (rw met e) stays lt (omega arith) in
    (turn, rw run, n)

-- When every player of a table has left, the loop of `setNextTurn` runs for ever: no number of
-- rounds ends it, from any seat.
pub set_next_turn-stuck :
    (fuel cnt : ℕ) (t : Table)
    → 0 < length t.users
    → All (λ (u : User). u.did_leave ≡ true) t.users
    → next_turn_from fuel cnt t.users ≡ err stuck
set_next_turn-stuck fuel cnt t = next_turn_from-stuck t.users fuel cnt
