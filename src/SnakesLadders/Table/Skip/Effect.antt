-- ===== src/SnakesLadders/Table/Skip/Effect.antt =====
-- What `skipTurn` does to the player in turn and to the table.
use empire_backend.Base.{
  get_elem?-lt, ℕ, suc, ◌+◌, ◌-◌, ◌≤◌, ◌<◌, ◌≡◌, refl, ◌≢◌, inl, inr, Bool, true, false, not, ◌&&◌,
  some, List, [], ◌∷◌, arith, ltb, leb, ◌==◌, if◌then◌else◌, any, length, get_elem?, filter, count,
  Bool-cases, sym, ◌∙◌, get_elem?-set_self, get_elem?-set_ne,
}
use empire_backend.Base.Results.{ok}
use empire_backend.SnakesLadders.Types.{is_home, GameAction}
use empire_backend.SnakesLadders.Pawn.{Pawn, points_of, calculate_points}
use empire_backend.SnakesLadders.Table.{User, Table}
use empire_backend.SnakesLadders.Table.Turn.{
  current_index, get_action_timeout, is_of, is_of?, can_move_from, get_pawns_by_index,
  get_can_move_pawns_by_player_index, get_number_of_pawns_to_be_moved,
}
use empire_backend.SnakesLadders.Table.Skip.{start_over, lose_life, skip_case, skip_turn}
use empire_backend.SnakesLadders.Table.Invariant.{IsTable}
use empire_backend.SnakesLadders.Table.Invariant.Keeps.{skip_turn-eq}

-- A pawn that is offered is one of those not yet home.
offered-le :
    (dice index : ℕ) (pawns : List Pawn)
    → length (can_move_from dice (filter (is_of index) pawns))
      ≤ count (λ p. is_of? (some index) p && not (is_home p.position)) pawns
unfolding can_move_from
offered-le dice index [] = omega arith
offered-le dice index (p ∷ pawns) = elim (Bool-cases (is_of index p)) [
  | inr other ↦ rw other (offered-le dice index pawns)
  | inl mine ↦ elim (Bool-cases (is_home p.position)) [
    | inl home ↦ rw (mine, home) (offered-le dice index pawns)
    | inr away ↦ elim (Bool-cases (ltb 100 (dice + calculate_points p))) [
      | inl over ↦
          let more = offered-le dice index pawns in rw (mine, away, over) (omega (arith, more))
      | inr fits ↦
          let more = offered-le dice index pawns in rw (mine, away, fits) (omega (arith, more))
    ]
  ]
]

-- Some pawn of the player can move.
abbrev pub can_play : Table → ℕ → Bool
can_play t index = ltb 0 (length (get_can_move_pawns_by_player_index (some index) t))

-- The cases of a turn that is skipped, for the player `u` at seat `index`.
pub data SkipCase (now index : ℕ) (u : User) (t : Table) : Table × Bool → Type 0 where
  leaves : u.lives ≡ 0 → SkipCase now index u t (t, true)
  loses :
      0 < u.lives
      → can_play t index ≡ true
      → SkipCase now index u t (start_over now (lose_life index u t), false)
  waits : 0 < u.lives → can_play t index ≡ false → SkipCase now index u t (start_over now t, false)

skip_case-SkipCase :
    (now index : ℕ) (u : User) (t : Table)
    → current_index t ≡ some index
    → SkipCase now index u t (skip_case now index u t)
unfolding skip_case get_can_move_pawns_by_player_index get_pawns_by_index
    get_number_of_pawns_to_be_moved
skip_case-SkipCase now index u t found =
    let some_left = offered-le t.dice index t.pawns in
    elim (Bool-cases (ltb 0 u.lives)) [
      | inr none_left ↦ rw none_left (leaves (ground arith))
      | inl lives ↦ elim (Bool-cases (can_play t index)) [
        | inl plays ↦
            let away : ltb 0 (get_number_of_pawns_to_be_moved t) ≡ true = rw found (ground arith) in
            rw (lives, away, plays) (loses (ground arith) plays)
        | inr stuck ↦ elim (Bool-cases (ltb 0 (get_number_of_pawns_to_be_moved t))) [
          | inl away ↦ rw (lives, away, stuck) (waits (ground arith) stuck)
          | inr home ↦ rw (lives, home) (waits (ground arith) stuck)
        ]
      ]
    ]

pub skip_turn-SkipCase :
    (now : ℕ) (t : Table) (h : IsTable t)
    → (r : Table × Bool) × (skip_turn now t ≡ ok r) × SkipCase now h.turn.index h.turn.user t r
skip_turn-SkipCase now t h =
    (_, skip_turn-eq now t h, skip_case-SkipCase now h.turn.index h.turn.user t h.turn.found)

-- The pawn is of the player, not yet home, and the dice does not lead past the last square.
abbrev pub moves_with : ℕ → ℕ → Pawn → Bool
moves_with dice index p =
    (p.player_index == index) && not (is_home p.position) && leb (dice + points_of p.position) 100

abbrev pub has_move : Table → ℕ → Bool
has_move t index = any (moves_with t.dice index) t.pawns

-- What a skipped turn leaves of the table `t`, for the player `u` in turn at seat `index`.
pub record SkipEffect (now index : ℕ) (u : User) (t : Table) (r : Table × Bool) : Type 0 where
  pub leaves : u.lives ≡ 0 → r ≡ (t, true)
  pub stays : 0 < u.lives → r.1 ≡ false
  pub player :
      0 < u.lives
      → get_elem? r.0.users index
        ≡ some (if has_move t index then record u { lives = u.lives - 1 } else u)
  pub others : (j : ℕ) → j ≢ index → get_elem? r.0.users j ≡ get_elem? t.users j
  pub rest :
      0 < u.lives
      → record r.0 { users = t.users } ≡ record t {
        action = GameAction.roll_dice;
        counter = t.counter + 1;
        timeout = now + t.turn_timeout;
      }

ltb-suc : (n : ℕ) → ltb 0 (suc n) ≡ true
ltb-suc n = ground arith

has_move-from :
    (dice index : ℕ) (pawns : List Pawn)
    → ltb 0 (length (can_move_from dice (filter (is_of index) pawns)))
      ≡ any (moves_with dice index) pawns
unfolding can_move_from calculate_points
has_move-from dice index [] = refl
has_move-from dice index (p ∷ pawns) = elim (Bool-cases (is_of index p)) [
  | inr other ↦ rw other (has_move-from dice index pawns)
  | inl mine ↦ elim (Bool-cases (is_home p.position)) [
    | inl home ↦ rw (mine, home) (has_move-from dice index pawns)
    | inr away ↦ elim (Bool-cases (ltb 100 (dice + calculate_points p))) [
      | inl over ↦
          let past : leb (dice + points_of p.position) 100 ≡ false = ground arith in
          rw (mine, away, over, past) (has_move-from dice index pawns)
      | inr fits ↦
          let within : leb (dice + points_of p.position) 100 ≡ true = ground arith in
          rw (mine, away, fits, within)
            (ltb-suc (length (can_move_from dice (filter (is_of index) pawns))))
    ]
  ]
]

can_play-eq : (t : Table) (index : ℕ) → can_play t index ≡ has_move t index
unfolding get_can_move_pawns_by_player_index get_pawns_by_index
can_play-eq t index = has_move-from t.dice index t.pawns

SkipCase-SkipEffect :
    (now index : ℕ) (u : User) (t : Table) (r : Table × Bool)
    → get_elem? t.users index ≡ some u
    → SkipCase now index u t r
    → SkipEffect now index u t r
unfolding start_over lose_life get_action_timeout
SkipCase-SkipEffect now index u t r seat (leaves none_left) = record {
  leaves = λ e. refl;
  stays = λ pos. absurd (omega arith);
  player = λ pos. absurd (omega arith);
  others = λ j ne. refl;
  rest = λ pos. absurd (omega arith);
}
SkipCase-SkipEffect now index u t r seat (loses lives plays) =
    let moves : has_move t index ≡ true = sym (can_play-eq t index) ∙ plays in
    record {
      leaves = λ e. absurd (omega arith);
      stays = λ pos. refl;
      player =
          λ pos. rw moves (get_elem?-set_self t.users index _ (get_elem?-lt t.users index seat));
      others = λ j ne. get_elem?-set_ne t.users index j _ (λ e. ne (sym e));
      rest = λ pos. refl;
    }
SkipCase-SkipEffect now index u t r seat (waits lives stuck) =
    let moves : has_move t index ≡ false = sym (can_play-eq t index) ∙ stuck in
    record {
      leaves = λ e. absurd (omega arith);
      stays = λ pos. refl;
      player = λ pos. rw moves seat;
      others = λ j ne. refl;
      rest = λ pos. refl;
    }

-- At a valid table `skipTurn` raises nothing. A player without lives has to leave and the table
-- stays as it is. A player with lives stays; they lose one exactly when a pawn of theirs is not yet
-- home and the dice does not lead it past the last square, and the other players stay as they are.
-- Then the table waits for the dice again until a turn's time from now, with its counter one up,
-- and nothing else of it changes.
pub skip_turn-SkipEffect :
    (now : ℕ) (t : Table) (h : IsTable t)
    → (r : Table × Bool) × (skip_turn now t ≡ ok r) × SkipEffect now h.turn.index h.turn.user t r
skip_turn-SkipEffect now t h =
    let (r, run, cases) = skip_turn-SkipCase now t h in
    (r, run, SkipCase-SkipEffect now h.turn.index h.turn.user t r h.turn.seat cases)
