-- ===== src/SnakesLadders/Gameplay/Keeping/Left.antt =====
-- gameplay.usecases .ts: `handleSkipTurn` and `handleLeaveTable` keep the stored tables valid, and
-- so does `handleTimeout` of game-timer.usecases.ts. While a player leaves, the table that is
-- stored first may have nobody in turn; the handler ends the game or moves the turn on.
use empire_backend.Base.{
  ℕ, ◌-◌, ◌≤◌, ◌≡◌, refl, ◌≢◌, Bool, true, false, some, length, get_elem?, set, filter, ◌==◌, arith,
  sym, ◌∙◌, subst, length-filter, count-set, bit, map-set_same, get_elem?-map, get_elem?-set_ne,
  length-set, Distinct,
}
use empire_backend.Base.Results.{ok}
use empire_backend.SnakesLadders.Table.{User, Table}
use empire_backend.SnakesLadders.Table.Skip.{start_over, lose_life, skip_turn}
use empire_backend.SnakesLadders.Table.Invariant.{user_id_of, IsLayout, HasTurn, IsTable}
use empire_backend.SnakesLadders.Table.Invariant.Keeps.{HasTurn-id, HasTurn-seat, skip_turn-IsTable}
use empire_backend.SnakesLadders.Table.Skip.Effect.{
  SkipCase, leaves, loses, waits, skip_turn-SkipCase,
}
use mathlib.Core.Option.{some-injective}
use empire_backend.SnakesLadders.Gameplay.Winners.{get_remaining_players, stays}
use empire_backend.SnakesLadders.Gameplay.Leaving.{without_player, skip_and_stay}
use empire_backend.SnakesLadders.Gameplay.Keeping.{
  StoreOf, IsLive, Keeps, Always, Keeps-then, Keeps-bind, Keeps-lift, Keeps-same, IsLive-same,
  store_game_table-Keeps,
}
use empire_backend.SnakesLadders.Gameplay.Keeping.Played.{next-IsLive, end_or_continue-Keeps}

-- A write that keeps `didLeave` keeps the number of the players who remain.
remaining-set :
    (t : Table) (index : ℕ) (u v : User)
    → get_elem? t.users index ≡ some u
    → v.did_leave ≡ u.did_leave
    → length (filter stays (set t.users index v)) ≡ length (filter stays t.users)
remaining-set t index u v here same =
    let counts = count-set stays t.users index v here in
    let bits : bit (stays v) ≡ bit (stays u) = rw same in
    omega
      (arith, length-filter stays t.users, length-filter stays (set t.users index v), counts, bits)

SkipCase-remaining :
    (now index : ℕ) (u : User) (t : Table) (r : Table × Bool)
    → get_elem? t.users index ≡ some u
    → SkipCase now index u t r
    → length (filter stays r.0.users) ≡ length (filter stays t.users)
unfolding start_over lose_life
SkipCase-remaining now index u t r here (leaves none_left) = refl
SkipCase-remaining now index u t r here (loses lives plays) =
    remaining-set t index u (record u { lives = u.lives - 1 }) here refl
SkipCase-remaining now index u t r here (waits lives stuck) = refl

pub skip_turn-IsLive :
    (now : ℕ) (t : Table) (r : Table × Bool) → IsLive t → skip_turn now t ≡ ok r → IsLive r.0
unfolding get_remaining_players
skip_turn-IsLive now t (t', should_leave) h e =
    let (r, run, effect) = skip_turn-SkipCase now t h.valid in
    let same : r ≡ (t', should_leave) = cc (run, e) in
    let counts =
      SkipCase-remaining now h.valid.turn.index h.valid.turn.user t r h.valid.turn.seat effect in
    record {
      valid = skip_turn-IsTable now t t' should_leave h.valid e;
      remaining =
          subst (λ (x : Table × Bool). 2 ≤ length (filter stays x.0.users)) same
            (subst (λ n. 2 ≤ n) (sym counts) h.remaining);
    }

pub skip_and_stay-Keeps :
    (now table_id : ℕ) (t : Table)
    → IsLive t
    → Keeps StoreOf (Always StoreOf) (skip_and_stay now table_id t)
unfolding skip_and_stay
skip_and_stay-Keeps now table_id t live =
    Keeps-bind StoreOf (Keeps-lift StoreOf {Q = (Always StoreOf)} _ (λ u e. tt)) (λ u _.
      Keeps-then StoreOf (Keeps-same (λ w. refl)) (
        Keeps-bind StoreOf
          (Keeps-lift StoreOf {Q = IsLive} _ (λ t' e. next-IsLive t.current_turn t t' live e))
          (λ t' live'.
            Keeps-then StoreOf
              (store_game_table-Keeps (record t' { dice = 0 })
                (IsLive-same t' (record t' { dice = 0 }) refl refl refl live'))
              (end_or_continue-Keeps now table_id 1000 (record t' { dice = 0 })))))

-- The table that is stored first while a player leaves.
pub IsLayout-leave :
    (now index : ℕ) (u : User) (t : Table)
    → get_elem? t.users index ≡ some u
    → IsLayout t
    → IsLayout (without_player now index u t)
unfolding without_player
IsLayout-leave now index u t here h =
    let v : User = record u { did_leave = true } in
    record {
      seated = rw (length-set t.users index v) h.seated;
      placed = h.placed;
      ids = h.ids;
      user_ids =
          subst Distinct
            (sym (
              map-set_same user_id_of t.users index v (get_elem?-map user_id_of t.users index here)
                refl))
            h.user_ids;
    }

-- One player at least remains.
pub leave-remaining :
    (now index : ℕ) (u : User) (t : Table)
    → get_elem? t.users index ≡ some u
    → IsLive t
    → 1 ≤ length (get_remaining_players (without_player now index u t))
unfolding without_player get_remaining_players
leave-remaining now index u t here h =
    let v : User = record u { did_leave = true } in
    let counts = count-set stays t.users index v here in
    let many : 2 ≤ length (filter stays t.users) = h.remaining in
    let least : bit (stays u) ≤ 1 = bit-le (stays u) in
    omega (
      arith,
      length-filter stays t.users,
      length-filter stays (set t.users index v),
      counts,
      many,
      least,
    )
  where
    bit-le : (b : Bool) → bit b ≤ 1
    bit-le true = omega arith
    bit-le false = omega arith

-- Where another player has the turn, that player still has it.
pub leave-HasTurn :
    (now index : ℕ) (u : User) (t : Table)
    → get_elem? t.users index ≡ some u
    → IsTable t
    → (u.user_id == t.current_turn) ≡ false
    → HasTurn (without_player now index u t)
unfolding without_player
leave-HasTurn now index u t here h other =
    let v : User = record u { did_leave = true } in
    let id = HasTurn-id t h.turn in
    let differs : index ≢ h.turn.index = λ same.
      let seat = subst (λ i. get_elem? t.users i ≡ some h.turn.user) (sym same) h.turn.seat in
      let one : u ≡ h.turn.user = some-injective u h.turn.user (sym here ∙ seat) in
      let mine : u.user_id ≡ t.current_turn =
        subst (λ (w : User). w.user_id ≡ t.current_turn) (sym one) id in
      ground arith in
    HasTurn-seat (without_player now index u t) h.turn.index h.turn.user
      (IsLayout-leave now index u t here h.layout).user_ids
      (get_elem?-set_ne t.users index h.turn.index v differs ∙ h.turn.seat) h.turn.stays id
