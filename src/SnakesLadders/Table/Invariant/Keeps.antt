-- ===== src/SnakesLadders/Table/Invariant/Keeps.antt =====
-- The methods of the table keep its invariant.
use empire_backend.Base.{
  ℕ, ◌+◌, ◌-◌, ◌≡◌, refl, Bool, true, false, some, map, ltb, if◌then◌else◌, length, get_elem?,
  find_index, find_index-Distinct, Distinct, sym, ◌∙◌, subst, ==_iff, find_index-get_elem?, not,
  map-set_same, length-set, get_elem?-set_self, get_elem?-lt, get_elem?-map, ◌%◌,
}
use mathlib.Core.Option.{some-injective}
use empire_backend.Base.Results.{ok, bad_request, throw_if-eq-ok}
use empire_backend.SnakesLadders.Types.{is_roll_dice}
use empire_backend.SnakesLadders.Table.{User, Table}
use empire_backend.SnakesLadders.Table.Turn.{
  roll_dice, set_next_turn, is_user, start_after, get_can_move_pawns_by_player_index,
  get_number_of_pawns_to_be_moved,
}
use empire_backend.SnakesLadders.Table.Turn.Next.{set_next_turn-IsNextSeat}
use empire_backend.SnakesLadders.Table.Skip.{start_over, lose_life, skip_case, skip_turn}
use empire_backend.SnakesLadders.Table.Invariant.{user_id_of, IsLayout, HasTurn, IsTable}

-- A table with the same players, pawns and turn is as good.
pub IsTable-same :
    (t t' : Table)
    → t'.users ≡ t.users
    → t'.pawns ≡ t.pawns
    → t'.current_turn ≡ t.current_turn
    → IsTable t
    → IsTable t'
IsTable-same t t' users pawns turn h = record {
  layout = record {
    seated = rw (users, pawns) h.seated;
    placed = rw pawns h.placed;
    ids = rw pawns h.ids;
    user_ids = rw users h.user_ids;
  };
  turn = record {
    index = h.turn.index;
    user = h.turn.user;
    found = rw (users, turn) h.turn.found;
    seat = rw users h.turn.seat;
    stays = h.turn.stays;
  };
}

pub HasTurn-seat :
    (t : Table) (i : ℕ) (u : User)
    → Distinct (map user_id_of t.users)
    → get_elem? t.users i ≡ some u
    → u.did_leave ≡ false
    → u.user_id ≡ t.current_turn
    → HasTurn t
HasTurn-seat t i u distinct seat stays id = record {
  index = i;
  user = u;
  found =
      subst (λ k. find_index (is_user k) t.users ≡ some i) id
        (find_index-Distinct user_id_of t.users i distinct seat);
  seat = seat;
  stays = stays;
}

-- `setNextTurn` keeps the invariant, and restores it for a table whose player in turn has left, as
-- long as some player is at the table.
pub set_next_turn-IsTable :
    (user_id : ℕ) (t t' : Table) (i : ℕ) (u : User)
    → IsLayout t
    → get_elem? t.users i ≡ some u
    → u.did_leave ≡ false
    → set_next_turn user_id t ≡ ok t'
    → IsTable t'
set_next_turn-IsTable user_id t t' i u h seat stays e =
    let (turn, run, n) = set_next_turn-IsNextSeat user_id t i u seat stays in
    let next : t' ≡ record t { current_turn = turn } = cc (run, e) in
    let start = start_after (find_index (is_user user_id) t.users) in
    rw next (record {
      layout = record { seated = h.seated; placed = h.placed; ids = h.ids; user_ids = h.user_ids };
      turn =
          HasTurn-seat (record t { current_turn = turn }) ((start + n.steps) % length t.users)
            n.user h.user_ids n.seat n.stays n.id;
    })

-- `rollDice` keeps the invariant.
pub roll_dice-IsTable :
    (now outcome : ℕ) (t : Table) (dice : ℕ) (t' : Table)
    → IsTable t
    → roll_dice now outcome t ≡ ok (dice, t')
    → IsTable t'
unfolding roll_dice
roll_dice-IsTable now outcome t dice t' h e =
    let (_, e') = throw_if-eq-ok (not (is_roll_dice t.action)) bad_request _ e in
    IsTable-same t t' (cc e') (cc e') (cc e') h

lives_only :
    (t : Table) (index : ℕ) (u : User)
    → get_elem? t.users index ≡ some u
    → map user_id_of (lose_life index u t).users ≡ map user_id_of t.users
unfolding lose_life
lives_only t index u here =
    map-set_same user_id_of t.users index (record u { lives = u.lives - 1 })
      (get_elem?-map user_id_of t.users index here) refl

one_user : (t : Table) (h : HasTurn t) (u : User) → get_elem? t.users h.index ≡ some u → h.user ≡ u
one_user t h u here = some-injective h.user u (sym h.seat ∙ here)

pub HasTurn-id : (t : Table) (h : HasTurn t) → h.user.user_id ≡ t.current_turn
HasTurn-id t h =
    let (u, here, is) = find_index-get_elem? (is_user t.current_turn) t.users h.index h.found in
    subst (λ (w : User). w.user_id ≡ t.current_turn) (sym (one_user t h u here)) ((==_iff _ _).0 is)

lose_life-IsTable :
    (t : Table) (u : User) (h : IsTable t)
    → get_elem? t.users h.turn.index ≡ some u
    → IsTable (lose_life h.turn.index u t)
unfolding lose_life
lose_life-IsTable t u h here =
    let i = h.turn.index in
    let v : User = record u { lives = u.lives - 1 } in
    let same = lives_only t i u here in
    let user_ids = subst Distinct (sym same) h.user_ids in
    let seat = get_elem?-set_self t.users i v (get_elem?-lt t.users i here) in
    record {
      layout = record {
        seated = rw (length-set t.users i v) h.seated;
        placed = h.placed;
        ids = h.ids;
        user_ids = user_ids;
      };
      turn =
          HasTurn-seat (lose_life i u t) i v user_ids seat
            (subst (λ (w : User). w.did_leave ≡ false) (one_user t h.turn u here) h.turn.stays)
            (subst (λ (w : User). w.user_id ≡ t.current_turn) (one_user t h.turn u here)
              (HasTurn-id t h.turn));
    }

-- At a valid table `skipTurn` raises nothing.
pub skip_turn-eq :
    (now : ℕ) (t : Table) (h : IsTable t)
    → skip_turn now t ≡ ok (skip_case now h.turn.index h.turn.user t)
unfolding skip_turn
skip_turn-eq now t h = rw (h.turn.found, h.turn.seat)

start_over-IsTable : (now : ℕ) (t : Table) → IsTable t → IsTable (start_over now t)
unfolding start_over
start_over-IsTable now t = IsTable-same t _ refl refl refl

skip_case-IsTable :
    (now : ℕ) (t : Table) (h : IsTable t) → IsTable (skip_case now h.turn.index h.turn.user t).0
unfolding skip_case
skip_case-IsTable now t h =
    let again = start_over-IsTable now t h in
    let lost = start_over-IsTable now _ (lose_life-IsTable t h.turn.user h h.turn.seat) in
    IsTable-if (ltb 0 h.turn.user.lives) _ _
      (IsTable-if (ltb 0 (get_number_of_pawns_to_be_moved t)) _ _
        (IsTable-if (ltb 0 (length (get_can_move_pawns_by_player_index (some h.turn.index) t))) _ _
          lost again)
        again)
      h
  where
    IsTable-if :
        (b : Bool) (x y : Table × Bool) → IsTable x.0 → IsTable y.0 → IsTable (if b then x else y).0
    IsTable-if true x y p q = p
    IsTable-if false x y p q = q

-- `skipTurn` keeps the invariant.
pub skip_turn-IsTable :
    (now : ℕ) (t t' : Table) (leaves : Bool)
    → IsTable t
    → skip_turn now t ≡ ok (t', leaves)
    → IsTable t'
skip_turn-IsTable now t t' leaves h e =
    let same : t' ≡ (skip_case now h.turn.index h.turn.user t).0 = cc (skip_turn-eq now t h, e) in
    rw same (skip_case-IsTable now t h)
