-- ===== src/SnakesLadders/Table/Turn/Pass.antt =====
-- `checkIfPassTurnToNext`: when a turn is passed on after a roll.
use empire_backend.Base.{
  ℕ, ◌<◌, ◌≡◌, refl, ◌↔◌, inl, inr, Bool, true, false, not, ◌&&◌, some, List, arith, ltb, ltb→lt,
  ◌==◌, get_elem?, filter, count, filter-get_elem?, get_elem?-filter, count_pos,
  count_pos-get_elem?, Bool-cases, ==_iff, both, sym, ◌∙◌,
}
use empire_backend.SnakesLadders.Types.{is_home}
use empire_backend.SnakesLadders.Pawn.{Pawn}
use empire_backend.SnakesLadders.Table.{Table}
use empire_backend.SnakesLadders.Table.Turn.{
  current_index, is_of, is_blocked, get_pawns_by_index, get_can_move_pawns_by_player_index,
  get_number_of_pawns_to_be_moved, check_if_pass_turn_to_next,
}
use empire_backend.SnakesLadders.Table.Turn.CanMove.{free, length-can_move_from}

-- The player in turn has a pawn that is not home, and the dice can move none of that player's.
pub record IsStuck (t : Table) (c : ℕ) : Type 0 where
  pub pawn : Pawn
  pub seat : ℕ
  pub here : get_elem? t.pawns seat ≡ some pawn
  pub own : pawn.player_index ≡ c
  pub away : is_home pawn.position ≡ false
  pub blocked :
      (j : ℕ) (p : Pawn)
      → get_elem? t.pawns j ≡ some p
      → p.player_index ≡ c
      → is_blocked t.dice p ≡ true

abbrev on_way : ℕ → Pawn → Bool
on_way c p = is_of c p && not (is_home p.position)

pass_eq :
    (t : Table) (c : ℕ)
    → current_index t ≡ some c
    → check_if_pass_turn_to_next t
      ≡ (ltb 0 (count (on_way c) t.pawns) && (count (free t.dice) (filter (is_of c) t.pawns) == 0))
unfolding check_if_pass_turn_to_next get_can_move_pawns_by_player_index
    get_number_of_pawns_to_be_moved get_pawns_by_index
pass_eq t c turn = rw (turn, length-can_move_from t.dice (filter (is_of c) t.pawns))

-- The turn is passed on after a roll exactly when the player in turn still has a pawn on its way
-- and the dice can move none of that player's pawns.
pub check_if_pass_turn_to_next_iff :
    (t : Table) (c : ℕ)
    → current_index t ≡ some c
    → (check_if_pass_turn_to_next t ≡ true) ↔ IsStuck t c
check_if_pass_turn_to_next_iff t c turn = (to, from)
  where
    mine : List Pawn
    mine = filter (is_of c) t.pawns

    to : check_if_pass_turn_to_next t ≡ true → IsStuck t c
    to h =
        let (some_left, none_free) =
          both (ltb 0 (count (on_way c) t.pawns)) _ (sym (pass_eq t c turn) ∙ h) in
        let (seat, (p, here, way)) =
          count_pos-get_elem? (on_way c) t.pawns (ltb→lt _ _ some_left) in
        let (own, away) = both (is_of c p) _ way in
        record {
          pawn = p;
          seat = seat;
          here = here;
          own = (==_iff _ _).0 own;
          away = ground arith;
          blocked = λ j q at is. blocked j q at is none_free;
        }
      where
        blocked :
            (j : ℕ) (q : Pawn)
            → get_elem? t.pawns j ≡ some q
            → q.player_index ≡ c
            → (count (free t.dice) mine == 0) ≡ true
            → is_blocked t.dice q ≡ true
        blocked j q at is zero_free = elim (Bool-cases (is_blocked t.dice q)) [
          | inl yes_blocked ↦ yes_blocked
          | inr moves ↦
              let (k, at') = get_elem?-filter (is_of c) t.pawns j at ((==_iff _ _).1 is) in
              let pos : 0 < count (free t.dice) mine =
                count_pos (free t.dice) mine k at' (rw moves refl) in
              absurd (omega (arith, (==_iff _ _).0 zero_free))
        ]

    from : IsStuck t c → check_if_pass_turn_to_next t ≡ true
    from s =
        let way : on_way c s.pawn ≡ true =
          rw ((==_iff s.pawn.player_index c).1 s.own, s.away) refl in
        let some_left = count_pos (on_way c) t.pawns s.seat s.here way in
        pass_eq t c turn ∙ ground (arith, none_free)
      where
        none_free : count (free t.dice) mine ≡ 0
        none_free = elim (Bool-cases (count (free t.dice) mine == 0)) [
          | inl zero_free ↦ (==_iff _ _).0 zero_free
          | inr some_free ↦
              let (k, (q, at, moves)) = count_pos-get_elem? (free t.dice) mine (ground arith) in
              let (j, at', is) = filter-get_elem? (is_of c) t.pawns k at in
              let blocked = s.blocked j q at' ((==_iff _ _).0 is) in cc (rw blocked at moves)
        ]
