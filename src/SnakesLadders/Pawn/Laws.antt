-- ===== src/SnakesLadders/Pawn/Laws.antt =====
-- Where a pawn lands, on every board.
use empire_backend.Base.{
  ℕ, ◌+◌, ◌≤◌, ◌<◌, ◌≡◌, refl, sym, ap, inl, inr, Bool, true, false, arith, ◌∙◌,
}
use mathlib.Core.Bool.{false≢true}
use empire_backend.Base.Results.{ok}
use empire_backend.SnakesLadders.Types.{Position, base, cell, home, is_home, IsPosition, Board}
use empire_backend.SnakesLadders.Pawn.{
  Pawn, Redirect, from_pawn_position, to_pawn_position, position_index, points_of,
  get_position_by_index, follow, get_new_position_if_ladder_or_snake, NextPosition, capped_index,
  next_from, get_next_position,
}
use empire_backend.SnakesLadders.Pawn.Ladders.{
  IsPlain, EndsBelow, follow-le, follow-unflagged, Leads, follow-Leads,
}

-- The index of the enum and its inverse, on its 101 members.
pub position_index-get_position_by_index :
    (i : ℕ) → i ≤ 100 → position_index (get_position_by_index i) ≡ i
unfolding get_position_by_index
position_index-get_position_by_index i h = ground arith

pub get_position_by_index-position_index :
    (p : Position) → IsPosition p → get_position_by_index (position_index p) ≡ p
unfolding get_position_by_index
get_position_by_index-position_index base h = refl
get_position_by_index-position_index (cell n) h = ground arith
get_position_by_index-position_index home h = refl

pub get_position_by_index-IsPosition : (i : ℕ) → IsPosition (get_position_by_index i)
unfolding get_position_by_index
get_position_by_index-IsPosition i = ground arith

-- A pawn on a member of the enum scores its index.
pub points_of-eq : (p : Position) → points_of p ≡ position_index p
points_of-eq base = refl
points_of-eq (cell n) = refl
points_of-eq home = refl

pub points_of-le : (p : Position) → IsPosition p → points_of p ≤ 100
points_of-le base h = omega arith
points_of-le (cell n) h = omega arith
points_of-le home h = omega arith

-- `IsBoard`: no snake and no ladder leads past the last square.
pub record IsBoard (board : Board) : Type 0 where
  pub snakes_below : EndsBelow 100 board.snakes
  pub ladders_below : EndsBelow 100 board.ladders

-- What a successful `getNextPosition` says of the square that the pawn lands on.
pub record Lands (p : Pawn) (dice : ℕ) (board : Board) (n : NextPosition) : Type 0 where
  pub within : points_of p.position + dice ≤ 100 → n.next_index ≡ points_of p.position + dice
  pub beyond : 100 < points_of p.position + dice → n.next_index ≡ 100
  pub position : IsPosition n.next_position
  pub plain :
      n.is_snake ≡ false
      → n.is_ladder ≡ false
      → (position_index n.next_position ≡ n.next_index)
        × IsPlain n.next_index board.snakes
        × IsPlain n.next_index board.ladders
  pub snake : n.is_snake ≡ true → Leads board.snakes n.next_index (position_index n.next_position)
  pub ladder :
      n.is_snake ≡ false
      → n.is_ladder ≡ true
      → Leads board.ladders n.next_index (position_index n.next_position)

module _ (index : ℕ) (board : Board) where
  abbrev redirected : Redirect
  redirected = get_new_position_if_ladder_or_snake index board

  redirect-le : IsBoard board → index ≤ 100 → redirected.next_pos ≤ 100
  unfolding get_new_position_if_ladder_or_snake
  redirect-le b h =
      follow-le 100 index board.snakes _ false b.snakes_below
        (follow-le 100 index board.ladders index false b.ladders_below h)

  redirect-IsPlain :
      redirected.is_snake ≡ false
      → redirected.is_ladder ≡ false
      → (redirected.next_pos ≡ index) × IsPlain index board.snakes × IsPlain index board.ladders
  unfolding get_new_position_if_ladder_or_snake
  redirect-IsPlain s l =
      let (stays, plain) =
        follow-unflagged index board.snakes (follow index board.ladders index false).0 s in
      let (stays', plain') = follow-unflagged index board.ladders index l in
      (ap (λ (r : ℕ × Bool). r.0) stays ∙ ap (λ (r : ℕ × Bool). r.0) stays', plain, plain')

  redirect-snake : redirected.is_snake ≡ true → Leads board.snakes index redirected.next_pos
  unfolding get_new_position_if_ladder_or_snake
  redirect-snake s =
      elim (follow-Leads index board.snakes (follow index board.ladders index false).0 false) [
        | inl same ↦ absurd (false≢true (sym (ap (λ (r : ℕ × Bool). r.1) same) ∙ s))
        | inr (_, m) ↦ m
      ]

  redirect-ladder :
      redirected.is_snake ≡ false
      → redirected.is_ladder ≡ true
      → Leads board.ladders index redirected.next_pos
  unfolding get_new_position_if_ladder_or_snake
  redirect-ladder s l =
      let (stays, _) =
        follow-unflagged index board.snakes (follow index board.ladders index false).0 s in
      rw stays (elim (follow-Leads index board.ladders index false) [
        | inl same ↦ absurd (false≢true (sym (ap (λ (r : ℕ × Bool). r.1) same) ∙ l))
        | inr (_, m) ↦ m
      ])

capped_index-le : (dice : ℕ) (p : Position) → capped_index dice p ≤ 100
capped_index-le dice p = ground arith

capped_index-within :
    (dice : ℕ) (p : Position) → points_of p + dice ≤ 100 → capped_index dice p ≡ points_of p + dice
capped_index-within dice p h = rw (points_of-eq p) (go (rw (points_of-eq p) at h))
  where
    go : position_index p + dice ≤ 100 → capped_index dice p ≡ position_index p + dice
    go e = ground arith

capped_index-beyond :
    (dice : ℕ) (p : Position) → 100 < points_of p + dice → capped_index dice p ≡ 100
capped_index-beyond dice p h = go (rw (points_of-eq p) at h)
  where
    go : 100 < position_index p + dice → capped_index dice p ≡ 100
    go e = ground arith

-- The successful result, for a position that is not home.
abbrev pub landing : ℕ → Board → Position → NextPosition
landing dice board p =
    let r = get_new_position_if_ladder_or_snake (capped_index dice p) board in
    record {
      next_position = get_position_by_index r.next_pos;
      next_index = capped_index dice p;
      is_snake = r.is_snake;
      is_ladder = r.is_ladder;
    }

landing-Lands :
    (p : Pawn) (dice : ℕ) (board : Board)
    → IsBoard board
    → Lands p dice board (landing dice board p.position)
landing-Lands p dice board b =
    let i : ℕ = capped_index dice p.position in
    let square : position_index (landing dice board p.position).next_position
        ≡ (redirected i board).next_pos =
      position_index-get_position_by_index (redirected i board).next_pos
        (redirect-le i board b (capped_index-le dice p.position)) in
    record {
      within = capped_index-within dice p.position;
      beyond = capped_index-beyond dice p.position;
      position = get_position_by_index-IsPosition (redirected i board).next_pos;
      plain = λ s l. let (e, ps, pl) = redirect-IsPlain i board s l in (square ∙ e, ps, pl);
      snake = λ s. rw square (redirect-snake i board s);
      ladder = λ s l. rw square (redirect-ladder i board s l);
    }

get_next_position-eq :
    (p : Pawn) (dice : ℕ) (board : Board) (n : NextPosition)
    → get_next_position p dice board ≡ ok n
    → n ≡ landing dice board p.position
unfolding get_next_position
get_next_position-eq p dice board n h = go p.position h
  where
    go : (q : Position) → next_from dice board q ≡ ok n → n ≡ landing dice board q
    go base e = cc
    go (cell k) e = cc
    go home e = cc

pub get_next_position-ok :
    (p : Pawn) (dice : ℕ) (board : Board)
    → is_home p.position ≡ false
    → get_next_position p dice board ≡ ok (landing dice board p.position)
unfolding get_next_position
get_next_position-ok p dice board h = go p.position h
  where
    go : (q : Position) → is_home q ≡ false → next_from dice board q ≡ ok (landing dice board q)
    go base e = refl
    go (cell k) e = refl
    go home e = cc

-- A successful `getNextPosition` advances the points of the pawn by the dice, and to 100 where that
-- would pass 100. Then it takes the snake or the ladder that starts there, a snake before a ladder;
-- on a board whose pairs end at most at 100 it lands on a member of the enum.
pub get_next_position-Lands :
    (p : Pawn) (dice : ℕ) (board : Board) (n : NextPosition)
    → IsBoard board
    → get_next_position p dice board ≡ ok n
    → Lands p dice board n
get_next_position-Lands p dice board n b h =
    rw (get_next_position-eq p dice board n h) (landing-Lands p dice board b)

-- A stored pawn comes back as it was.
pub from_pawn_position-to_pawn_position : (p : Pawn) → from_pawn_position (to_pawn_position p) ≡ p
unfolding from_pawn_position to_pawn_position
from_pawn_position-to_pawn_position p = ground arith
