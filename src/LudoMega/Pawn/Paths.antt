-- ===== src/LudoMega/Pawn/Paths.antt =====
-- pawn.entity.ts and table.entity.ts: the moves along a path, told by how far a pawn has come.
use empire_backend.Base.{
  ℕ, zero, suc, ◌+◌, ◌<◌, ◌≡◌, refl, ◌∙◌, inl, inr, Bool, true, false, not, ◌&&◌, ◌||◌, Option,
  none, some, ◌==◌, ==_iff, ltb, both, ap, if◌then◌else◌, Bool-cases, get_elem?, get_elem?-lt,
  find_index-get_elem?, length, arith,
}
use empire_backend.Base.Results.{
  Result, ok, err, bad_request, not_found, internal, type_error, stuck,
}
use empire_backend.LudoMega.{
  Player, pl1, pl2, pl3, pl4, same_player, Position, base, cell, home_path, home, position_eq,
  pawn_path, cells_from,
}
use empire_backend.LudoMega.Pawn.{
  Pawn, index_of, leaves_base, next_from, get_next_position, can_pawn_move_by_dice,
}

pub same_player-eq : (p q : Player) → same_player p q ≡ true → p ≡ q
unfolding same_player
same_player-eq p q h = ground arith

pub position_eq-eq : (p q : Position) → position_eq p q ≡ true → p ≡ q
unfolding position_eq
position_eq-eq (base p) (base q) h = ap base (same_player-eq p q h)
position_eq-eq (cell n) (cell m) h = ground arith
position_eq-eq (home_path p n) (home_path q m) h =
    let (same, number) = both (same_player p q) (n == m) h in
    rw (same_player-eq p q same, (==_iff n m).0 number)
position_eq-eq home home h = refl
position_eq-eq (base p) (cell n) h = cc
position_eq-eq (base p) (home_path q n) h = cc
position_eq-eq (base p) home h = cc
position_eq-eq (cell n) (base p) h = cc
position_eq-eq (cell n) (home_path p m) h = cc
position_eq-eq (cell n) home h = cc
position_eq-eq (home_path p n) (base q) h = cc
position_eq-eq (home_path p n) (cell m) h = cc
position_eq-eq (home_path p n) home h = cc
position_eq-eq home (base p) h = cc
position_eq-eq home (cell n) h = cc
position_eq-eq home (home_path p n) h = cc

-- How far a pawn comes that has come `i` squares: the base is square 0, the home square 57, and the
-- last squares before it are entered only by a dice that does not lead past home.
abbrev pub advance : ℕ → ℕ → Option ℕ
advance i dice =
    if i == 0
    then if leaves_base dice then some 1 else none
    else if (i == 57) || ltb 57 (i + dice)
    then none
    else some (i + dice)

abbrev is_index : Option ℕ → ℕ → Bool
is_index none j = false
is_index (some i) j = i == j

is_index-eq : (o : Option ℕ) (j : ℕ) → is_index o j ≡ true → o ≡ some j
is_index-eq none j h = cc
is_index-eq (some i) j h = rw ((==_iff i j).0 h)

-- The next position and the test for a move, as `advance` tells them.
abbrev agrees_with : Player → Option ℕ → Result Position → Bool → Bool
agrees_with p none (err bad_request) movable = not movable
agrees_with p (some j) (ok q) movable = is_index (index_of q (pawn_path p)) j && movable
agrees_with _ _ _ _ = false

abbrev agrees_at : Player → ℕ → ℕ → Option Position → Bool
agrees_at p i d none = false
agrees_at p i d (some q) = agrees_with p (advance i d) (next_from d p q) (can_pawn_move_by_dice q d)

abbrev all_below : ℕ → (ℕ → Bool) → Bool
all_below zero f = true
all_below (suc n) f = f n && all_below n f

all_below-true : (n : ℕ) (f : ℕ → Bool) (i : ℕ) → all_below n f ≡ true → i < n → f i ≡ true
all_below-true zero f i h below = absurd (omega arith)
all_below-true (suc n) f i h below = elim (Bool-cases (i == n)) [
  | inl last ↦ rw ((==_iff i n).0 last) (both (f n) (all_below n f) h).0
  | inr before ↦ all_below-true n f i (both (f n) (all_below n f) h).1 (ground arith)
]

abbrev agrees_for : Player → ℕ → ℕ → Bool
agrees_for p i d = agrees_at p i (suc d) (get_elem? (pawn_path p) i)

all_agree : (p : Player) → all_below 58 (λ i. all_below 6 (agrees_for p i)) ≡ true
unfolding next_from index_of pawn_path position_eq can_pawn_move_by_dice
all_agree pl1 = refl
all_agree pl2 = refl
all_agree pl3 = refl
all_agree pl4 = refl

agrees_below :
    (p : Player) (i d : ℕ)
    → i < 58
    → d < 6
    → agrees_at p i (suc d) (get_elem? (pawn_path p) i) ≡ true
agrees_below p i d near below =
    all_below-true 6 (agrees_for p i) d
      (all_below-true 58 (λ j. all_below 6 (agrees_for p j)) i (all_agree p) near) below

length_path : (p : Player) → length (pawn_path p) ≡ 58
unfolding pawn_path cells_from
length_path pl1 = refl
length_path pl2 = refl
length_path pl3 = refl
length_path pl4 = refl

-- What the code does where `advance` answers.
unfoldable pub IsAdvance : ℕ → Pawn → Option ℕ → Type 0
IsAdvance d p none =
    (get_next_position d p ≡ err bad_request) × (can_pawn_move_by_dice p.position d ≡ false)
IsAdvance d p (some j) =
    (q : Position) × (get_next_position d p ≡ ok q)
    × (index_of q (pawn_path p.player) ≡ some j)
    × (can_pawn_move_by_dice p.position d ≡ true)

agrees_with-IsAdvance :
    (d : ℕ) (p : Pawn) (o : Option ℕ) (r : Result Position) (movable : Bool)
    → get_next_position d p ≡ r
    → can_pawn_move_by_dice p.position d ≡ movable
    → agrees_with p.player o r movable ≡ true
    → IsAdvance d p o
unfolding IsAdvance
agrees_with-IsAdvance d p none (err bad_request) true next can h = cc
agrees_with-IsAdvance d p none (err bad_request) false next can h = (next, can)
agrees_with-IsAdvance d p none (err not_found) movable next can h = cc
agrees_with-IsAdvance d p none (err internal) movable next can h = cc
agrees_with-IsAdvance d p none (err type_error) movable next can h = cc
agrees_with-IsAdvance d p none (err stuck) movable next can h = cc
agrees_with-IsAdvance d p none (ok q) movable next can h = cc
agrees_with-IsAdvance d p (some j) (ok q) movable next can h =
    let found = index_of q (pawn_path p.player) in
    let (same, allowed) = both (is_index found j) movable h in
    (q, next, is_index-eq found j same, can ∙ allowed)
agrees_with-IsAdvance d p (some j) (err e) movable next can h = cc

-- A pawn on its path moves as `advance` tells, and `#canPawnMoveByDice` allows just these moves.
pub get_next_position-IsAdvance :
    (p : Pawn) (i d : ℕ)
    → index_of p.position (pawn_path p.player) ≡ some i
    → d < 6
    → IsAdvance (suc d) p (advance i (suc d))
unfolding index_of get_next_position
get_next_position-IsAdvance p i d here below =
    let (q, at, same) = find_index-get_elem? (position_eq p.position) (pawn_path p.player) i here in
    let near : i < 58 =
      omega (arith, get_elem?-lt (pawn_path p.player) i at, length_path p.player) in
    let agree = agrees_below p.player i d near below in
    agrees_with-IsAdvance (suc d) p _ _ _ refl refl
      (rw (at, ← position_eq-eq p.position q same) at agree)
