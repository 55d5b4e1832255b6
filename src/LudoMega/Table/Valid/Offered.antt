-- ===== src/LudoMega/Table/Valid/Offered.antt =====
-- table.entity.ts: the moves that are offered to the player are the moves that succeed.
use empire_backend.Base.{
  ℕ, zero, suc, ◌≡◌, refl, sym, ◌∙◌, ap, subst, ◌↔◌, Bool, true, not, ◌&&◌, inl, inr, Option, none,
  some, List, [], ◌∷◌, map, get_elem?, All-get_elem?, get_elem?-map, find_index,
  find_index-get_elem?, find_index-map, any, any-get_elem?, any-true, both, Bool-cases, arith,
}
use mathlib.Core.Option.{some-injective}
use empire_backend.Base.Results.{ok, bad_request, err-ne-ok}
use empire_backend.LudoMega.{
  Player, pl1, PawnId, pw, same_pawn, same_player, is_move_pawn, Position,
}
use empire_backend.LudoMega.Pawn.{Pawn, get_pawn_id, get_next_position, can_pawn_move_by_dice}
use empire_backend.LudoMega.Pawn.Paths.{advance, IsAdvance, get_next_position-IsAdvance}
use empire_backend.LudoMega.Table.{Table, is_mine}
use empire_backend.LudoMega.Table.Offers.{get_can_move_pawns}
use empire_backend.LudoMega.Table.Offers.Exact.{
  is_in, allows, offers_from-is_in, same_pawn-eq, same_pawn_self,
}
use empire_backend.LudoMega.Table.Move.{
  Moved, moved, move_pawn_on, move_target, move_found, has_id, has_dice,
}
use empire_backend.LudoMega.Table.Valid.{IsTable, ArePawns, IsOnPath, IsDice, pawn_ids}
use empire_backend.LudoMega.Table.Valid.Moves.{IsMove, move_pawn_on-IsMove, has_dice-IsDice}

-- No id comes twice.
abbrev are_distinct : List PawnId → Bool
are_distinct [] = true
are_distinct (a ∷ ids) = not (any (same_pawn a) ids) && are_distinct ids

pawn_ids-are_distinct : are_distinct pawn_ids ≡ true
unfolding same_pawn same_player
pawn_ids-are_distinct = refl

find_index-distinct :
    (ids : List PawnId) (i : ℕ) (a : PawnId)
    → are_distinct ids ≡ true
    → get_elem? ids i ≡ some a
    → find_index (λ x. same_pawn x a) ids ≡ some i
find_index-distinct [] i a h here = cc
find_index-distinct (b ∷ ids) zero a h here = rw (some-injective b a here, same_pawn_self a) refl
find_index-distinct (b ∷ ids) (suc i) a h here =
    let (fresh, rest) = both (not (any (same_pawn b) ids)) (are_distinct ids) h in
    elim (Bool-cases (same_pawn b a)) [
      | inl same ↦ absurd (cc (any-true (same_pawn b) ids i here same, fresh))
      | inr other ↦ rw (other, find_index-distinct ids i a rest here) refl
    ]

-- `#findPawn` finds a pawn of the table by its id.
pub find_index-has_id :
    (pawns : List Pawn) (i : ℕ) (p : Pawn)
    → map get_pawn_id pawns ≡ pawn_ids
    → get_elem? pawns i ≡ some p
    → find_index (has_id (get_pawn_id p)) pawns ≡ some i
find_index-has_id pawns i p ids here =
    find_index-map get_pawn_id (λ x. same_pawn x (get_pawn_id p)) pawns
    ∙ find_index-distinct (map get_pawn_id pawns) i (get_pawn_id p) (rw ids pawn_ids-are_distinct)
        (get_elem?-map get_pawn_id pawns i here)

-- A dice that the pawn can use takes it to a position.
can-next :
    (p : Pawn) (d : ℕ)
    → IsOnPath p
    → IsDice d
    → can_pawn_move_by_dice p.position d ≡ true
    → (q : Position) × (get_next_position d p ≡ ok q)
unfolding IsOnPath IsDice IsAdvance
can-next p zero on_path is_dice can = absurd (omega arith)
can-next p (suc d) (i, here) is_dice can =
    next (advance i (suc d)) (get_next_position-IsAdvance p i d here (omega arith))
  where
    next :
        (o : Option ℕ)
        → IsAdvance (suc d) p o
        → (q : Position) × (get_next_position (suc d) p ≡ ok q)
    next none (_, cannot) = cc
    next (some j) (q, found, _, _) = (q, found)

next-can :
    (p : Pawn) (d : ℕ) (q : Position)
    → IsOnPath p
    → IsDice d
    → get_next_position d p ≡ ok q
    → can_pawn_move_by_dice p.position d ≡ true
unfolding IsOnPath IsDice IsAdvance
next-can p zero q on_path is_dice next = absurd (omega arith)
next-can p (suc d) q (i, here) is_dice next =
    can (advance i (suc d)) (get_next_position-IsAdvance p i d here (omega arith))
  where
    can : (o : Option ℕ) → IsAdvance (suc d) p o → can_pawn_move_by_dice p.position (suc d) ≡ true
    can none (refused, _) = absurd (err-ne-ok bad_request q (sym refused ∙ next))
    can (some j) (_, _, _, able) = able

-- A move that is offered.
unfoldable pub IsOffered : PawnId → ℕ → Table → Type 0
unfolding get_can_move_pawns
IsOffered id d t = is_in id d (get_can_move_pawns t) ≡ true

pub move_pawn_on-eq :
    (now : ℕ) (id : PawnId) (d : ℕ) (t : Table) (target : ℕ) (p : Pawn) (q : Position)
    → is_move_pawn t.action ≡ true
    → has_dice d t.dices ≡ true
    → find_index (has_id id) t.pawns ≡ some target
    → get_elem? t.pawns target ≡ some p
    → get_next_position d p ≡ ok q
    → move_pawn_on now id d t ≡ ok (moved now d target t p q)
unfolding move_pawn_on move_target move_found
move_pawn_on-eq now id d t target p q acting having found here next =
    rw (acting, having, found, here, next) refl

pub offered-ok :
    (now : ℕ) (id : PawnId) (d : ℕ) (t : Table)
    → IsTable t
    → is_move_pawn t.action ≡ true
    → IsOffered id d t
    → (r : Moved) × (move_pawn_on now id d t ≡ ok r)
unfolding IsTable ArePawns IsOffered get_can_move_pawns
offered-ok now id d t ((ids, on_path), dices, playable) acting offered =
    let (i, p, here, passes) =
      any-get_elem? (λ p. is_mine p && allows id d t.dices p) t.pawns
        (sym (offers_from-is_in id d t.dices t.pawns []) ∙ offered) in
    let (mine, allowed) = both (is_mine p) (allows id d t.dices p) passes in
    let (same, rest) =
      both (same_pawn (get_pawn_id p) id) (can_pawn_move_by_dice p.position d && has_dice d t.dices)
        allowed in
    let (can, having) = both (can_pawn_move_by_dice p.position d) (has_dice d t.dices) rest in
    let is_id = same_pawn-eq (get_pawn_id p) id same in
    let (q, next) =
      can-next p d (All-get_elem? IsOnPath t.pawns i on_path here)
        (has_dice-IsDice d t.dices dices having) can in
    let found : find_index (has_id id) t.pawns ≡ some i =
      subst (λ a. find_index (has_id a) t.pawns ≡ some i) is_id
        (find_index-has_id t.pawns i p ids here) in
    (moved now d i t p q, move_pawn_on-eq now id d t i p q acting having found here next)

abbrev pub player_of : PawnId → Player
player_of (pw p i) = p

ok-IsOffered :
    (now : ℕ) (id : PawnId) (d : ℕ) (t : Table) {r : Moved}
    → IsTable t
    → player_of id ≡ pl1
    → move_pawn_on now id d t ≡ ok r
    → IsOffered id d t
unfolding IsTable ArePawns IsOffered get_can_move_pawns IsMove get_pawn_id same_player
ok-IsOffered now id d t ((ids, on_path), dices, playable) own h =
    let (target, p, q, acting, having, found, here, next, result) =
      move_pawn_on-IsMove now id d t h in
    let (x, at, has) = find_index-get_elem? (has_id id) t.pawns target found in
    let same : same_pawn (get_pawn_id p) id ≡ true =
      subst (λ y. has_id id y ≡ true) (some-injective x p (sym at ∙ here)) has in
    let mine : is_mine p ≡ true =
      rw (ap player_of (same_pawn-eq (get_pawn_id p) id same) ∙ own) refl in
    let can =
      next-can p d q (All-get_elem? IsOnPath t.pawns target on_path here)
        (has_dice-IsDice d t.dices dices having) next in
    offers_from-is_in id d t.dices t.pawns []
    ∙ any-true (λ p. is_mine p && allows id d t.dices p) t.pawns target here
        (rw (mine, same, can, having) refl)

-- In a valid table where the player has to move, a move of an own pawn is offered exactly when it
-- succeeds.
pub move_pawn_on_iff :
    (now : ℕ) (id : PawnId) (d : ℕ) (t : Table)
    → IsTable t
    → is_move_pawn t.action ≡ true
    → player_of id ≡ pl1
    → (is_in id d (get_can_move_pawns t) ≡ true) ↔ ((r : Moved) × (move_pawn_on now id d t ≡ ok r))
unfolding IsOffered
move_pawn_on_iff now id d t valid acting own =
    (offered-ok now id d t valid acting, λ (r, h). ok-IsOffered now id d t valid own h)
