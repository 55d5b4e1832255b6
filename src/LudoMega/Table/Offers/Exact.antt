-- ===== src/LudoMega/Table/Offers/Exact.antt =====
-- table.entity.ts: which moves the list of `#getCanMovePanws` offers.
use empire_backend.Base.{
  ℕ, ◌≡◌, refl, sym, Bool, true, false, ◌&&◌, ◌||◌, inl, inr, List, [], ◌∷◌, ◌++◌, ◌==◌, ==_iff,
  ==_self, All, Bool-cases, any, both, arith,
}
use mathlib.Core.Bool.{or-false}
use empire_backend.LudoMega.{PawnId, pw, same_pawn, same_player, pl1, pl2, pl3, pl4}
use empire_backend.LudoMega.Pawn.{Pawn, get_pawn_id, can_pawn_move_by_dice}
use empire_backend.LudoMega.Pawn.Paths.{same_player-eq}
use empire_backend.LudoMega.Table.{Table, is_mine}
use empire_backend.LudoMega.Table.Offers.{
  CanMovePawn, add_offer, offers_of, offers_from, get_can_move_pawns, is_offered, is_empty,
}

pub same_pawn-eq : (a b : PawnId) → same_pawn a b ≡ true → a ≡ b
unfolding same_pawn
same_pawn-eq (pw p i) (pw q j) h =
    let (same, number) = both (same_player p q) (i == j) h in
    rw (same_player-eq p q same, (==_iff i j).0 number)

pub same_pawn_self : (a : PawnId) → same_pawn a a ≡ true
unfolding same_pawn same_player
same_pawn_self (pw pl1 i) = ground arith
same_pawn_self (pw pl2 i) = ground arith
same_pawn_self (pw pl3 i) = ground arith
same_pawn_self (pw pl4 i) = ground arith

any-append :
    (d : ℕ) (xs : List ℕ) (e : ℕ) → any (◌==◌ d) (xs ++ (e ∷ [])) ≡ (any (◌==◌ d) xs || d == e)
any-append d [] e = ground arith
any-append d (x ∷ xs) e = ground (arith, any-append d xs e)

or_assoc : (a b c : Bool) → (a || (b || c)) ≡ ((a || b) || c)
or_assoc true b c = refl
or_assoc false b c = refl

-- The new dice at the end of a list, and at the end of the offers.
or-shuffle : (a b c d : Bool) → ((a && (b || c)) || d) ≡ (((a && b) || d) || (a && c))
or-shuffle true true c d = refl
or-shuffle true false true true = refl
or-shuffle true false true false = refl
or-shuffle true false false true = refl
or-shuffle true false false false = refl
or-shuffle false b c true = refl
or-shuffle false b c false = refl

or-offer :
    (x s q c r : Bool)
    → (q ≡ true → c ≡ true)
    → ((x || (s && q)) || (s && (c && r))) ≡ (x || (s && (c && (q || r))))
or-offer true s q c r h = refl
or-offer false false q c r h = refl
or-offer false true true true r h = refl
or-offer false true true false r h = absurd (cc (h refl))
or-offer false true false c r h = refl

or-skip :
    (x s q c r : Bool)
    → (q ≡ true → c ≡ false)
    → (x || (s && (c && r))) ≡ (x || (s && (c && (q || r))))
or-skip true s q c r h = refl
or-skip false false q c r h = refl
or-skip false true q false r h = refl
or-skip false true false true r h = refl
or-skip false true true true r h = absurd (cc (h refl))

abbrev pub is_in : PawnId → ℕ → List CanMovePawn → Bool
is_in id d offers = any (is_offered id d) offers

is_in-add_offer :
    (id : PawnId) (d : ℕ) (id' : PawnId) (e : ℕ) (os : List CanMovePawn)
    → is_in id d (add_offer id' e os) ≡ (is_in id d os || (same_pawn id' id && d == e))
unfolding add_offer
is_in-add_offer id d id' e [] = ground arith
is_in-add_offer id d id' e (o ∷ os) = elim (Bool-cases (same_pawn o.pawn id')) [
  | inl same ↦
      rw (same, same_pawn-eq o.pawn id' same, any-append d o.dices e)
        (or-shuffle (same_pawn id' id) (any (◌==◌ d) o.dices) (d == e) (is_in id d os))
  | inr other ↦
      rw (other, is_in-add_offer id d id' e os)
        (or_assoc (is_offered id d o) (is_in id d os) (same_pawn id' id && d == e))
]

none_allowed : (x s c : Bool) → x ≡ (x || (s && (c && false)))
none_allowed true s c = refl
none_allowed false true true = refl
none_allowed false true false = refl
none_allowed false false c = refl

-- A pawn of the list offers the dice `d` for the id.
abbrev pub allows : PawnId → ℕ → List ℕ → Pawn → Bool
allows id d dices p =
    same_pawn (get_pawn_id p) id && (can_pawn_move_by_dice p.position d && any (◌==◌ d) dices)

is_in-offers_of :
    (id : PawnId) (d : ℕ) (p : Pawn) (dices : List ℕ) (os : List CanMovePawn)
    → is_in id d (offers_of p dices os) ≡ (is_in id d os || allows id d dices p)
unfolding offers_of
is_in-offers_of id d p [] os =
    none_allowed (is_in id d os) (same_pawn (get_pawn_id p) id) (can_pawn_move_by_dice p.position d)
is_in-offers_of id d p (e ∷ dices) os = elim (Bool-cases (can_pawn_move_by_dice p.position e)) [
  | inl can ↦
      rw
        (
          can,
          is_in-offers_of id d p dices (add_offer (get_pawn_id p) e os),
          is_in-add_offer id d (get_pawn_id p) e os,
        )
        (or-offer (is_in id d os) (same_pawn (get_pawn_id p) id) (d == e) _ _
          (λ same. rw ((==_iff d e).0 same) can))
  | inr cannot ↦
      rw (cannot, is_in-offers_of id d p dices os)
        (or-skip (is_in id d os) (same_pawn (get_pawn_id p) id) (d == e) _ _
          (λ same. rw ((==_iff d e).0 same) cannot))
]

-- The list offers a dice for an id exactly when a pawn of the player has the id and can move by it.
pub offers_from-is_in :
    (id : PawnId) (d : ℕ) (dices : List ℕ) (pawns : List Pawn) (os : List CanMovePawn)
    → is_in id d (offers_from dices pawns os)
      ≡ (is_in id d os || any (λ p. is_mine p && allows id d dices p) pawns)
unfolding offers_from
offers_from-is_in id d dices [] os = sym (or-false (is_in id d os))
offers_from-is_in id d dices (p ∷ pawns) os = elim (Bool-cases (is_mine p)) [
  | inl mine ↦
      rw
        (
          mine,
          offers_from-is_in id d dices pawns (offers_of p dices os),
          is_in-offers_of id d p dices os,
        )
        (sym (
          or_assoc (is_in id d os) (allows id d dices p)
            (any (λ p. is_mine p && allows id d dices p) pawns)))
  | inr other ↦ rw (other, offers_from-is_in id d dices pawns os)
]

abbrev AreFilled : List CanMovePawn → Type 0
AreFilled = All (λ o. is_empty o.dices ≡ false)

append-filled : (dices : List ℕ) (d : ℕ) → is_empty (dices ++ (d ∷ [])) ≡ false
append-filled [] d = refl
append-filled (e ∷ dices) d = refl

add_offer-AreFilled :
    (id : PawnId) (d : ℕ) (os : List CanMovePawn) → AreFilled os → AreFilled (add_offer id d os)
unfolding add_offer
add_offer-AreFilled id d [] h = (refl, tt)
add_offer-AreFilled id d (o ∷ os) h = elim (Bool-cases (same_pawn o.pawn id)) [
  | inl same ↦ rw same (append-filled o.dices d, h.1)
  | inr other ↦ rw other (h.0, add_offer-AreFilled id d os h.1)
]

offers_of-AreFilled :
    (p : Pawn) (dices : List ℕ) (os : List CanMovePawn)
    → AreFilled os
    → AreFilled (offers_of p dices os)
unfolding offers_of
offers_of-AreFilled p [] os h = h
offers_of-AreFilled p (d ∷ dices) os h = elim (Bool-cases (can_pawn_move_by_dice p.position d)) [
  | inl can ↦ rw can (
      offers_of-AreFilled p dices (add_offer (get_pawn_id p) d os)
        (add_offer-AreFilled (get_pawn_id p) d os h))
  | inr cannot ↦ rw cannot (offers_of-AreFilled p dices os h)
]

offers_from-AreFilled :
    (dices : List ℕ) (pawns : List Pawn) (os : List CanMovePawn)
    → AreFilled os
    → AreFilled (offers_from dices pawns os)
unfolding offers_from
offers_from-AreFilled dices [] os h = h
offers_from-AreFilled dices (p ∷ pawns) os h = elim (Bool-cases (is_mine p)) [
  | inl mine ↦
      rw mine (
        offers_from-AreFilled dices pawns (offers_of p dices os) (offers_of-AreFilled p dices os h))
  | inr other ↦ rw other (offers_from-AreFilled dices pawns os h)
]

filled-is_in :
    (os : List CanMovePawn)
    → AreFilled os
    → is_empty os ≡ false
    → (id : PawnId) × (d : ℕ) × (is_in id d os ≡ true)
filled-is_in [] h filled = cc
filled-is_in (o ∷ os) h filled = first o.dices refl
  where
    first :
        (dices : List ℕ) → o.dices ≡ dices → (id : PawnId) × (d : ℕ) × (is_in id d (o ∷ os) ≡ true)
    first [] e = cc
    first (d ∷ dices) e = (o.pawn, d, rw (same_pawn_self o.pawn, e, ==_self d) refl)

-- A list that is not empty offers a dice for an id.
pub get_can_move_pawns-is_in :
    (t : Table)
    → is_empty (get_can_move_pawns t) ≡ false
    → (id : PawnId) × (d : ℕ) × (is_in id d (get_can_move_pawns t) ≡ true)
unfolding get_can_move_pawns
get_can_move_pawns-is_in t h =
    filled-is_in (offers_from t.dices t.pawns []) (offers_from-AreFilled t.dices t.pawns [] tt) h
