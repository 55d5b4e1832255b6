-- ===== src/LudoMega/Table/Offers.antt =====
-- table.entity.ts: `#getCanMovePanws` and `generateNextAction`, the moves that are offered.
pub mod Exact
use empire_backend.Base.{
  ℕ, Bool, true, false, ◌&&◌, Option, none, some, List, [], ◌∷◌, ◌++◌, ◌==◌, if◌then◌else◌, any,
}
use empire_backend.Base.Int.{ℤ}
use empire_backend.LudoMega.{PawnId, same_pawn, GameAction, is_move_pawn}
use empire_backend.LudoMega.Pawn.{Pawn, get_pawn_id, can_pawn_move_by_dice}
use empire_backend.LudoMega.Table.{Table, is_mine}

pub record CanMovePawn : Type 0 where
  pub pawn : PawnId
  pub dices : List ℕ

-- The object by ids: a new id is added at its end.
unfoldable pub add_offer : PawnId → ℕ → List CanMovePawn → List CanMovePawn
unfolding same_pawn
add_offer id dice [] = record { pawn = id; dices = dice ∷ [] } ∷ []
add_offer id dice (o ∷ os) =
    let rest = add_offer id dice os in
    if same_pawn o.pawn id then record o { dices = o.dices ++ (dice ∷ []) } ∷ os else o ∷ rest

-- The loop over the dices for one pawn.
unfoldable pub offers_of : Pawn → List ℕ → List CanMovePawn → List CanMovePawn
unfolding add_offer get_pawn_id can_pawn_move_by_dice
offers_of p [] offers = offers
offers_of p (dice ∷ dices) offers = offers_of p dices (
    if can_pawn_move_by_dice p.position dice then add_offer (get_pawn_id p) dice offers else offers)

-- The loop over the pawns.
unfoldable pub offers_from : List ℕ → List Pawn → List CanMovePawn → List CanMovePawn
unfolding offers_of
offers_from dices [] offers = offers
offers_from dices (p ∷ pawns) offers =
    offers_from dices pawns (if is_mine p then offers_of p dices offers else offers)

unfoldable pub get_can_move_pawns : Table → List CanMovePawn
unfolding offers_from
get_can_move_pawns t = offers_from t.dices t.pawns []

abbrev pub is_offered : PawnId → ℕ → CanMovePawn → Bool
is_offered id dice o = same_pawn o.pawn id && any (◌==◌ dice) o.dices

abbrev pub is_empty {ℓ} : {A : Type ℓ} → List A → Bool
is_empty [] = true
is_empty (x ∷ xs) = false

pub record NextActionEvent : Type 0 where
  pub table_id : ℕ
  pub action : GameAction
  pub timeout : ℕ
  pub can_move_pawns? : Option (List CanMovePawn)
  pub lives : ℤ
  pub remaining_moves : ℤ
  pub is_new_turn : Bool

unfoldable pub generate_next_action : Table → NextActionEvent
unfolding get_can_move_pawns
generate_next_action t = record {
  table_id = t.id;
  action = t.action;
  timeout = t.timeout;
  can_move_pawns? = if is_move_pawn t.action then some (get_can_move_pawns t) else none;
  lives = t.lives;
  remaining_moves = t.remaining_moves;
  is_new_turn = t.is_new_turn;
}
