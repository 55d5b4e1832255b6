-- ===== src/LudoMega/Table/Valid.antt =====
-- table.entity.ts: when a table is valid, and that its operations keep it so.
pub mod Kept
pub mod Moves
pub mod Offered
pub mod Progress
use empire_backend.Base.{
  ℕ, zero, suc, ◌+◌, ◌≤◌, ◌<◌, ◌≡◌, refl, sym, ap, ◌∙◌, Bool, true, false, not, ◌⊎◌, inl, inr, List,
  [], ◌∷◌, ◌++◌, map, All, Option, none, some, get_elem?, modify, get_elem?-modify, map-modify,
  All-modify, Option-cases, if◌then◌else◌, Bool-cases,
}
use mathlib.Core.Option.{some-injective}
use empire_backend.Base.Int.{ℤ}
use empire_backend.LudoMega.{
  Player, pl1, pl2, pl3, pl4, PawnId, pw, Position, position_eq, same_player, pawn_path, is_home,
  cells_from, GameAction, roll_dice, move_pawn,
}
use empire_backend.LudoMega.Pawn.{
  Pawn, get_pawn_id, index_of, get_base_position, move_to, credit_bonus, calculate_points,
}
use empire_backend.LudoMega.Table.{Table}
use empire_backend.LudoMega.Table.Offers.{get_can_move_pawns, is_empty}
use empire_backend.LudoMega.Table.Move.{
  land, kill, kill_all, pawns_after, is_stuck, get_other_pawns_to_kill_on_position,
}

abbrev pub pawn_ids : List PawnId
pawn_ids =
    pw pl1 0
    ∷ pw pl1 1
    ∷ pw pl1 2
    ∷ pw pl1 3
    ∷ pw pl2 0
    ∷ pw pl2 1
    ∷ pw pl2 2
    ∷ pw pl2 3
    ∷ pw pl3 0
    ∷ pw pl3 1
    ∷ pw pl3 2
    ∷ pw pl3 3
    ∷ pw pl4 0
    ∷ pw pl4 1
    ∷ pw pl4 2
    ∷ pw pl4 3
    ∷ []

unfoldable pub IsOnPath : Pawn → Type 0
IsOnPath p = (i : ℕ) × (index_of p.position (pawn_path p.player) ≡ some i)

unfoldable pub IsDice : ℕ → Type 0
IsDice d = (1 ≤ d) × (d ≤ 6)

-- When the player has to move a pawn there is a move.
unfoldable pub IsPlayable : GameAction → Bool → Type 0
IsPlayable roll_dice stuck = Unit
IsPlayable move_pawn stuck = stuck ≡ false
IsPlayable _ stuck = ⊥

unfoldable pub ArePawns : List Pawn → Type 0
unfolding IsOnPath
ArePawns pawns = (map get_pawn_id pawns ≡ pawn_ids) × All IsOnPath pawns

-- The sixteen pawns stand on their paths, the dices are dices, and there is something to do.
unfoldable pub IsTable : Table → Type 0
unfolding ArePawns IsDice IsPlayable get_can_move_pawns
IsTable t = ArePawns t.pawns × All IsDice t.dices × IsPlayable t.action (is_stuck t)

pub index_of-get_base_position :
    (p : Player) → index_of (get_base_position p) (pawn_path p) ≡ some 1
unfolding get_base_position index_of pawn_path cells_from position_eq same_player
index_of-get_base_position pl1 = refl
index_of-get_base_position pl2 = refl
index_of-get_base_position pl3 = refl
index_of-get_base_position pl4 = refl

kill-ArePawns :
    (target : ℕ) (pawns : List Pawn) (k : Pawn) (i : ℕ)
    → get_elem? pawns i ≡ some k
    → ArePawns pawns
    → ArePawns (kill target pawns k i)
unfolding kill ArePawns get_pawn_id IsOnPath
kill-ArePawns target pawns k i here (ids, on_path) =
    let credited = modify (credit_bonus (calculate_points k)) pawns target in
    (
      map-modify get_pawn_id _ credited i (λ p. refl)
          ∙ map-modify get_pawn_id _ pawns target (λ p. refl)
          ∙ ids,
      All-modify IsOnPath _ credited i (All-modify IsOnPath _ pawns target on_path (λ p at h. h))
          (λ p at h.
            let (q, there, changed) = get_elem?-modify _ pawns target i at in
            let same : p.player ≡ k.player = elim changed [
              | inl e ↦
                  ap (λ x. x.player) e ∙ ap (λ x. x.player) (some-injective q k (sym there ∙ here))
              | inr e ↦
                  ap (λ x. x.player) e ∙ ap (λ x. x.player) (some-injective q k (sym there ∙ here))
            ] in
            (1, rw same (index_of-get_base_position k.player))),
    )

kill_all-ArePawns :
    (target : ℕ) (is : List ℕ) (pawns : List Pawn)
    → ArePawns pawns
    → ArePawns (kill_all target is pawns)
unfolding kill_all
kill_all-ArePawns target [] pawns h = h
kill_all-ArePawns target (i ∷ is) pawns h = elim (Option-cases (get_elem? pawns i)) [
  | inl e ↦ rw e (kill_all-ArePawns target is pawns h)
  | inr (k, e) ↦
      rw e
        (kill_all-ArePawns target is (kill target pawns k i) (kill-ArePawns target pawns k i e h))
]

land-get_pawn_id : (position : Position) (p : Pawn) → get_pawn_id (land position p) ≡ get_pawn_id p
unfolding get_pawn_id
land-get_pawn_id position p = elim (Bool-cases (is_home position)) [
  | inl e ↦ rw e refl
  | inr e ↦ rw e refl
]

-- The pawn that has moved is on its path, and so are those that it has sent back.
pub pawns_after-ArePawns :
    (target : ℕ) (position : Position) (pawns : List Pawn)
    → ((p : Pawn) → get_elem? pawns target ≡ some p → IsOnPath (move_to position p))
    → ArePawns pawns
    → ArePawns (pawns_after target position pawns)
unfolding pawns_after ArePawns IsOnPath
pawns_after-ArePawns target position pawns lands (ids, on_path) =
    kill_all-ArePawns target
      (get_other_pawns_to_kill_on_position position (modify (land position) pawns target))
      (modify (land position) pawns target)
      (
        map-modify get_pawn_id _ pawns target (land-get_pawn_id position) ∙ ids,
        All-modify IsOnPath _ pawns target on_path (λ p at h. elim (Bool-cases (is_home position)) [
          | inl e ↦ rw e (lands p at)
          | inr e ↦ rw e (lands p at)
        ]),
      )
