-- ===== src/SnakesLadders/Gameplay/Keeping/Ended.antt =====
-- gameplay.usecases .ts: `handleEndGame` keeps the stored tables valid.
use empire_backend.Base.{
  ℕ, ◌≡◌, refl, ◌≢◌, none, some, map, Distinct, ◌==◌, arith, ==_iff, Bool-cases, inl, inr, sym, ◌∙◌,
  subst,
}
use empire_backend.SnakesLadders.Types.{is_completed}
use empire_backend.SnakesLadders.Table.{Table, TableData}
use empire_backend.SnakesLadders.Gameplay.{World}
use empire_backend.SnakesLadders.Gameplay.Ending.{id_of, finish_game, handle_end_game}
use empire_backend.SnakesLadders.Gameplay.Ending.Payout.{
  IsPaidOut, completed, finish_game-IsPaidOut,
}
use empire_backend.SnakesLadders.Gameplay.Keeping.{
  StoreOf, IsStored, IsStore, Keeps, Always, Keeps-bind, Keeps-if, Keeps-same,
  retrieve_game_table-Keeps,
}

-- The table that is paid out need not have been valid.
pub IsPaidOut-IsStore :
    (table_id : ℕ) (t : Table) (w w' : World)
    → IsPaidOut table_id t w w'
    → ((j : ℕ) → j ≢ table_id → (d : TableData) → w.tables j ≡ some d → IsStored j d)
    → IsStore w'.tables
IsPaidOut-IsStore table_id t w w' paid others j d e = elim (Bool-cases (j == table_id)) [
  | inl hit ↦
      let same = (==_iff j table_id).0 hit in
      let gone = subst (λ k. w'.tables k ≡ none) (sym same) paid.deleted in cc
  | inr miss ↦
      let differs : j ≢ table_id = λ same. ground arith in
      others j differs d (sym (paid.others j differs) ∙ e)
]

pub finish_game-Keeps :
    (table_id : ℕ) (t : Table)
    → t.id ≡ table_id
    → Distinct (map id_of t.users)
    → Keeps StoreOf (Always StoreOf) (finish_game table_id t)
finish_game-Keeps table_id t same distinct = record {
  run = λ w store.
      let (w', run, paid) = finish_game-IsPaidOut table_id t w same distinct in
      (
        subst (λ r. IsStore r.1.tables) (sym run)
            (IsPaidOut-IsStore table_id t w w' paid (λ j differs d e. store j d e)),
        λ a e. tt,
      );
}

pub handle_end_game-Keeps :
    (now table_id : ℕ) → Keeps StoreOf (Always StoreOf) (handle_end_game now table_id)
unfolding handle_end_game
handle_end_game-Keeps now table_id = Keeps-bind StoreOf (retrieve_game_table-Keeps table_id) (λ t h.
    Keeps-if StoreOf (is_completed t.status) (λ e. Keeps-same (λ w. refl))
      (λ e. finish_game-Keeps table_id (completed now t) h.id h.live.valid.user_ids))
