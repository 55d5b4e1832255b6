-- ===== src/SnakesLadders/Table/Invariant.antt =====
-- What holds of a table between two requests: each pawn has a seat and stands on a member of the
-- enum, no two pawns share an id and no two players share a user id, and the player who has the
-- turn is at the table.
pub mod Keeps
pub mod Moves
pub mod Create
use empire_backend.Base.{ℕ, ◌≡◌, false, some, List, map, get_elem?, Distinct, All}
use empire_backend.SnakesLadders.Types.{IsPosition}
use empire_backend.SnakesLadders.Pawn.{Pawn, get_pawn_id}
use empire_backend.SnakesLadders.Table.{User, Table}
use empire_backend.SnakesLadders.Table.Turn.{current_index}
use empire_backend.SnakesLadders.Table.Move.Kill.{AreSeated}

abbrev pub user_id_of : User → ℕ
user_id_of u = u.user_id

abbrev pub ArePlaced : List Pawn → Type 0
ArePlaced = All (λ (p : Pawn). IsPosition p.position)

pub record IsLayout (t : Table) : Type 0 where
  pub seated : AreSeated t.users t.pawns
  pub placed : ArePlaced t.pawns
  pub ids : Distinct (map get_pawn_id t.pawns)
  pub user_ids : Distinct (map user_id_of t.users)

-- The player at seat `index` is there and has the turn.
pub record HasTurn (t : Table) : Type 0 where
  pub index : ℕ
  pub user : User
  pub found : current_index t ≡ some index
  pub seat : get_elem? t.users index ≡ some user
  pub stays : user.did_leave ≡ false

pub record IsTable (t : Table) : Type 0 where
  pub layout : IsLayout t
  pub open layout use *
  pub turn : HasTurn t
