-- ===== src/SnakesLadders/Gameplay/Keeping.antt =====
-- What holds of the stored tables between two requests, and how an action keeps it.
pub mod Played
pub mod Left
pub mod Handled
pub mod Ended
use empire_backend.Base.{
  ℕ, ◌≤◌, ◌≡◌, refl, ◌≢◌, Bool, true, false, Option, none, some, length, ap, sym, ◌∙◌, subst, ◌==◌,
  if◌then◌else◌, arith, ==_iff, ==_self, Bool-cases, inl, inr,
}
use mathlib.Core.Option.{some-injective}
pub use empire_backend.Base.Keeping.{
  Keeps, Always, then_run-Keeps, Keeps-bind, Keeps-then, Keeps-lift, Keeps-if,
}
use empire_backend.Base.Results.{Result, ok, err}
use empire_backend.SnakesLadders.Types.{GameStatus}
use empire_backend.SnakesLadders.Table.{User, Table, TableData, new_table, to_data}
use empire_backend.SnakesLadders.Table.Stored.{new_table-to_data}
use empire_backend.SnakesLadders.Table.Invariant.{IsTable}
use empire_backend.SnakesLadders.Table.Invariant.Keeps.{IsTable-same}
use empire_backend.SnakesLadders.Gameplay.{
  World, Action, then_run, ◌>>=◌, ◌>>◌, lift, done, write, load, retrieve_game_table,
  store_game_table,
}
use empire_backend.SnakesLadders.Gameplay.Winners.{get_remaining_players}

-- A valid table with two players or more.
pub record IsLive (t : Table) : Type 0 where
  pub valid : IsTable t
  pub remaining : 2 ≤ length (get_remaining_players t)

-- The stored object is read as a table with this id that is live.
pub record IsStored (table_id : ℕ) (d : TableData) : Type 0 where
  pub table : Table
  pub read : new_table 0 d ≡ ok table
  pub id : table.id ≡ table_id
  pub live : IsLive table

abbrev pub IsStore : (ℕ → Option TableData) → Type 0
IsStore m = (table_id : ℕ) (d : TableData) → m table_id ≡ some d → IsStored table_id d

-- The invariant of a world that the actions keep.
abbrev pub StoreOf : World → Type 0
StoreOf w = IsStore w.tables

-- An action that leaves the tables alone.
pub Keeps-same :
    {m : Action (Unit {0})}
    → ((w : World) → (m w).1.tables ≡ w.tables)
    → Keeps StoreOf (Always StoreOf) m
Keeps-same {m} h = record { run = λ w store. (subst IsStore (sym (h w)) store, λ a e. tt) }

-- A live table that is read.
pub record IsRead (table_id : ℕ) (t : Table) : Type 0 where
  pub id : t.id ≡ table_id
  pub live : IsLive t

load-IsRead :
    (table_id : ℕ) (t : Table) (o : Option TableData)
    → ((d : TableData) → o ≡ some d → IsStored table_id d)
    → load o ≡ ok t
    → IsRead table_id t
load-IsRead table_id t none h e = cc
load-IsRead table_id t (some d) h e =
    let s = h d refl in
    let same : s.table ≡ t = cc (s.read, e) in
    record {
      id = subst (λ (u : Table). u.id ≡ table_id) same s.id;
      live = subst IsLive same s.live;
    }

pub retrieve_game_table-Keeps :
    (table_id : ℕ) → Keeps StoreOf (IsRead table_id) (retrieve_game_table table_id)
unfolding retrieve_game_table
retrieve_game_table-Keeps table_id = record {
  run = λ w store. (store, λ t e. load-IsRead table_id t (w.tables table_id) (store table_id) e);
}

-- A table with the same players, pawns and turn is as good.
pub IsLive-same :
    (t t' : Table)
    → t'.users ≡ t.users
    → t'.pawns ≡ t.pawns
    → t'.current_turn ≡ t.current_turn
    → IsLive t
    → IsLive t'
unfolding get_remaining_players
IsLive-same t t' users pawns turn h = record {
  valid = IsTable-same t t' users pawns turn h.valid;
  remaining = rw users h.remaining;
}

pub write-IsStore :
    (t : Table) (m : ℕ → Option TableData)
    → IsLive t
    → ((j : ℕ) → j ≢ t.id → (d : TableData) → m j ≡ some d → IsStored j d)
    → IsStore (write t.id (some (to_data t)) m)
write-IsStore t m live others j d e = elim (Bool-cases (j == t.id)) [
  | inl hit ↦
      let same : d ≡ to_data t = sym (some-injective (to_data t) d (rw hit at e)) in
      record {
        table = record t { status = GameStatus.waiting };
        read = rw same (new_table-to_data 0 t);
        id = sym ((==_iff j t.id).0 hit);
        live = IsLive-same t _ refl refl refl live;
      }
  | inr miss ↦ others j (λ same. ground arith) d (rw miss at e)
]

pub store_game_table-Keeps :
    (t : Table) → IsLive t → Keeps StoreOf (Always StoreOf) (store_game_table t)
unfolding store_game_table
store_game_table-Keeps t live = record {
  run = λ w store. (write-IsStore t w.tables live (λ j differs d e. store j d e), λ a e. tt);
}
