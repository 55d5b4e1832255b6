-- ===== src/SnakesLadders/Table/Stored.antt =====
-- What `serialize` and `deserialize` keep of a table. The text of `JSON.stringify` and its
-- compression are left out: the object that is printed is the object that is read.
use empire_backend.Base.{ℕ, ◌≡◌, refl, List, [], ◌∷◌, map}
use empire_backend.Base.Results.{ok}
use empire_backend.SnakesLadders.Types.{GameStatus}
use empire_backend.SnakesLadders.Pawn.{Pawn, from_pawn_position, to_pawn_position}
use empire_backend.SnakesLadders.Pawn.Laws.{from_pawn_position-to_pawn_position}
use empire_backend.SnakesLadders.Table.{Table, new_table, to_data}

map-from_pawn_position-to_pawn_position :
    (pawns : List Pawn) → map from_pawn_position (map to_pawn_position pawns) ≡ pawns
map-from_pawn_position-to_pawn_position [] = refl
map-from_pawn_position-to_pawn_position (p ∷ pawns) =
    rw (from_pawn_position-to_pawn_position p, map-from_pawn_position-to_pawn_position pawns)

-- A table that is printed by `toString` and read by `deserialize` comes back with every field but
-- one: its status is `waiting`, whatever it was.
pub new_table-to_data :
    (fresh : ℕ) (t : Table)
    → new_table fresh (to_data t) ≡ ok (record t { status = GameStatus.waiting })
unfolding new_table to_data
new_table-to_data fresh t = rw (map-from_pawn_position-to_pawn_position t.pawns)
