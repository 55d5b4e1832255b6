-- ===== src/SnakesLadders/Gameplay/Stored.antt =====
-- redis-game.repository.ts: what is read of the repository.
use empire_backend.Base.{ℕ, ◌≡◌, Option, some, ==_self}
use empire_backend.Base.Results.{ok}
use empire_backend.SnakesLadders.Types.{GameStatus}
use empire_backend.SnakesLadders.Table.{Table, to_data}
use empire_backend.SnakesLadders.Table.Stored.{new_table-to_data}
use empire_backend.SnakesLadders.Gameplay.{World, load, write, retrieve_game_table}

pub retrieve_game_table-ok :
    (table_id : ℕ) (w : World) {t : Table}
    → load (w.tables table_id) ≡ ok t
    → retrieve_game_table table_id w ≡ (ok t, w)
unfolding retrieve_game_table
retrieve_game_table-ok table_id w h = rw h

-- What is stored is read back, but for the status.
pub load-write :
    (t : Table) (m : ℕ → Option _)
    → load (write t.id (some (to_data t)) m t.id) ≡ ok (record t { status = GameStatus.waiting })
load-write t m = rw (==_self t.id) (new_table-to_data 0 t)
