-- ===== src/SnakesLadders.antt =====
-- apps/sl-gameplay: the snakes and ladders game.
pub mod Types
pub mod Pawn
pub mod Table
pub mod Gameplay
pub mod Matching
mod Tests
