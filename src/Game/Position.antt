-- ===== src/Game/Position.antt =====
-- src/game/position.rs: a position and the values it is built from.
pub mod Pieces
pub mod Hands
pub mod Board
