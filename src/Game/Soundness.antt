-- ===== src/Game/Soundness.antt =====
-- What holds of every position that legal moves lead to (src/game/legality.rs).
pub mod Defs
pub mod Moves
pub mod Pawns
pub mod Kings
pub mod Reached
pub mod Totals
pub mod Material
