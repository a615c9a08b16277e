-- ===== src/Game/Legality.antt =====
-- src/game/legality.rs: move validation and application.
pub mod Movement
pub mod Apply
pub mod Inversion
pub mod Effects
pub mod Geometry
pub mod Reaching
pub mod Replies
pub mod Mate
