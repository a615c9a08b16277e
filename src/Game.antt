-- ===== src/Game.antt =====
-- The rules (src/game.rs and src/game/): positions, moves, and how a game ends.
pub mod Position
pub mod Legality
pub mod Soundness
pub mod Repetition
pub mod Declaration
pub mod StartSpec
pub mod Termination
pub mod Example
mod Tests
mod RepetitionTests
