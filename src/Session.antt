-- ===== src/Session.antt =====
-- The sessions that play games (src/session/): clocks, games, and the offers of them.
pub mod Clock
pub mod Verdict
pub mod GameTask
pub mod Agreement
pub mod Random
pub mod GameIds
pub mod Pool
pub mod Ordering
pub mod Matchmaker
pub mod Presets
mod Tests
mod MatchmakerTests
mod PresetsTests
