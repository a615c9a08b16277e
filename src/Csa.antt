-- ===== src/Csa.antt =====
-- The text that the protocol is written in (src/csa/).
pub mod Notation
pub mod Codec
pub mod Command
mod Tests
mod CommandTests
