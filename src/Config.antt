-- ===== src/Config.antt =====
-- The configuration (src/config/): what its types check beyond the file format.
pub mod PresetEngines
pub mod Timestamp
mod Tests
