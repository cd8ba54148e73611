-- ===== src/Examples.antt =====
-- Runs of the definitions on concrete inputs.
pub mod Formats
pub mod Images
pub mod Reads
pub mod Flash
pub mod Saves
pub mod Cards
