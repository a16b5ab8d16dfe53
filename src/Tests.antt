-- ===== src/Tests.antt =====
-- Runs of the model on concrete inputs.
pub mod Head
pub mod Body
pub mod Patterns
pub mod Routes
pub mod RootHead
pub mod Helpers
