-- ===== src/Examples.antt =====
-- Runs of the model on concrete inputs, and the theorems applied to them.
pub mod Worker
pub mod Todos
pub mod Values
pub mod Settings
pub mod Hook
pub mod Retention
pub mod Replay
pub mod Projects
pub mod Claims
pub mod Proposals
pub mod Creations
