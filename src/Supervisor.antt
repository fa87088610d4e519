-- ===== src/Supervisor.antt =====
-- The supervisor of the modules (internal/supervisor).
pub mod Ids
pub mod Cycles
pub mod Graph
pub mod Window
pub mod Runner
pub mod Control
pub mod Stopping
pub mod Retries
pub mod Reloading
pub mod Probing
pub mod Ending
pub mod Interleaving
pub mod Tests
