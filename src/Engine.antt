-- ===== src/Engine.antt =====
-- miniserve/engine.py.
pub mod State
pub mod Loop
pub mod Tickets
pub mod Callbacks
pub mod Contract
pub mod Serving
pub mod Shutdown
pub mod Life
