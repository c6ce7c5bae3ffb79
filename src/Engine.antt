-- ===== src/Engine.antt =====
-- Routines of native/quickjs/quickjs.c.
pub mod Leb128
pub mod LineTable
pub mod Map
pub mod JobQueue
pub mod Date
pub mod Promise
