-- ===== src/Bridge.antt =====
-- native/quickjs_bridge.c, the C bridge between QuickJS and dart:ffi.
pub mod Engine
pub mod Table
pub mod Dispatch
pub mod Ledger
pub mod Eval
pub mod Bytes
pub mod Race
pub mod Jobs
pub mod Sleep
