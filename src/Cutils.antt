-- ===== src/Cutils.antt =====
-- native/quickjs/cutils.c and cutils.h, the C utilities of the engine.
pub mod Utf8
pub mod DynBuf
pub mod CString
pub mod LinkedList
