-- ===== src/Unicode.antt =====
-- native/quickjs/libunicode.c and libunicode.h: sets of code points.
pub mod CharRange
pub mod Lookup
