-- ===== src/Lib.antt =====
-- A model of the native side of quickjs_runtime: the C bridge between the QuickJS engine and
-- dart:ffi, native/quickjs_bridge.c, and routines of the engine sources that are compiled with it.
--
-- The bridge (Bridge). JavaScript calls a registered host function; `qjs_dispatch` finds its
-- callback in a process-global table, marshals the arguments to JSON, calls the host and parses
-- what it returns. `qjs_eval` runs a script and answers with JSON or an error text;
-- `qjs_execute_pending_jobs` and its capped variant drain the engine's job queue; `qjs_sleep_ms`
-- blocks the thread; `qjs_bytes_dispatch` hands the host an address and a length.
--
--   Bridge/Engine    the QuickJS and C library calls that the bridge makes, on an abstract state:
--                    a parameter of the whole model. A call is a function from the state to its
--                    result and the new state; a `JSValue` is abstract, an exception is a value.
--   Bridge/Ledger    what the API documentation says of ownership, as named laws: who has to free
--                    a value, a C string, a malloc'd block. Examples/SmallEngine meets them all.
--   Bridge/Table     `g_callbacks` and `g_callback_count` (and their bytes twins), and the
--                    conversion of an index to the `int16_t` that a function object keeps.
--   Bridge/Dispatch  `qjs_dispatch`, `qjs_register_host_fn`. Balance: ownership on every path.
--                    Registered: a registration followed by calls.
--   Bridge/Race      registrations by parallel isolates as a step relation: one step for each
--                    access to the shared table (check, fetch-and-add, store).
--   Bridge/Eval      `qjs_eval`, `qjs_set_global_json`.
--   Bridge/Jobs      the two drains. The uncapped loop is on fuel, where `none` means that the fuel
--                    ran out; the capped one is given max(1, max_jobs), which always suffices.
--   Bridge/Sleep     `qjs_sleep_ms`, POSIX branch, against a list of interrupting signals.
--   Bridge/Bytes     `qjs_bytes_dispatch`, `qjs_register_bytes_fn`. Window: the memory that a
--                    callback may see.
--
-- C's `int` results and the magic number are integers (Prelude/Int); counts and sizes are natural
-- numbers. The bridge's `int executed` and the table's counter are unbounded here: 2^31 jobs or
-- registrations would be needed to overflow them. `qjs_create_runtime`, `qjs_create_context` and
-- `qjs_destroy` forward to the engine and `qjs_reset_callbacks` is empty; they are left out, as
-- is the Windows branch of the sleep.
--
-- The C utilities (Cutils), native/quickjs/cutils.c and list.h.
--
--   Cutils/Utf8      `unicode_to_utf8`, `unicode_from_utf8`. A read past the end of the input is
--                    the outcome `fault`.
--   Cutils/CString   `pstrcpy`, `pstrcat`, `strstart`, `has_suffix`.
--   Cutils/DynBuf    the growing byte buffer: its block, size and error mark, for an allocator that
--                    may refuse. A `memcpy` that leaves the block is the outcome `fault`. What
--                    vsnprintf makes is a parameter of `dbuf_printf`: a text, of less than 2^31
--                    bytes, or a negative result.
--   Cutils/LinkedList  the circular lists of native/quickjs/list.h, on a heap of two words for
--                    each address. Ring: the list of addresses that a ring stands for.
--
-- Routines of the engine (Engine), native/quickjs/quickjs.c.
--
--   Engine/Leb128    `dbuf_put_leb128`, `get_leb128` and the signed ones, five rounds of fuel,
--                    which a 32-bit number never exceeds.
--   Engine/LineTable  the slots that `resolve_labels` collects, `compute_pc2line_info` and
--                    `find_line_num`. Collect: the slots. RoundTrip: the table, written and searched,
--                    on as much fuel as the table has bytes. Lines are integers without bound.
--   Engine/Map       `Map` and `Set`: the hash table with its growth, the records in the order of their
--                    insertion, set, get, has, delete, clear and
--                    `js_map_iterator_next`. Entries: a map as a list of entries.
--                    Invariant: well-formed maps, and the laws of keys, which are a parameter.
--                    Hashing: the engine's keys, `js_same_value_zero` (a case of `js_strict_eq2`),
--                    `map_hash_key` and `map_normalize_key`, big numbers left out and doubles a
--                    parameter. The laws are for keys that are not doubles: an int and the double
--                    of its value are one key with two hashes. A record is a number
--                    in a store; the links of list.h are lists, and a failed assertion of
--                    `map_decref_record` is no result.
--   Engine/JobQueue  `JS_EnqueueJob`, `JS_IsJobPending`, `JS_ExecutePendingJob`: the queue that the
--                    bridge drains, as a first-in, first-out list.
--   Engine/Date      the calendar, `math_mod` to `set_date_fields`: two rounds of fuel for
--                    `year_from_days`, which no year exceeds. Times are integers without bound; a
--                    time value is at most 8.64e15 and stays far below 2^63 on the way. RoundTrip:
--                    fields and back.
--   Engine/Promise   the promises: data, resolving functions, `promise_reaction_job`,
--                    `js_promise_resolve_thenable_job`, the constructor and `perform_promise_then`,
--                    on a store of promises, a store of `already_resolved` marks and the queue of
--                    jobs. Calls of JavaScript functions, the property `then` and the rejection
--                    tracker are a parameter, with laws where a theorem needs them; requests of
--                    memory are counted, and `grants` says which are met: one request stands for
--                    all that a call of the C code asks for, and it is met when all of those are. Reference counts are left
--                    out, and a job stands for its function and arguments.
--
-- Sets of code points (Unicode), native/quickjs/libunicode.c and libunicode.h.
--
--   Unicode/CharRange  `CharRange` and the set operations `cr_op`, `cr_union1`, `cr_invert`. The loop
--                    of `cr_op` is on fuel, of which one more than the number of points is enough.
--                    Cover: which code points a list of points stands for. C's `int` sizes are
--                    unbounded: a set has less than 2^31 points.
--   Unicode/Lookup   `get_index_pos`, the search in the index of a compressed table, on as much fuel
--                    as the table has entries.
--
-- Not modelled: the rest of the engine, and the Dart sources under lib/.
pub mod Bridge
pub mod Cutils
pub mod Engine
pub mod Examples
pub mod Prelude
pub mod Unicode
