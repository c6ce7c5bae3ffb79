-- ===== src/Bridge/Dispatch/Registered.antt =====
-- A registration followed by calls of the function that it defined.
use quickjs_runtime.Prelude.{
  ℕ, ◌-◌, ◌≤◌, ◌<◌, ◌≡◌, refl, false, List, Option, none, some, dec_lt, inl, inr, arith, ◌+◌,
}
use quickjs_runtime.Prelude.Int.{ℤ, pos, negsuc, ltb_ℤ}
use quickjs_runtime.Bridge.Engine.{Engine, Text, invalid_host_callback_index}
use quickjs_runtime.Bridge.Ledger.{Ledger, Resource, value_cost}
use quickjs_runtime.Bridge.Ledger.Failure.{exception_free}
use quickjs_runtime.Bridge.Table.{Table, max_host_fns, callback_at, reserve, int16}
use quickjs_runtime.Bridge.Table.Laws.{int16-cases, reserve_lem, reserve_full}
use quickjs_runtime.Bridge.Dispatch.{
  HostCallback, qjs_dispatch, define_global, install, qjs_register_host_fn,
}

module _ (e : Engine) where
  open e use {State, Value, throw_type_error}

  -- The table after a registration.
  abbrev pub table_after :
      Text → HostCallback e → Table (HostCallback e) → State → Table (HostCallback e)
  table_after name cb table s = (qjs_register_host_fn e name cb (table, s)).1

  dispatch-missing :
      (t : Table (HostCallback e)) (argv : List Value) (magic : ℤ) (s : State)
      → callback_at t magic ≡ none
      → qjs_dispatch e t argv magic s ≡ throw_type_error (invalid_host_callback_index magic) s
  unfolding qjs_dispatch
  dispatch-missing t argv magic s h = rw (h, qjs_dispatch)

  module _ (name : Text) (cb : HostCallback e) (table : Table (HostCallback e)) (s : State) where
    -- The function object that the engine makes for an index, and the global property with it.
    abbrev pub made : ℕ → Value × State
    made i = e.new_function_object name (int16 i) s

    abbrev pub set_global : ℕ → ℤ × State
    set_global i =
        let global = e.get_global_object (made i).1 in
        e.set_property_str global.0 name (made i).0 global.1

    table_after-eq : table_after name cb table s ≡ (reserve cb table).1
    unfolding qjs_register_host_fn
    table_after-eq = refl

    -- The functions registered before it are found as they were.
    pub qjs_register_host_fn-others :
        (j : ℕ)
        → j < table.count
        → callback_at (table_after name cb table s) (pos j) ≡ callback_at table (pos j)
    qjs_register_host_fn-others j h = elim (dec_lt table.count max_host_fns) [
      | yes room ↦ rw table_after-eq ((reserve_lem cb table room).2 j h)
      | no full ↦ rw (table_after-eq, reserve_full cb table (omega arith))
    ]

    -- Behind 2 ^ 15 functions, in a table that is not full, where the engine makes the function
    -- object and sets the global property: the registration returns 0, but the function can never
    -- be called. The stored magic number is negative, and every call throws, whatever table it
    -- meets.
    pub qjs_dispatch-unreachable :
        (later : Table (HostCallback e)) (argv : List Value) (s' : State)
        → 32768 ≤ table.count
        → table.count < max_host_fns
        → e.is_exception (made table.count).0 ≡ false
        → ltb_ℤ (set_global table.count).0 (pos 0) ≡ false
        → ((qjs_register_host_fn e name cb (table, s)).0 ≡ pos 0)
          × (qjs_dispatch e later argv (int16 table.count) s'
              ≡ throw_type_error (invalid_host_callback_index (negsuc (65535 - table.count))) s')
    unfolding qjs_register_host_fn callback_at install define_global
    qjs_dispatch-unreachable later argv s' h lt made_well set_well =
        let found = reserve_lem cb table lt in
        (
          rw (found.0, made_well, set_well) refl,
          elim (int16-cases table.count lt) [
            | inl (low, x) ↦ absurd (omega arith)
            | inr (high, x) ↦ rw x (dispatch-missing later argv _ s' refl)
          ],
        )

    -- A full table refuses: -1, with nothing changed.
    pub qjs_register_host_fn-full :
        max_host_fns ≤ table.count
        → qjs_register_host_fn e name cb (table, s) ≡ (negsuc 0, table, s)
    unfolding qjs_register_host_fn install
    qjs_register_host_fn-full h = rw (reserve_full cb table h)

  module _ (l : Ledger e) (k : Resource) where
    open l use {held, refs}

    define_global-held :
        (name : Text) (fn : Value) (s : State)
        → value_cost k (refs fn) ≤ held k s
        → held k (define_global e name fn s).1 + value_cost k (refs fn) ≡ held k s
    unfolding define_global
    define_global-held name fn s h =
        let g = e.get_global_object s in
        let p = e.set_property_str g.0 name fn g.1 in
        ground (
          arith,
          exception_free e l k fn,
          l.get_global_held k s,
          l.set_str_held k g.0 name fn g.1,
          l.free_value_held k g.0 p.1,
        )

    install-held :
        (name : Text) (o : Option ℕ) (s : State) → held k (install e name o s).1 ≡ held k s
    unfolding install
    install-held name none s = refl
    install-held name (some i) s =
        let f = e.new_function_object name (int16 i) s in
        omega (arith, l.new_function_held k name (int16 i) s, define_global-held name f.0 f.1)

    -- A registration leaves nothing of the engine's to give back, whether it succeeds or fails.
    pub qjs_register_host_fn-held :
        (name : Text) (cb : HostCallback e) (table : Table (HostCallback e)) (s : State)
        → held k (qjs_register_host_fn e name cb (table, s)).2 ≡ held k s
    unfolding qjs_register_host_fn
    qjs_register_host_fn-held name cb table s = install-held name (reserve cb table).0 s
