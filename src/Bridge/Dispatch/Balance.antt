-- ===== src/Bridge/Dispatch/Balance.antt =====
-- Ownership in `qjs_dispatch`: whatever it takes of the engine and of the host it gives back.
use quickjs_runtime.Prelude.{
  ℕ, ◌+◌, ◌≤◌, ◌≡◌, refl, List, [], ◌∷◌, some, inl, inr, arith, Option-cases,
}
use quickjs_runtime.Prelude.Int.{ℤ}
use quickjs_runtime.Bridge.Engine.{
  Engine, Text, invalid_host_callback_index, failed_to_marshal_args, failed_to_convert_json,
  host_callback_returned_invalid_json,
}
use quickjs_runtime.Bridge.Ledger.{Ledger, Resource, value_cost, block_cost, c_string_cost}
use quickjs_runtime.Bridge.Ledger.Failure.{
  undefined_free, exception_free, free_exception-held, throw-held,
}
use quickjs_runtime.Bridge.Table.{Table, callback_at}
use quickjs_runtime.Bridge.Dispatch.{
  HostCallback, fill_array, marshal_args, parse_result, host_result, convert_args, call_host,
  qjs_dispatch,
}

-- A host callback that keeps to the protocol: it leaves nothing but the block that it returns.
pub record IsFair (e : Engine) (l : Ledger e) (cb : HostCallback e) : Type 0 where
  pub keeps :
      (k : Resource) (t : Text) (s : e.State)
      → l.held k (cb t s).1 ≡ l.held k s + block_cost k (cb t s).0

module _ (e : Engine) (l : Ledger e) (k : Resource) where
  open e use {State, Value}
  open l use {held, refs}

  fill_array-held :
      (arr : Value) (i : ℕ) (vs : List Value) (s : State)
      → held k (fill_array e arr i vs s).1 ≡ held k s
  unfolding fill_array
  fill_array-held arr i [] s = refl
  fill_array-held arr i (v ∷ vs) s =
      let d = e.dup_value v s in
      let p = e.set_property_uint32 arr i d.0 d.1 in
      ground (
        arith,
        l.dup_held k v s,
        l.set_uint32_held k arr i d.0 d.1,
        fill_array-held arr (i + 1) vs p.1,
      )

  marshal_args-held :
      (argv : List Value) (s : State)
      → held k (marshal_args e argv s).1 ≡ held k s + value_cost k (refs (marshal_args e argv s).0)
  unfolding marshal_args
  marshal_args-held [] s = l.new_object_held k s
  marshal_args-held (v ∷ []) s = l.stringify_held k v s
  marshal_args-held (v ∷ w ∷ vs) s =
      let a = e.new_array s in
      let f = fill_array e a.0 0 (v ∷ w ∷ vs) a.1 in
      let j = e.json_stringify a.0 f.1 in
      omega (
        arith,
        l.new_array_held k s,
        fill_array-held a.0 0 (v ∷ w ∷ vs) a.1,
        l.stringify_held k a.0 f.1,
        l.free_value_held k a.0 j.1,
      )

  parse_result-held :
      (t : Text) (s : State)
      → block_cost k (some t) ≤ held k s
      → held k (parse_result e t s).1 + block_cost k (some t)
        ≡ held k s + value_cost k (refs (parse_result e t s).0)
  unfolding parse_result
  parse_result-held t s h =
      let p = e.parse_json t s in
      let f = e.free t p.1 in
      let g = e.free_value p.0 f.1 in
      ground (
        arith,
        l.parse_held k t s,
        l.free_held k t p.1,
        exception_free e l k p.0,
        free_exception-held e l k p.0 f.1,
        throw-held e l k host_callback_returned_invalid_json g.1,
      )

  host_result-held :
      (cb : HostCallback e) (t : Text) (s : State)
      → IsFair e l cb
      → c_string_cost k (some t) ≤ held k s
      → held k (host_result e cb t s).1 + c_string_cost k (some t)
        ≡ held k s + value_cost k (refs (host_result e cb t s).0)
  unfolding host_result
  host_result-held cb t s fair h =
      let c = cb t s in
      let f = e.free_c_string t c.1 in
      let back = l.free_c_string_held k t c.1 in
      elim (Option-cases c.0) [
        | inl n ↦ ground (arith, fair.keeps k t s, back, undefined_free e l k)
        | inr (r, n) ↦ ground (arith, fair.keeps k t s, back, parse_result-held r f.1)
      ]

  convert_args-held :
      (cb : HostCallback e) (v : Value) (s : State)
      → IsFair e l cb
      → value_cost k (refs v) ≤ held k s
      → held k (convert_args e cb v s).1 + value_cost k (refs v)
        ≡ held k s + value_cost k (refs (convert_args e cb v s).0)
  unfolding convert_args
  convert_args-held cb v s fair h =
      let c = e.to_c_string v s in
      let f = e.free_value v c.1 in
      let text = l.to_c_string_held k v s in
      let back = l.free_value_held k v c.1 in
      elim (Option-cases c.0) [
        | inl n ↦ ground (arith, text, back, throw-held e l k failed_to_convert_json f.1)
        | inr (t, n) ↦ ground (arith, text, back, host_result-held cb t f.1 fair)
      ]

  call_host-held :
      (cb : HostCallback e) (argv : List Value) (s : State)
      → IsFair e l cb
      → held k (call_host e cb argv s).1 ≡ held k s + value_cost k (refs (call_host e cb argv s).0)
  unfolding call_host
  call_host-held cb argv s fair =
      let m = marshal_args e argv s in
      let g = e.free_value m.0 m.1 in
      ground (
        arith,
        marshal_args-held argv s,
        exception_free e l k m.0,
        free_exception-held e l k m.0 m.1,
        throw-held e l k failed_to_marshal_args g.1,
        convert_args-held cb m.0 m.1 fair,
      )

  -- A dispatch from any table of fair callbacks, on any path: all that is left is the reference
  -- of the value that it returns, and nothing for an exception or `undefined`.
  pub qjs_dispatch-held :
      (table : Table (HostCallback e)) (argv : List Value) (magic : ℤ) (s : State)
      → ((cb : HostCallback e) → callback_at table magic ≡ some cb → IsFair e l cb)
      → held k (qjs_dispatch e table argv magic s).1
        ≡ held k s + value_cost k (refs (qjs_dispatch e table argv magic s).0)
  unfolding qjs_dispatch
  qjs_dispatch-held table argv magic s fair = elim (Option-cases (callback_at table magic)) [
    | inl n ↦ rw (n, qjs_dispatch) (throw-held e l k (invalid_host_callback_index magic) s)
    | inr (cb, n) ↦ rw (n, qjs_dispatch) (call_host-held cb argv s (fair cb n))
  ]
