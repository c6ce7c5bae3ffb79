-- ===== src/Bridge/Bytes/Balance.antt =====
-- Ownership in `qjs_bytes_dispatch`.
use quickjs_runtime.Prelude.{
  ℕ, ◌+◌, ◌≤◌, ◌≡◌, List, [], ◌∷◌, Option, none, some, inl, inr, arith, Option-cases,
}
use quickjs_runtime.Prelude.Int.{ℤ}
use quickjs_runtime.Bridge.Engine.{
  Engine, Text, invalid_bytes_callback_index, expected_name_and_typed_array,
  second_argument_must_be_a_typed_array, typed_array_has_no_backing_buffer,
  typed_array_range_out_of_bounds, failed_to_convert_name,
}
use quickjs_runtime.Bridge.Ledger.{Ledger, Resource, value_cost, c_string_cost}
use quickjs_runtime.Bridge.Ledger.Failure.{
  undefined_free, exception_free, throw-held, no_string_cost,
}
use quickjs_runtime.Bridge.Table.{Table, callback_at}
use quickjs_runtime.Bridge.Bytes.{
  BytesHostCallback, call_bytes, with_buffer, with_view, with_args, qjs_bytes_dispatch,
}

-- A bytes callback that leaves nothing to give back.
pub record IsFair (e : Engine) (l : Ledger e) (cb : BytesHostCallback e) : Type 0 where
  pub keeps :
      (k : Resource) (t : Text) (address length : ℕ) (s : e.State)
      → l.held k (cb t address length s).1 ≡ l.held k s

module _ (e : Engine) (l : Ledger e) (k : Resource) where
  open e use {State, Value}
  open l use {held, refs}

  module _ (cb : BytesHostCallback e) (fair : IsFair e l cb) where
    call_bytes-held :
        (o : Option Text) (address length : ℕ) (s : State)
        → c_string_cost k o ≤ held k s
        → held k (call_bytes e cb o address length s).1 + c_string_cost k o
          ≡ held k s + value_cost k (refs (call_bytes e cb o address length s).0)
    unfolding call_bytes
    call_bytes-held none address length s h =
        omega (arith, throw-held e l k failed_to_convert_name s, no_string_cost k)
    call_bytes-held (some t) address length s h =
        let c = cb t address length s in
        omega (
          arith,
          fair.keeps k t address length s,
          l.free_c_string_held k t c.1,
          undefined_free e l k,
        )

    with_buffer-held :
        (n : Value) (offset length : ℕ) (o : Option (ℕ × ℕ)) (s : State)
        → held k (with_buffer e cb n offset length o s).1
          ≡ held k s + value_cost k (refs (with_buffer e cb n offset length o s).0)
    unfolding with_buffer
    with_buffer-held n offset length none s = throw-held e l k typed_array_has_no_backing_buffer s
    with_buffer-held n offset length (some (ptr, absize)) s =
        let c = e.to_c_string n s in
        ground (
          arith,
          throw-held e l k typed_array_range_out_of_bounds s,
          l.to_c_string_held k n s,
          call_bytes-held c.0 (ptr + offset) length c.1,
        )

    with_view-held :
        (n view : Value) (s : State)
        → held k (with_view e cb n view s).1
          ≡ held k s + value_cost k (refs (with_view e cb n view s).0)
    unfolding with_view
    with_view-held n view s =
        let t = e.get_typed_array_buffer view s in
        let b = e.get_array_buffer t.0.0 t.1 in
        let f = e.free_value t.0.0 b.1 in
        ground (
          arith,
          l.typed_array_held k view s,
          exception_free e l k t.0.0,
          throw-held e l k second_argument_must_be_a_typed_array t.1,
          l.array_buffer_held k t.0.0 t.1,
          l.free_value_held k t.0.0 b.1,
          with_buffer-held n t.0.1 t.0.2 b.0 f.1,
        )

    with_args-held :
        (argv : List Value) (s : State)
        → held k (with_args e cb argv s).1
          ≡ held k s + value_cost k (refs (with_args e cb argv s).0)
    unfolding with_args
    with_args-held [] s = throw-held e l k expected_name_and_typed_array s
    with_args-held (n ∷ []) s = throw-held e l k expected_name_and_typed_array s
    with_args-held (n ∷ view ∷ more) s =
        ground (arith, throw-held e l k expected_name_and_typed_array s, with_view-held n view s)

  -- A bytes dispatch from any table of fair callbacks, on any path: all that is left is the
  -- reference of the value that it returns, and nothing for an exception or `undefined`.
  pub qjs_bytes_dispatch-held :
      (table : Table (BytesHostCallback e)) (argv : List Value) (magic : ℤ) (s : State)
      → ((cb : BytesHostCallback e) → callback_at table magic ≡ some cb → IsFair e l cb)
      → held k (qjs_bytes_dispatch e table argv magic s).1
        ≡ held k s + value_cost k (refs (qjs_bytes_dispatch e table argv magic s).0)
  unfolding qjs_bytes_dispatch
  qjs_bytes_dispatch-held table argv magic s fair = elim (Option-cases (callback_at table magic)) [
    | inl n ↦ rw (n, qjs_bytes_dispatch) (throw-held e l k (invalid_bytes_callback_index magic) s)
    | inr (cb, n) ↦ rw (n, qjs_bytes_dispatch) (with_args-held cb (fair cb n) argv s)
  ]
