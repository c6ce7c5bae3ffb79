-- ===== src/Bridge/Bytes.antt =====
-- `qjs_bytes_dispatch` and `qjs_register_bytes_fn` of native/quickjs_bridge.c: the lane that hands
-- the host an address and a length.
pub mod Window
pub mod Balance
use quickjs_runtime.Prelude.{
  ℕ, ◌+◌, ◌-◌, Bool, true, false, not, ◌||◌, if◌then◌else◌, ltb, Option, none, some, List, [], ◌∷◌,
}
use quickjs_runtime.Prelude.Int.{ℤ}
use quickjs_runtime.Bridge.Engine.{
  Engine, Text, invalid_bytes_callback_index, expected_name_and_typed_array,
  second_argument_must_be_a_typed_array, typed_array_has_no_backing_buffer,
  typed_array_range_out_of_bounds, failed_to_convert_name, ◌>>=◌, ◌>>◌, return,
}
use quickjs_runtime.Bridge.Table.{Table, callback_at, reserve}
use quickjs_runtime.Bridge.Dispatch.{install}

-- `offset > absize || length > absize - offset`, on `size_t`s: the second test is made only where
-- the subtraction does not wrap.
unfoldable pub out_of_bounds : ℕ → ℕ → ℕ → Bool
out_of_bounds offset length absize = ltb absize offset || ltb (absize - offset) length

module _ (e : Engine) where
  open e use {
    State, Value, undefined, is_exception, is_string, throw_type_error, free_value, to_c_string,
    free_c_string, get_typed_array_buffer, get_array_buffer,
  }

  -- `BytesHostCallback`: a name, an address and a length.
  abbrev pub BytesHostCallback : Type 0
  BytesHostCallback = Text → ℕ → ℕ → State → Unit {0} × State

  unfoldable pub call_bytes : BytesHostCallback → Option Text → ℕ → ℕ → State → Value × State
  call_bytes cb none address length = throw_type_error failed_to_convert_name
  call_bytes cb (some name) address length = do
    cb name address length
    free_c_string name
    return undefined

  -- From the call of `JS_GetArrayBuffer` on.
  unfoldable pub with_buffer :
      BytesHostCallback → Value → ℕ → ℕ → Option (ℕ × ℕ) → State → Value × State
  with_buffer cb name_arg offset length none = throw_type_error typed_array_has_no_backing_buffer
  with_buffer cb name_arg offset length (some (ptr, absize)) =
      if out_of_bounds offset length absize
      then throw_type_error typed_array_range_out_of_bounds
      else (do name ← to_c_string name_arg; call_bytes cb name (ptr + offset) length)

  unfoldable pub with_view : BytesHostCallback → Value → Value → State → Value × State
  with_view cb name_arg view = do
    t ← get_typed_array_buffer view
    if is_exception t.0 then throw_type_error second_argument_must_be_a_typed_array else (do
      found ← get_array_buffer t.0
      free_value t.0
      with_buffer cb name_arg t.1 t.2 found)

  unfoldable pub with_args : BytesHostCallback → List Value → State → Value × State
  with_args cb [] = throw_type_error expected_name_and_typed_array
  with_args cb (n ∷ []) = throw_type_error expected_name_and_typed_array
  with_args cb (n ∷ view ∷ more) =
      if not (is_string n)
      then throw_type_error expected_name_and_typed_array
      else with_view cb n view

  unfoldable pub qjs_bytes_dispatch :
      Table BytesHostCallback → List Value → ℤ → State → Value × State
  qjs_bytes_dispatch table argv magic = elim (callback_at table magic) [
    | none ↦ throw_type_error (invalid_bytes_callback_index magic)
    | some cb ↦ with_args cb argv
  ]

  unfoldable pub qjs_register_bytes_fn :
      Text
      → BytesHostCallback
      → Table BytesHostCallback × State
      → ℤ × Table BytesHostCallback × State
  qjs_register_bytes_fn name cb (table, s) =
      let r = reserve cb table in let (rc, s') = install e name r.0 s in (rc, r.1, s')
