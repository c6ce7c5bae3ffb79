-- ===== src/Bridge/Dispatch.antt =====
-- `qjs_dispatch` of native/quickjs_bridge.c and its registration, `qjs_register_host_fn`.
pub mod Balance
pub mod Registered
use quickjs_runtime.Prelude.{
  ℕ, ◌+◌, Bool, true, false, if◌then◌else◌, ltb, Option, none, some, List, [], ◌∷◌,
}
use quickjs_runtime.Prelude.Int.{ℤ, pos, negsuc, ltb_ℤ}
use quickjs_runtime.Bridge.Engine.{
  Engine, Text, Message, invalid_host_callback_index, failed_to_marshal_args,
  failed_to_convert_json, host_callback_returned_invalid_json, ◌>>=◌, ◌>>◌, return,
}
use quickjs_runtime.Bridge.Table.{Table, callback_at, reserve, int16}

module _ (e : Engine) where
  open e use {
    State, Value, undefined, is_exception, throw_type_error, new_object, new_array,
    get_global_object, dup_value, free_value, json_stringify, parse_json, to_c_string,
    free_c_string, set_property_uint32, set_property_str, new_function_object, free,
  }

  -- `HostCallback`: the JSON of the arguments to a malloc'd JSON result, or NULL. What else it
  -- does, calls of the bridge included, is in its effect on the state.
  abbrev pub HostCallback : Type 0
  HostCallback = Text → State → Option Text × State

  -- for (i = 0; i < argc; i++) JS_SetPropertyUint32(ctx, arr, i, JS_DupValue(ctx, argv[i]))
  unfoldable pub fill_array : Value → ℕ → List Value → State → Unit {0} × State
  fill_array arr i [] = return tt
  fill_array arr i (v ∷ vs) = do
    d ← dup_value v
    set_property_uint32 arr i d
    fill_array arr (i + 1) vs

  unfoldable pub marshal_args : List Value → State → Value × State
  marshal_args [] = new_object
  marshal_args (v ∷ []) = json_stringify v
  marshal_args (v ∷ w ∷ vs) = do
    arr ← new_array
    fill_array arr 0 (v ∷ w ∷ vs)
    json_val ← json_stringify arr
    free_value arr
    return json_val

  unfoldable pub parse_result : Text → State → Value × State
  parse_result result_json = do
    result ← parse_json result_json
    free result_json
    if is_exception result
        then (do free_value result; throw_type_error host_callback_returned_invalid_json)
        else return result

  unfoldable pub host_result : HostCallback → Text → State → Value × State
  host_result cb args_json = do
    o ← cb args_json
    free_c_string args_json
    elim o [ none ↦ return undefined | some result_json ↦ parse_result result_json ]

  unfoldable pub convert_args : HostCallback → Value → State → Value × State
  convert_args cb json_val = do
    o ← to_c_string json_val
    free_value json_val
    elim o [ none ↦ throw_type_error failed_to_convert_json | some t ↦ host_result cb t ]

  unfoldable pub call_host : HostCallback → List Value → State → Value × State
  call_host cb argv = do
    json_val ← marshal_args argv
    if is_exception json_val
        then (do free_value json_val; throw_type_error failed_to_marshal_args)
        else convert_args cb json_val

  unfoldable pub qjs_dispatch : Table HostCallback → List Value → ℤ → State → Value × State
  qjs_dispatch table argv magic = elim (callback_at table magic) [
    | none ↦ throw_type_error (invalid_host_callback_index magic)
    | some cb ↦ call_host cb argv
  ]

  -- The end of a registration: the function object goes to the global object under its name.
  unfoldable pub define_global : Text → Value → State → ℤ × State
  define_global name fn = if is_exception fn then return (negsuc 0) else do
    global ← get_global_object
    rc ← set_property_str global name fn
    free_value global
    return (if ltb_ℤ rc (pos 0) then negsuc 0 else pos 0)

  unfoldable pub install : Text → Option ℕ → State → ℤ × State
  install name none = return (negsuc 0)
  install name (some idx) = do fn ← new_function_object name (int16 idx); define_global name fn

  -- The registration of one thread alone; `Race` has the interleavings.
  unfoldable pub qjs_register_host_fn :
      Text → HostCallback → Table HostCallback × State → ℤ × Table HostCallback × State
  qjs_register_host_fn name cb (table, s) =
      let r = reserve cb table in let (rc, s') = install name r.0 s in (rc, r.1, s')
