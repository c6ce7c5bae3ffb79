-- ===== src/Bridge/Eval.antt =====
-- `qjs_eval` and `qjs_set_global_json` of native/quickjs_bridge.c.
pub mod Balance
pub mod Answers
use quickjs_runtime.Prelude.{Bool, true, false, if◌then◌else◌, Option, none, some, List, [], ◌∷◌}
use mathlib.Core.Option
use quickjs_runtime.Prelude.Int.{ℤ, pos, negsuc, ltb_ℤ}
use quickjs_runtime.Prelude.Texts.{codes}
use quickjs_runtime.Bridge.Engine.{Engine, Text, ◌>>=◌, ◌>>◌, return}

-- The returned string and what `*err_msg` holds afterwards.
pub record Answer : Type 0 where
  pub result : Option Text
  pub err_msg : Option Text

abbrev pub eval_name : Text
eval_name = codes "<eval>"

abbrev pub failed_to_serialize : Text
failed_to_serialize = codes "failed to serialize result to JSON"

abbrev pub failed_to_convert : Text
failed_to_convert = codes "failed to convert JSON to string"

module _ (e : Engine) where
  open e use {
    State, Value, is_exception, get_global_object, get_exception, free_value, json_stringify,
    parse_json, to_c_string, free_c_string, set_property_str, update_stack_top, eval, strdup,
  }

  -- `if (err_msg) *err_msg = strdup(msg);`
  unfoldable pub report : Bool → Text → State → Answer × State
  report wanted msg =
      if wanted
      then (do m ← strdup msg; return (record { result = none; err_msg = m }))
      else return (record { result = none; err_msg = none })

  -- The exception as text, and its string given back.
  unfoldable pub exception_text : Bool → Option Text → State → Answer × State
  exception_text wanted none = return (record { result = none; err_msg = none })
  exception_text wanted (some cstr) = do a ← report wanted cstr; free_c_string cstr; return a

  unfoldable pub eval_failed : Bool → Value → State → Answer × State
  eval_failed wanted val = do
    err ← get_exception
    cstr ← to_c_string err
    a ← exception_text wanted cstr
    free_value err
    free_value val
    return a

  unfoldable pub answer : Bool → Option Text → State → Answer × State
  answer wanted none = report wanted failed_to_convert
  answer wanted (some cstr) = do
    r ← strdup cstr
    free_c_string cstr
    return (record { result = r; err_msg = none })

  unfoldable pub serialize : Bool → Value → State → Answer × State
  serialize wanted val = do
    json ← json_stringify val
    free_value val
    if is_exception json
        then (do free_value json; report wanted failed_to_serialize)
        else (do cstr ← to_c_string json; free_value json; answer wanted cstr)

  -- `wanted` says that the caller passed an `err_msg`; no file name is a NULL `filename`.
  unfoldable pub qjs_eval : Bool → Text → Option Text → State → Answer × State
  qjs_eval wanted code filename = do
    update_stack_top
    val ← eval code (Option.get_or filename eval_name)
    if is_exception val then eval_failed wanted val else serialize wanted val

  unfoldable pub qjs_set_global_json : Text → Text → State → ℤ × State
  qjs_set_global_json name json = do
    val ← parse_json json
    if is_exception val then return (negsuc 0) else (do
      global ← get_global_object
      rc ← set_property_str global name val
      free_value global
      return rc)
