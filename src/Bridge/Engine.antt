-- ===== src/Bridge/Engine.antt =====
-- What native/quickjs_bridge.c calls of the QuickJS API and of the C library: operations on an
-- abstract state (heap, pending exception, call stack), as a parameter of the bridge's model.
use quickjs_runtime.Prelude.{ℕ, Bool, Option, List}
use quickjs_runtime.Prelude.Int.{ℤ}

-- A C string without its terminator, as bytes.
abbrev pub Text : Type 0
Text = List ℕ

-- Stateful code: the result and the new state.
infixl 5 ◌>>=◌ ◌>>◌
abbrev pub ◌>>=◌ : {S A B : Type 0} → (S → A × S) → (A → S → B × S) → S → B × S
◌>>=◌ m f s = f (m s).0 (m s).1

abbrev pub ◌>>◌ : {S A B : Type 0} → (S → A × S) → (S → B × S) → S → B × S
◌>>◌ m k s = k (m s).1

abbrev pub return : {S A : Type 0} → A → S → A × S
return a s = (a, s)

-- `format` strings of `JS_ThrowTypeError` with their `%d` arguments are kept apart: the engine
-- does the formatting.
pub data Message : Type 0 where
  invalid_host_callback_index : ℤ → Message
  failed_to_marshal_args : Message
  failed_to_convert_json : Message
  host_callback_returned_invalid_json : Message
  invalid_bytes_callback_index : ℤ → Message
  expected_name_and_typed_array : Message
  second_argument_must_be_a_typed_array : Message
  typed_array_has_no_backing_buffer : Message
  typed_array_range_out_of_bounds : Message
  failed_to_convert_name : Message

-- `Value` is `JSValue`; an exception is a value, the error itself being part of the state.
pub record Engine : Type 1 where
  pub State : Type 0
  pub Value : Type 0
  pub undefined : Value
  pub is_exception : Value → Bool
  pub is_string : Value → Bool
  pub throw_type_error : Message → State → Value × State
  pub new_object : State → Value × State
  pub new_array : State → Value × State
  pub get_global_object : State → Value × State
  pub get_exception : State → Value × State
  pub dup_value : Value → State → Value × State
  pub free_value : Value → State → Unit {0} × State
  pub json_stringify : Value → State → Value × State
  pub parse_json : Text → State → Value × State
  pub to_c_string : Value → State → Option Text × State
  pub free_c_string : Text → State → Unit {0} × State
  -- The buffer of a typed array with the view's offset and length, or an exception.
  pub get_typed_array_buffer : Value → State → (Value × ℕ × ℕ) × State
  -- The address and the size of an array buffer; `none` is NULL.
  pub get_array_buffer : Value → State → Option (ℕ × ℕ) × State
  pub set_property_uint32 : Value → ℕ → Value → State → ℤ × State
  pub set_property_str : Value → Text → Value → State → ℤ × State
  -- `JS_NewCFunction2` with the magic number that the function object keeps.
  pub new_function_object : Text → ℤ → State → Value × State
  pub update_stack_top : State → Unit {0} × State
  -- The result is the `rc` of `JS_ExecutePendingJob`. The context that it also stores is left out:
  -- the pending exception belongs to the runtime.
  pub execute_pending_job : State → ℤ × State
  pub eval : Text → Text → State → Value × State
  pub strdup : Text → State → Option Text × State
  pub free : Text → State → Unit {0} × State
  pub print_error : Text → State → Unit {0} × State
