-- ===== src/Bridge/Ledger.antt =====
-- What the QuickJS and C library documentation says of ownership: a value that an API call returns
-- is freed by the caller, one that goes to `JS_SetProperty*` is consumed, a string of
-- `JS_ToCString` is given back by `JS_FreeCString`, a malloc'd block by `free`.
pub mod Failure
use quickjs_runtime.Prelude.{ℕ, ◌+◌, ◌≤◌, ◌≡◌, Bool, true, Option, none, some}
use quickjs_runtime.Prelude.Int.{ℤ}
use quickjs_runtime.Bridge.Engine.{Engine, Text, Message}

pub data Resource : Type 0 where
  reference c_string block : Resource

-- What each kind of thing weighs in the count of one kind of resource.
abbrev pub value_cost : Resource → ℕ → ℕ
value_cost reference n = n
value_cost _ n = 0

abbrev pub c_string_cost : Resource → Option Text → ℕ
c_string_cost c_string (some t) = 1
c_string_cost _ _ = 0

abbrev pub block_cost : Resource → Option Text → ℕ
block_cost block (some t) = 1
block_cost _ _ = 0

-- `held k` counts the resources of kind `k` that callers of the API have to give back; `refs v` is
-- 1 for a value with a reference count and 0 for others, exceptions among them.
pub record Ledger (e : Engine) : Type 0 where
  pub held : Resource → e.State → ℕ
  pub refs : e.Value → ℕ
  pub refs_undefined : refs e.undefined ≡ 0
  pub refs_exception : (v : e.Value) → e.is_exception v ≡ true → refs v ≡ 0
  pub throw_held :
      (k : Resource) (m : Message) (s : e.State)
      → (held k (e.throw_type_error m s).1 ≡ held k s)
        × (e.is_exception (e.throw_type_error m s).0 ≡ true)
  pub new_object_held :
      (k : Resource) (s : e.State)
      → held k (e.new_object s).1 ≡ held k s + value_cost k (refs (e.new_object s).0)
  pub new_array_held :
      (k : Resource) (s : e.State)
      → held k (e.new_array s).1 ≡ held k s + value_cost k (refs (e.new_array s).0)
  pub get_global_held :
      (k : Resource) (s : e.State)
      → held k (e.get_global_object s).1 ≡ held k s + value_cost k (refs (e.get_global_object s).0)
  pub get_exception_held :
      (k : Resource) (s : e.State)
      → held k (e.get_exception s).1 ≡ held k s + value_cost k (refs (e.get_exception s).0)
  pub dup_held :
      (k : Resource) (v : e.Value) (s : e.State)
      → (held k (e.dup_value v s).1 ≡ held k s + value_cost k (refs v))
        × (refs (e.dup_value v s).0 ≡ refs v)
  pub free_value_held :
      (k : Resource) (v : e.Value) (s : e.State)
      → value_cost k (refs v) ≤ held k s
      → held k (e.free_value v s).1 + value_cost k (refs v) ≡ held k s
  pub stringify_held :
      (k : Resource) (v : e.Value) (s : e.State)
      → held k (e.json_stringify v s).1 ≡ held k s + value_cost k (refs (e.json_stringify v s).0)
  pub parse_held :
      (k : Resource) (t : Text) (s : e.State)
      → held k (e.parse_json t s).1 ≡ held k s + value_cost k (refs (e.parse_json t s).0)
  pub to_c_string_held :
      (k : Resource) (v : e.Value) (s : e.State)
      → held k (e.to_c_string v s).1 ≡ held k s + c_string_cost k (e.to_c_string v s).0
  pub free_c_string_held :
      (k : Resource) (t : Text) (s : e.State)
      → c_string_cost k (some t) ≤ held k s
      → held k (e.free_c_string t s).1 + c_string_cost k (some t) ≡ held k s
  pub typed_array_held :
      (k : Resource) (v : e.Value) (s : e.State)
      → held k (e.get_typed_array_buffer v s).1
        ≡ held k s + value_cost k (refs (e.get_typed_array_buffer v s).0.0)
  pub array_buffer_held :
      (k : Resource) (v : e.Value) (s : e.State) → held k (e.get_array_buffer v s).1 ≡ held k s
  pub set_uint32_held :
      (k : Resource) (o : e.Value) (i : ℕ) (v : e.Value) (s : e.State)
      → value_cost k (refs v) ≤ held k s
      → held k (e.set_property_uint32 o i v s).1 + value_cost k (refs v) ≡ held k s
  pub set_str_held :
      (k : Resource) (o : e.Value) (name : Text) (v : e.Value) (s : e.State)
      → value_cost k (refs v) ≤ held k s
      → held k (e.set_property_str o name v s).1 + value_cost k (refs v) ≡ held k s
  pub eval_held :
      (k : Resource) (code file : Text) (s : e.State)
      → held k (e.eval code file s).1 ≡ held k s + value_cost k (refs (e.eval code file s).0)
  pub new_function_held :
      (k : Resource) (name : Text) (magic : ℤ) (s : e.State)
      → held k (e.new_function_object name magic s).1
        ≡ held k s + value_cost k (refs (e.new_function_object name magic s).0)
  pub pending_job_held :
      (k : Resource) (s : e.State) → held k (e.execute_pending_job s).1 ≡ held k s
  pub print_held : (k : Resource) (t : Text) (s : e.State) → held k (e.print_error t s).1 ≡ held k s
  pub stack_top_held : (k : Resource) (s : e.State) → held k (e.update_stack_top s).1 ≡ held k s
  pub strdup_held :
      (k : Resource) (t : Text) (s : e.State)
      → held k (e.strdup t s).1 ≡ held k s + block_cost k (e.strdup t s).0
  pub free_held :
      (k : Resource) (t : Text) (s : e.State)
      → block_cost k (some t) ≤ held k s
      → held k (e.free t s).1 + block_cost k (some t) ≡ held k s
