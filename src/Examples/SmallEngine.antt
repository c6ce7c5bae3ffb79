-- ===== src/Examples/SmallEngine.antt =====
-- An engine of a few values that keeps count of what its callers hold: the assumptions on the
-- QuickJS API can be met.
use quickjs_runtime.Prelude.{
  ℕ, ◌+◌, ◌-◌, ◌≡◌, refl, Bool, true, false, Option, none, some, List, [], ◌∷◌, arith,
}
use quickjs_runtime.Prelude.Int.{ℤ, pos}
use quickjs_runtime.Prelude.Texts.{codes}
use quickjs_runtime.Bridge.Engine.{Engine, Text}
use quickjs_runtime.Bridge.Ledger.{Ledger, Resource, reference, c_string, block, block_cost}

pub data Thing : Type 0 where
  nothing thrown object : Thing
  text : Text → Thing

-- What callers hold of each kind, and the results of the jobs in the queue.
pub record Heap : Type 0 where
  pub references : ℕ
  pub c_strings : ℕ
  pub blocks : ℕ
  pub jobs : List ℤ

abbrev pub count : Resource → Heap → ℕ
count reference h = h.references
count c_string h = h.c_strings
count block h = h.blocks

abbrev pub weight : Thing → ℕ
weight nothing = 0
weight thrown = 0
weight object = 1
weight (text t) = 1

abbrev is_thrown : Thing → Bool
is_thrown thrown = true
is_thrown _ = false

abbrev is_text : Thing → Bool
is_text (text t) = true
is_text _ = false

abbrev owned : Thing → Heap → Thing × Heap
owned v h = (v, record h { references = h.references + weight v })

abbrev json_of : Thing → Thing
json_of nothing = nothing
json_of thrown = thrown
json_of object = text (codes "{}")
json_of (text t) = text t

abbrev parsed : Text → Thing
parsed [] = thrown
parsed (c ∷ t) = text (c ∷ t)

abbrev rendered : Thing → Option Text
rendered nothing = some (codes "undefined")
rendered thrown = none
rendered object = some (codes "[object Object]")
rendered (text t) = some t

abbrev lend : Option Text → Heap → Option Text × Heap
lend none h = (none, h)
lend (some t) h = (some t, record h { c_strings = h.c_strings + 1 })

abbrev run_job : List ℤ → Heap → ℤ × Heap
run_job [] h = (pos 0, h)
run_job (rc ∷ rest) h = (rc, record h { jobs = rest })

abbrev pub small : Engine
small = record {
  State = Heap;
  Value = Thing;
  undefined = nothing;
  is_exception = is_thrown;
  is_string = is_text;
  throw_type_error = λ m h. (thrown, h);
  new_object = owned object;
  new_array = owned object;
  get_global_object = owned object;
  get_exception = owned (text (codes "error"));
  dup_value = λ v. owned v;
  free_value = λ v h. (tt, record h { references = h.references - weight v });
  json_stringify = λ v. owned (json_of v);
  parse_json = λ t. owned (parsed t);
  to_c_string = λ v h. lend (rendered v) h;
  free_c_string = λ t h. (tt, record h { c_strings = h.c_strings - 1 });
  get_typed_array_buffer = λ v h. ((object, 4, 8), record h { references = h.references + 1 });
  get_array_buffer = λ v h. (some (1000, 16), h);
  set_property_uint32 = λ o i v h. (pos 1, record h { references = h.references - weight v });
  set_property_str = λ o n v h. (pos 1, record h { references = h.references - weight v });
  new_function_object = λ n m. owned object;
  update_stack_top = λ h. (tt, h);
  execute_pending_job = λ h. run_job h.jobs h;
  eval = λ code f. owned (parsed code);
  strdup = λ t h. (some t, record h { blocks = h.blocks + 1 });
  free = λ t h. (tt, record h { blocks = h.blocks - 1 });
  print_error = λ t h. (tt, h);
}

run_job-count : (k : Resource) (js : List ℤ) (h : Heap) → count k (run_job js h).1 ≡ count k h
run_job-count k [] h = refl
run_job-count reference (rc ∷ js) h = refl
run_job-count c_string (rc ∷ js) h = refl
run_job-count block (rc ∷ js) h = refl

pub small_ledger : Ledger small
small_ledger = record {
  held = count;
  refs = weight;
  refs_undefined = refl;
  refs_exception = λ v p. ground arith;
  throw_held = λ k m s. (refl, refl);
  new_object_held = λ k s. ground arith;
  new_array_held = λ k s. ground arith;
  get_global_held = λ k s. ground arith;
  get_exception_held = λ k s. ground arith;
  dup_held = λ k v s. ground arith;
  free_value_held = λ k v s p. ground arith;
  stringify_held = λ k v s. ground arith;
  parse_held = λ k t s. ground arith;
  to_c_string_held = λ k v s. ground arith;
  free_c_string_held = λ k t s p. ground arith;
  typed_array_held = λ k v s. ground arith;
  array_buffer_held = λ k v s. refl;
  set_uint32_held = λ k o i v s p. ground arith;
  set_str_held = λ k o n v s p. ground arith;
  eval_held = λ k c f s. ground arith;
  new_function_held = λ k n m s. ground arith;
  pending_job_held = λ k s. run_job-count k s.jobs s;
  print_held = λ k t s. refl;
  stack_top_held = λ k s. refl;
  strdup_held = λ k t s. ground arith;
  free_held = λ k t s p. ground arith;
}

-- A callback that allocates the block which it returns, and one that does nothing.
pub small_ledger-block :
    (k : Resource) (t : Text) (h : Heap)
    → small_ledger.held k (record h { blocks = h.blocks + 1 })
      ≡ small_ledger.held k h + block_cost k (some t)
unfolding small_ledger
small_ledger-block k t h = ground arith
