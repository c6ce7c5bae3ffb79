-- ===== src/Bridge/Ledger/Failure.antt =====
-- What an error path of the bridge costs: an exception weighs nothing, before and after.
use quickjs_runtime.Prelude.{none, ◌+◌, ◌≡◌, refl, true, arith}
use quickjs_runtime.Bridge.Engine.{Engine, Message}
use quickjs_runtime.Bridge.Ledger.{
  Ledger, Resource, reference, c_string, block, value_cost, c_string_cost, block_cost,
}

value_cost-zero : (k : Resource) → value_cost k 0 ≡ 0
value_cost-zero reference = refl
value_cost-zero _ = refl

pub no_string_cost : (k : Resource) → c_string_cost k none ≡ 0
no_string_cost reference = refl
no_string_cost c_string = refl
no_string_cost block = refl

pub no_block_cost : (k : Resource) → block_cost k none ≡ 0
no_block_cost reference = refl
no_block_cost c_string = refl
no_block_cost block = refl

module _ (e : Engine) (l : Ledger e) (k : Resource) where
  open e use {State, Value, is_exception}
  open l use {held, refs}

  pub undefined_free : value_cost k (refs e.undefined) ≡ 0
  undefined_free = ground (arith, l.refs_undefined, value_cost-zero k)

  pub exception_free : (v : Value) → is_exception v ≡ true → value_cost k (refs v) ≡ 0
  exception_free v h = ground (arith, l.refs_exception v h, value_cost-zero k)

  pub free_exception-held :
      (v : Value) (s : State) → is_exception v ≡ true → held k (e.free_value v s).1 ≡ held k s
  free_exception-held v s h = ground (arith, exception_free v h, l.free_value_held k v s)

  pub throw-held :
      (m : Message) (s : State)
      → held k (e.throw_type_error m s).1
        ≡ held k s + value_cost k (refs (e.throw_type_error m s).0)
  throw-held m s = ground (arith, l.throw_held k m s, exception_free (e.throw_type_error m s).0)
