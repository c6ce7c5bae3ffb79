-- ===== src/Bridge/Eval/Balance.antt =====
-- Ownership in `qjs_eval` and `qjs_set_global_json`.
use quickjs_runtime.Prelude.{ℕ, ◌+◌, ◌≤◌, ◌≡◌, Bool, true, false, Option, none, some, arith}
use mathlib.Core.Option
use quickjs_runtime.Bridge.Engine.{Engine, Text}
use quickjs_runtime.Bridge.Ledger.{Ledger, Resource, value_cost, block_cost, c_string_cost}
use quickjs_runtime.Bridge.Ledger.Failure.{
  exception_free, free_exception-held, no_string_cost, no_block_cost,
}
use quickjs_runtime.Bridge.Eval.{
  Answer, eval_name, failed_to_serialize, failed_to_convert, report, exception_text, eval_failed,
  answer, serialize, qjs_eval, qjs_set_global_json,
}

-- The blocks that an answer hands to the caller.
abbrev pub answer_cost : Resource → Answer → ℕ
answer_cost k a = block_cost k a.result + block_cost k a.err_msg

module _ (e : Engine) (l : Ledger e) (k : Resource) where
  open e use {State, Value}
  open l use {held, refs}

  report-held :
      (w : Bool) (t : Text) (s : State)
      → held k (report e w t s).1 ≡ held k s + answer_cost k (report e w t s).0
  unfolding report
  report-held true t s = ground (arith, l.strdup_held k t s, no_block_cost k)
  report-held false t s = ground (arith, no_block_cost k)

  exception_text-held :
      (w : Bool) (o : Option Text) (s : State)
      → c_string_cost k o ≤ held k s
      → held k (exception_text e w o s).1 + c_string_cost k o
        ≡ held k s + answer_cost k (exception_text e w o s).0
  unfolding exception_text
  exception_text-held w none s h = ground (arith, no_block_cost k, no_string_cost k)
  exception_text-held w (some t) s h =
      let r = report e w t s in ground (arith, report-held w t s, l.free_c_string_held k t r.1)

  eval_failed-held :
      (w : Bool) (v : Value) (s : State)
      → e.is_exception v ≡ true
      → held k (eval_failed e w v s).1 ≡ held k s + answer_cost k (eval_failed e w v s).0
  unfolding eval_failed
  eval_failed-held w v s h =
      let x = e.get_exception s in
      let c = e.to_c_string x.0 x.1 in
      let a = exception_text e w c.0 c.1 in
      let f = e.free_value x.0 a.1 in
      ground (
        arith,
        l.get_exception_held k s,
        l.to_c_string_held k x.0 x.1,
        exception_text-held w c.0 c.1,
        l.free_value_held k x.0 a.1,
        free_exception-held e l k v f.1,
      )

  answer-held :
      (w : Bool) (o : Option Text) (s : State)
      → c_string_cost k o ≤ held k s
      → held k (answer e w o s).1 + c_string_cost k o ≡ held k s + answer_cost k (answer e w o s).0
  unfolding answer
  answer-held w none s h = ground (arith, report-held w failed_to_convert s, no_string_cost k)
  answer-held w (some t) s h =
      let r = e.strdup t s in
      ground (arith, l.strdup_held k t s, l.free_c_string_held k t r.1, no_block_cost k)

  serialize-held :
      (w : Bool) (v : Value) (s : State)
      → value_cost k (refs v) ≤ held k s
      → held k (serialize e w v s).1 + value_cost k (refs v)
        ≡ held k s + answer_cost k (serialize e w v s).0
  unfolding serialize
  serialize-held w v s h =
      let j = e.json_stringify v s in
      let f = e.free_value v j.1 in
      let g = e.free_value j.0 f.1 in
      let c = e.to_c_string j.0 f.1 in
      let d = e.free_value j.0 c.1 in
      ground (
        arith,
        l.stringify_held k v s,
        l.free_value_held k v j.1,
        exception_free e l k j.0,
        free_exception-held e l k j.0 f.1,
        report-held w failed_to_serialize g.1,
        l.to_c_string_held k j.0 f.1,
        l.free_value_held k j.0 c.1,
        answer-held w c.0 d.1,
      )

  -- An evaluation leaves the caller the blocks of its answer to free, and nothing else.
  pub qjs_eval-held :
      (w : Bool) (code : Text) (file : Option Text) (s : State)
      → held k (qjs_eval e w code file s).1 ≡ held k s + answer_cost k (qjs_eval e w code file s).0
  unfolding qjs_eval
  qjs_eval-held w code file s =
      let u = e.update_stack_top s in
      let name = Option.get_or file eval_name in
      let v = e.eval code name u.1 in
      ground (
        arith,
        l.stack_top_held k s,
        l.eval_held k code name u.1,
        exception_free e l k v.0,
        eval_failed-held w v.0 v.1,
        serialize-held w v.0 v.1,
      )

  -- Setting a global leaves nothing, whether it succeeds or not.
  pub qjs_set_global_json-held :
      (name json : Text) (s : State) → held k (qjs_set_global_json e name json s).1 ≡ held k s
  unfolding qjs_set_global_json
  qjs_set_global_json-held name json s =
      let v = e.parse_json json s in
      let g = e.get_global_object v.1 in
      let p = e.set_property_str g.0 name v.0 g.1 in
      ground (
        arith,
        l.parse_held k json s,
        exception_free e l k v.0,
        l.get_global_held k v.1,
        l.set_str_held k g.0 name v.0 g.1,
        l.free_value_held k g.0 p.1,
      )
