-- ===== src/Bridge/Eval/Answers.antt =====
-- What an evaluation answers: a result or an error, and what stands for `undefined`.
use quickjs_runtime.Prelude.{
  ◌≡◌, refl, ◌⊎◌, inl, inr, Bool, true, false, Option, none, some, arith, Bool-cases,
}
use mathlib.Core.Option
use quickjs_runtime.Prelude.Texts.{codes}
use quickjs_runtime.Bridge.Engine.{Engine, Text}
use quickjs_runtime.Bridge.Eval.{
  Answer, eval_name, failed_to_serialize, failed_to_convert, report, exception_text, eval_failed,
  answer, serialize, qjs_eval,
}

-- No answer has both a result and an error, and none has an error that the caller did not ask for.
abbrev pub IsExclusive : Bool → Answer → Type 0
IsExclusive wanted a =
    ((a.result ≡ none) ⊎ (a.err_msg ≡ none)) × ((wanted ≡ true) ⊎ (a.err_msg ≡ none))

module _ (e : Engine) where
  open e use {State, Value}

  report-IsExclusive : (w : Bool) (t : Text) (s : State) → IsExclusive w (report e w t s).0
  unfolding report
  report-IsExclusive true t s = (inl refl, inl refl)
  report-IsExclusive false t s = (inl refl, inr refl)

  exception_text-IsExclusive :
      (w : Bool) (o : Option Text) (s : State) → IsExclusive w (exception_text e w o s).0
  unfolding exception_text
  exception_text-IsExclusive w none s = (inl refl, inr refl)
  exception_text-IsExclusive w (some t) s = report-IsExclusive w t s

  answer-IsExclusive : (w : Bool) (o : Option Text) (s : State) → IsExclusive w (answer e w o s).0
  unfolding answer
  answer-IsExclusive w none s = report-IsExclusive w failed_to_convert s
  answer-IsExclusive w (some t) s = (inr refl, inr refl)

  eval_failed-IsExclusive :
      (w : Bool) (v : Value) (s : State) → IsExclusive w (eval_failed e w v s).0
  unfolding eval_failed
  eval_failed-IsExclusive w v s = exception_text-IsExclusive w _ _

  serialize-IsExclusive : (w : Bool) (v : Value) (s : State) → IsExclusive w (serialize e w v s).0
  unfolding serialize
  serialize-IsExclusive w v s =
      let j = e.json_stringify v s in
      let f = e.free_value v j.1 in
      let g = e.free_value j.0 f.1 in
      let c = e.to_c_string j.0 f.1 in
      let d = e.free_value j.0 c.1 in
      elim (Bool-cases (e.is_exception j.0)) [
        | inl bad ↦ rw bad (report-IsExclusive w failed_to_serialize g.1)
        | inr good ↦ rw good (answer-IsExclusive w c.0 d.1)
      ]

  -- An evaluation never sets both its result and its error, and sets no error where the caller
  -- passed no place for one.
  pub qjs_eval-IsExclusive :
      (w : Bool) (code : Text) (file : Option Text) (s : State)
      → IsExclusive w (qjs_eval e w code file s).0
  unfolding qjs_eval
  qjs_eval-IsExclusive w code file s =
      let u = e.update_stack_top s in
      let v = e.eval code (Option.get_or file eval_name) u.1 in
      elim (Bool-cases (e.is_exception v.0)) [
        | inl bad ↦ rw bad (eval_failed-IsExclusive w v.0 v.1)
        | inr good ↦ rw good (serialize-IsExclusive w v.0 v.1)
      ]

  -- Where a script completes with `undefined`, which the engine serializes to `undefined` and
  -- renders as "undefined", the answer is a copy of that text and not of "null".
  pub qjs_eval-undefined :
      (w : Bool) (code : Text) (file : Option Text) (s : State)
      → ((s' : State) → (e.strdup (codes "undefined") s').0 ≡ some (codes "undefined"))
      → ((s' : State) → (e.json_stringify e.undefined s').0 ≡ e.undefined)
      → ((s' : State) → (e.to_c_string e.undefined s').0 ≡ some (codes "undefined"))
      → e.is_exception e.undefined ≡ false
      → (e.eval code (Option.get_or file eval_name) (e.update_stack_top s).1).0 ≡ e.undefined
      → (qjs_eval e w code file s).0 ≡ record { result = some (codes "undefined"); err_msg = none }
  unfolding qjs_eval serialize answer
  qjs_eval-undefined w code file s dup json render plain h =
      let v = e.eval code (Option.get_or file eval_name) (e.update_stack_top s).1 in
      let j = e.json_stringify v.0 v.1 in
      let f = e.free_value v.0 j.1 in
      let c = e.to_c_string j.0 f.1 in
      let d = e.free_value j.0 c.1 in ground (arith, json v.1, render f.1, dup d.1)
