-- ===== src/Examples/Bridge.antt =====
-- The bridge's theorems at concrete inputs, over the small engine.
use quickjs_runtime.Prelude.{
  ℕ, ◌+◌, ◌≤◌, ◌≡◌, refl, true, none, some, List, [], ◌∷◌, subst, arith, length, if◌then◌else◌,
  ◌==◌, ◌&&◌,
}
use mathlib.Core.Option.{some-injective}
use quickjs_runtime.Prelude.Int.{pos}
use quickjs_runtime.Prelude.Texts.{codes}
use quickjs_runtime.Bridge.Ledger.{reference, block, value_cost}
use quickjs_runtime.Bridge.Table.{Table, callback_at, int16}
use quickjs_runtime.Bridge.Dispatch.{HostCallback, qjs_dispatch, qjs_register_host_fn}
use quickjs_runtime.Bridge.Dispatch.Balance
use quickjs_runtime.Bridge.Dispatch.Balance.{qjs_dispatch-held}
use quickjs_runtime.Bridge.Dispatch.Registered.{qjs_dispatch-unreachable}
use quickjs_runtime.Bridge.Bytes.{BytesHostCallback, qjs_bytes_dispatch}
use quickjs_runtime.Bridge.Bytes.Balance as BytesBalance
use quickjs_runtime.Bridge.Bytes.Balance.{qjs_bytes_dispatch-held}
use quickjs_runtime.Bridge.Bytes.Window.{AgreeInside, qjs_bytes_dispatch-inside}
use quickjs_runtime.Bridge.Eval.{qjs_eval, serialize, answer, eval_failed, exception_text, report}
use quickjs_runtime.Bridge.Eval.Balance.{answer_cost, qjs_eval-held}
use quickjs_runtime.Bridge.Eval.Answers.{IsExclusive, qjs_eval-IsExclusive}
use quickjs_runtime.Bridge.Sleep.{AllValid, qjs_sleep_ms, qjs_sleep_ms_lem}
use quickjs_runtime.Examples.SmallEngine.{
  Thing, nothing, thrown, object, text, Heap, small, small_ledger, small_ledger-block,
}

abbrev empty_heap : Heap
empty_heap = record { references = 0; c_strings = 0; blocks = 0; jobs = [] }

-- A host function that returns its arguments.
abbrev echo : HostCallback small
echo t h = (some t, record h { blocks = h.blocks + 1 })

echo-IsFair : Balance.IsFair small small_ledger echo
echo-IsFair = record { keeps = small_ledger-block }

abbrev one_function : Table (HostCallback small)
one_function = record { count = 1; slots = λ _. some echo }

abbrev two_args : List Thing
two_args = text (codes "1") ∷ nothing ∷ []

only_echo :
    (cb : HostCallback small)
    → callback_at one_function (pos 0) ≡ some cb
    → Balance.IsFair small small_ledger cb
unfolding callback_at
only_echo cb h = subst (Balance.IsFair small small_ledger) (some-injective _ _ h) echo-IsFair

qjs_dispatch-held_example :
    small_ledger.held reference (qjs_dispatch small one_function two_args (pos 0) empty_heap).1
    ≡ small_ledger.held reference empty_heap
      + value_cost reference
          (small_ledger.refs (qjs_dispatch small one_function two_args (pos 0) empty_heap).0)
qjs_dispatch-held_example =
    qjs_dispatch-held small small_ledger reference one_function two_args (pos 0) empty_heap
      only_echo

abbrev full_to : ℕ → Table (HostCallback small)
full_to n = record { count = n; slots = λ _. some echo }

qjs_dispatch-unreachable_example :
    ((qjs_register_host_fn small (codes "f") echo (full_to 40000, empty_heap)).0 ≡ pos 0)
    × (qjs_dispatch small (full_to 40001) two_args (int16 40000) empty_heap ≡ (thrown, empty_heap))
qjs_dispatch-unreachable_example =
    qjs_dispatch-unreachable small (codes "f") echo (full_to 40000) empty_heap (full_to 40001)
      two_args empty_heap (omega arith) (omega arith) refl refl

qjs_eval-held_example :
    small_ledger.held block (qjs_eval small true (codes "1") none empty_heap).1
    ≡ small_ledger.held block empty_heap
      + answer_cost block (qjs_eval small true (codes "1") none empty_heap).0
qjs_eval-held_example = qjs_eval-held small small_ledger block true (codes "1") none empty_heap

qjs_eval-IsExclusive_example : IsExclusive true (qjs_eval small true (codes "") none empty_heap).0
qjs_eval-IsExclusive_example = qjs_eval-IsExclusive small true (codes "") none empty_heap

eval_runs :
    ((qjs_eval small true (codes "7") none empty_heap).0
      ≡ record { result = some (codes "7"); err_msg = none })
    × ((qjs_eval small true (codes "") none empty_heap).0
        ≡ record { result = none; err_msg = some (codes "error") })
unfolding qjs_eval serialize answer eval_failed exception_text report
eval_runs = (refl, refl)

qjs_sleep_ms_lem_example :
    ((qjs_sleep_ms (300_000_000 ∷ 5 ∷ []) (pos 1500)).elapsed ≡ 1_500_000_000)
    × ((qjs_sleep_ms (300_000_000 ∷ 5 ∷ []) (pos 1500)).rc ≡ pos 0)
    × AllValid (qjs_sleep_ms (300_000_000 ∷ 5 ∷ []) (pos 1500)).asked
    × (length (qjs_sleep_ms (300_000_000 ∷ 5 ∷ []) (pos 1500)).asked ≤ 3)
qjs_sleep_ms_lem_example = qjs_sleep_ms_lem (300_000_000 ∷ 5 ∷ []) (pos 1500)

-- A bytes callback that does nothing, and one that takes a reference where the window is not the
-- one that the engine reports.
abbrev ignore : BytesHostCallback small
ignore t address n h = (tt, h)

abbrev one_bytes_function : Table (BytesHostCallback small)
one_bytes_function = record { count = 1; slots = λ _. some ignore }

abbrev strict : BytesHostCallback small
strict t address n h =
    if address == 1004 && n == 8 then (tt, h) else (tt, record h { references = 9 })

abbrev one_strict_function : Table (BytesHostCallback small)
one_strict_function = record { count = 1; slots = λ _. some strict }

only_ignore :
    (cb : BytesHostCallback small)
    → callback_at one_bytes_function (pos 0) ≡ some cb
    → BytesBalance.IsFair small small_ledger cb
unfolding callback_at
only_ignore cb h =
    subst (BytesBalance.IsFair small small_ledger) (some-injective _ _ h)
      (record { keeps = λ k t a n s. refl })

strict-agrees : AgreeInside small ignore strict object empty_heap
strict-agrees t address n s v = ground (arith, v.reported, v.at_view, v.of_view)

qjs_bytes_dispatch-inside_example :
    qjs_bytes_dispatch small one_bytes_function (text (codes "a") ∷ object ∷ []) (pos 0) empty_heap
    ≡ qjs_bytes_dispatch small one_strict_function
        (text (codes "a") ∷ object ∷ [])
        (pos 0)
        empty_heap
unfolding callback_at
qjs_bytes_dispatch-inside_example =
    qjs_bytes_dispatch-inside small ignore strict one_bytes_function one_strict_function (pos 0)
      (text (codes "a")) object [] empty_heap refl refl strict-agrees
