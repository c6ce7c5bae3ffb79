-- ===== src/Bridge/Jobs.antt =====
-- `qjs_execute_pending_jobs` and `qjs_execute_pending_jobs_capped` of native/quickjs_bridge.c.
pub mod Laws
pub mod Uncapped
pub mod Balance
use quickjs_runtime.Prelude.{
  ℕ, zero, suc, ◌+◌, Bool, true, false, if◌then◌else◌, leb, Option, none, some,
}
use quickjs_runtime.Prelude.Int.{ℤ, pos, negsuc, ltb_ℤ}
use mathlib.Core.Option
use quickjs_runtime.Prelude.Texts.{codes}
use quickjs_runtime.Bridge.Engine.{Engine, Text, ◌>>=◌, ◌>>◌, return}

abbrev pub unknown : Text
unknown = codes "(unknown)"

-- The three ways in which a call of `JS_ExecutePendingJob` is read.
pub data Progress : Type 0 where
  idle failed ran : Progress

abbrev pub progress : ℤ → Progress
progress (pos zero) = idle
progress (pos (suc n)) = ran
progress (negsuc n) = failed

-- `executed >= max_jobs` for an `int max_jobs`.
abbrev pub reached : ℕ → ℤ → Bool
reached executed (pos m) = leb m executed
reached executed (negsuc m) = true

module _ (e : Engine) where
  open e use {
    State, get_exception, free_value, to_c_string, free_c_string, update_stack_top,
    execute_pending_job, print_error,
  }

  unfoldable pub free_message : Option Text → State → Unit {0} × State
  free_message none = return tt
  free_message (some t) = free_c_string t

  -- The error of a job on stderr, cleared.
  unfoldable pub report_job_error : State → Unit {0} × State
  report_job_error = do
    err ← get_exception
    msg ← to_c_string err
    print_error (Option.get_or msg unknown)
    free_message msg
    free_value err

  -- The uncapped loop on fuel; `none` means that the fuel ran out.
  unfoldable pub drain : ℕ → ℕ → State → Option (ℤ × State)
  drain zero executed s = none
  drain (suc fuel) executed s =
      let r = execute_pending_job s in
      elim (progress r.0) [
        | idle ↦ some (pos executed, r.1)
        | failed ↦ some (negsuc 0, (report_job_error r.1).1)
        | ran ↦ drain fuel (executed + 1) r.1
      ]

  unfoldable pub qjs_execute_pending_jobs : ℕ → State → Option (ℤ × State)
  qjs_execute_pending_jobs fuel s = drain fuel 0 (update_stack_top s).1

  unfoldable pub drain_capped : ℕ → ℤ → ℕ → State → Option (ℤ × State)
  drain_capped zero max_jobs executed s = none
  drain_capped (suc fuel) max_jobs executed s =
      let r = execute_pending_job s in
      elim (progress r.0) [
        | idle ↦ some (pos executed, r.1)
        | failed ↦ some (negsuc 0, (report_job_error r.1).1)
        | ran ↦ elim (reached (executed + 1) max_jobs) [
          | true ↦ some (pos (executed + 1), r.1)
          | false ↦ drain_capped fuel max_jobs (executed + 1) r.1
        ]
      ]

  unfoldable pub qjs_execute_pending_jobs_capped : ℕ → ℤ → State → Option (ℤ × State)
  qjs_execute_pending_jobs_capped fuel max_jobs s =
      drain_capped fuel max_jobs 0 (update_stack_top s).1
