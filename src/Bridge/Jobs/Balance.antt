-- ===== src/Bridge/Jobs/Balance.antt =====
-- Ownership in the two drains of the job queue.
use quickjs_runtime.Prelude.{ℕ, zero, suc, ◌+◌, ◌≤◌, ◌≡◌, ◌∙◌, Option, none, some, arith}
use mathlib.Core.Option
use quickjs_runtime.Prelude.Int.{ℤ}
use quickjs_runtime.Bridge.Engine.{Engine, Text}
use quickjs_runtime.Bridge.Ledger.{Ledger, Resource, c_string_cost}
use quickjs_runtime.Bridge.Ledger.Failure.{no_string_cost}
use quickjs_runtime.Bridge.Jobs.{
  unknown, free_message, report_job_error, drain, drain_capped, qjs_execute_pending_jobs,
  qjs_execute_pending_jobs_capped,
}

module _ (e : Engine) (l : Ledger e) (k : Resource) where
  open e use {State, execute_pending_job}
  open l use {held}

  free_message-held :
      (o : Option Text) (s : State)
      → c_string_cost k o ≤ held k s
      → held k (free_message e o s).1 + c_string_cost k o ≡ held k s
  unfolding free_message
  free_message-held none s h = ground (arith, no_string_cost k)
  free_message-held (some t) s h = l.free_c_string_held k t s h

  report_job_error-held : (s : State) → held k (report_job_error e s).1 ≡ held k s
  unfolding report_job_error
  report_job_error-held s =
      let x = e.get_exception s in
      let c = e.to_c_string x.0 x.1 in
      let text = Option.get_or c.0 unknown in
      let p = e.print_error text c.1 in
      let f = free_message e c.0 p.1 in
      ground (
        arith,
        l.get_exception_held k s,
        l.to_c_string_held k x.0 x.1,
        l.print_held k text c.1,
        free_message-held c.0 p.1,
        l.free_value_held k x.0 f.1,
      )

  drain-held :
      (fuel done : ℕ) (s t : State) (rc : ℤ)
      → drain e fuel done s ≡ some (rc, t)
      → held k t ≡ held k s
  unfolding drain
  drain-held zero done s t rc h = cc
  drain-held (suc fuel) done s t rc h =
      let r = execute_pending_job s in
      ground (
        arith,
        l.pending_job_held k s,
        report_job_error-held r.1,
        drain-held fuel (done + 1) r.1 t rc,
      )

  drain_capped-held :
      (m : ℤ) (fuel done : ℕ) (s t : State) (rc : ℤ)
      → drain_capped e fuel m done s ≡ some (rc, t)
      → held k t ≡ held k s
  unfolding drain_capped
  drain_capped-held m zero done s t rc h = cc
  drain_capped-held m (suc fuel) done s t rc h =
      let r = execute_pending_job s in
      ground (
        arith,
        l.pending_job_held k s,
        report_job_error-held r.1,
        drain_capped-held m fuel (done + 1) r.1 t rc,
      )

  -- An uncapped drain that returns leaves nothing of the engine's to give back, also where it
  -- reports a job's error.
  pub qjs_execute_pending_jobs-held :
      (fuel : ℕ) (s t : State) (rc : ℤ)
      → qjs_execute_pending_jobs e fuel s ≡ some (rc, t)
      → held k t ≡ held k s
  unfolding qjs_execute_pending_jobs
  qjs_execute_pending_jobs-held fuel s t rc h =
      drain-held fuel 0 (e.update_stack_top s).1 t rc h ∙ l.stack_top_held k s

  -- So does a capped one.
  pub qjs_execute_pending_jobs_capped-held :
      (m : ℤ) (fuel : ℕ) (s t : State) (rc : ℤ)
      → qjs_execute_pending_jobs_capped e fuel m s ≡ some (rc, t)
      → held k t ≡ held k s
  unfolding qjs_execute_pending_jobs_capped
  qjs_execute_pending_jobs_capped-held m fuel s t rc h =
      drain_capped-held m fuel 0 (e.update_stack_top s).1 t rc h ∙ l.stack_top_held k s
