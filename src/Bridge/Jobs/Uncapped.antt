-- ===== src/Bridge/Jobs/Uncapped.antt =====
-- The uncapped drain: when it returns, and how the capped one agrees with it.
use quickjs_runtime.Prelude.{
  ℕ, zero, suc, ◌+◌, ◌≤◌, ◌<◌, ◌≡◌, refl, ◌∙◌, Option, none, some, arith, ◌⊎◌, inl, inr, Bool-cases,
  false,
}
use quickjs_runtime.Prelude.Int.{ℤ, pos, negsuc, pos_part}
use quickjs_runtime.Bridge.Engine.{Engine, Text}
use quickjs_runtime.Prelude.Texts.{codes}
use quickjs_runtime.Bridge.Jobs.{
  idle, failed, ran, progress, reached, report_job_error, free_message, drain, drain_capped,
  qjs_execute_pending_jobs, qjs_execute_pending_jobs_capped,
}
use quickjs_runtime.Bridge.Jobs.Laws.{Runs, here, next, reached-le, capped-ran, capped-failed}

module _ (e : Engine) where
  open e use {State, execute_pending_job}

  module _ (fuel done : ℕ) (s : State) where
    drain-idle :
        progress (execute_pending_job s).0 ≡ idle
        → drain e (suc fuel) done s ≡ some (pos done, (execute_pending_job s).1)
    unfolding drain
    drain-idle h = ground arith

    drain-failed :
        progress (execute_pending_job s).0 ≡ failed
        → drain e (suc fuel) done s
          ≡ some (negsuc 0, (report_job_error e (execute_pending_job s).1).1)
    unfolding drain
    drain-failed h = ground arith

    drain-ran :
        progress (execute_pending_job s).0 ≡ ran
        → drain e (suc fuel) done s ≡ drain e fuel (done + 1) (execute_pending_job s).1
    unfolding drain
    drain-ran h = ground arith

  drain-Runs :
      {s t : State} {n : ℕ} (total fuel done end : ℕ)
      → Runs e s n t
      → total ≡ n + fuel
      → end ≡ done + n
      → drain e total done s ≡ drain e fuel end t
  drain-Runs {s} total fuel done end here p q =
      let same_fuel : total ≡ fuel = omega arith in
      let same_count : end ≡ done = omega arith in rw (same_fuel, same_count)
  drain-Runs zero fuel done end (next h r) p q = absurd (omega arith)
  drain-Runs {s} (suc total) fuel done end (next h r) p q =
      drain-ran total done s h ∙ drain-Runs total fuel (done + 1) end r (omega arith) (omega arith)

  reached-before : (n : ℕ) (m : ℤ) → n < pos_part m → reached n m ≡ false
  reached-before n m lt = elim (Bool-cases (reached n m)) [
    | inl there ↦ absurd (omega (arith, lt, reached-le n m there))
    | inr before ↦ before
  ]

  drain_capped-Runs :
      {s t : State} {n : ℕ} (m : ℤ) (total fuel done end : ℕ)
      → Runs e s n t
      → total ≡ n + fuel
      → end ≡ done + n
      → end < pos_part m
      → drain_capped e total m done s ≡ drain_capped e fuel m end t
  drain_capped-Runs {s} m total fuel done end here p q lt =
      let same_fuel : total ≡ fuel = omega arith in
      let same_count : end ≡ done = omega arith in rw (same_fuel, same_count)
  drain_capped-Runs m zero fuel done end (next h r) p q lt = absurd (omega arith)
  drain_capped-Runs {s} m (suc total) fuel done end (next h r) p q lt =
      capped-ran e m total done s h (reached-before (done + 1) m (omega arith))
      ∙ drain_capped-Runs m total fuel (done + 1) end r (omega arith) (omega arith) lt

  drain-spent : (done : ℕ) (s : State) → drain e 0 done s ≡ none
  unfolding drain
  drain-spent done s = refl

  -- Where `n` jobs in a row succeed and then none is pending, the uncapped drain returns `n`,
  -- in `n + 1` rounds and in no fewer than that.
  pub qjs_execute_pending_jobs_idle :
      (n : ℕ) (s t : State)
      → Runs e (e.update_stack_top s).1 n t
      → progress (execute_pending_job t).0 ≡ idle
      → (qjs_execute_pending_jobs e (n + 1) s ≡ some (pos n, (execute_pending_job t).1))
        × (qjs_execute_pending_jobs e n s ≡ none)
  unfolding qjs_execute_pending_jobs
  qjs_execute_pending_jobs_idle n s t r h = (
    drain-Runs (n + 1) 1 0 n r (omega arith) (omega arith) ∙ drain-idle 0 n t h,
    drain-Runs n 0 0 n r (omega arith) (omega arith) ∙ drain-spent n t,
  )

  -- The error that is pending in `s` has been reported in `u`: the exception is taken, its text
  -- printed and given back, or "(unknown)" printed where there is no text, and the exception
  -- is given back last.
  pub record IsReported (s u : State) : Type 0 where
    pub reported :
        let err = e.get_exception s in
        let msg = e.to_c_string err.0 err.1 in
        ((text : Text) × ((msg.0 ≡ some text)
            × (u ≡ (e.free_value err.0 (e.free_c_string text (e.print_error text msg.1).1).1).1)))
        ⊎ ((msg.0 ≡ none)
            × (u ≡ (e.free_value err.0 (e.print_error (codes "(unknown)") msg.1).1).1))

  message_cases : (o : Option Text) → ((text : Text) × (o ≡ some text)) ⊎ (o ≡ none)
  message_cases none = inr refl
  message_cases (some text) = inl (text, refl)

  report_job_error-IsReported : (s : State) → IsReported s (report_job_error e s).1
  unfolding report_job_error free_message
  report_job_error-IsReported s =
      let err = e.get_exception s in
      let msg = e.to_c_string err.0 err.1 in
      record {
        reported = elim (message_cases msg.0) [
          | inl (text, h) ↦ inl (text, (h, rw h refl))
          | inr h ↦ inr (h, rw h refl)
        ];
      }

  -- Where `n` jobs in a row succeed and the next one throws, the uncapped drain returns -1 after
  -- `n + 1` rounds, with that job's error reported, and the capped one with a limit above `n`
  -- returns the same.
  pub qjs_execute_pending_jobs_failed :
      (m : ℤ) (n : ℕ) (s t : State)
      → n < pos_part m
      → Runs e (e.update_stack_top s).1 n t
      → progress (execute_pending_job t).0 ≡ failed
      → (u : State) × ((qjs_execute_pending_jobs e (n + 1) s ≡ some (negsuc 0, u))
          × (qjs_execute_pending_jobs_capped e (n + 1) m s ≡ some (negsuc 0, u))
          × IsReported (execute_pending_job t).1 u)
  unfolding qjs_execute_pending_jobs qjs_execute_pending_jobs_capped
  qjs_execute_pending_jobs_failed m n s t lt r h = (
    (report_job_error e (execute_pending_job t).1).1,
    (
      drain-Runs (n + 1) 1 0 n r (omega arith) (omega arith) ∙ drain-failed 0 n t h,
      drain_capped-Runs m (n + 1) 1 0 n r (omega arith) (omega arith) lt
          ∙ capped-failed e m 0 n t h,
      report_job_error-IsReported (execute_pending_job t).1,
    ),
  )

  drain-ge :
      (fuel done : ℕ) (s t : State) (n : ℕ) → drain e fuel done s ≡ some (pos n, t) → done ≤ n
  unfolding drain
  drain-ge zero done s t n h = cc
  drain-ge (suc fuel) done s t n h =
      ground (arith, drain-ge fuel (done + 1) (execute_pending_job s).1 t n)

  drain_capped-eq-drain :
      (m : ℤ) (fuel done : ℕ) (s t : State) (n : ℕ)
      → drain e fuel done s ≡ some (pos n, t)
      → n < pos_part m
      → drain_capped e fuel m done s ≡ some (pos n, t)
  unfolding drain drain_capped
  drain_capped-eq-drain m zero done s t n h lt = cc
  drain_capped-eq-drain m (suc fuel) done s t n h lt = ground (
    arith,
    drain-ge fuel (done + 1) (execute_pending_job s).1 t n,
    drain_capped-eq-drain m fuel (done + 1) (execute_pending_job s).1 t n,
    reached-le (done + 1) m,
  )

  -- Where the uncapped drain returns a count below the limit, the capped one does the same.
  pub qjs_execute_pending_jobs_capped-eq :
      (m : ℤ) (fuel : ℕ) (s t : State) (n : ℕ)
      → qjs_execute_pending_jobs e fuel s ≡ some (pos n, t)
      → n < pos_part m
      → qjs_execute_pending_jobs_capped e fuel m s ≡ some (pos n, t)
  unfolding qjs_execute_pending_jobs qjs_execute_pending_jobs_capped
  qjs_execute_pending_jobs_capped-eq m fuel s t n h lt =
      drain_capped-eq-drain m fuel 0 (e.update_stack_top s).1 t n h lt
