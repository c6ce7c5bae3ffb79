-- ===== src/Examples/Jobs.antt =====
-- The drains of the job queue, and the interleaved registrations, at concrete inputs.
use quickjs_runtime.Prelude.{◌≡◌, refl, some, List, [], ◌∷◌, arith}
use quickjs_runtime.Prelude.Int.{ℤ, pos, negsuc}
use quickjs_runtime.Bridge.Ledger.{reference}
use quickjs_runtime.Bridge.Jobs.{
  drain, drain_capped, qjs_execute_pending_jobs, qjs_execute_pending_jobs_capped, report_job_error,
  free_message,
}
use quickjs_runtime.Bridge.Jobs.Laws.{Drained, here, next, qjs_execute_pending_jobs_capped-Drained}
use quickjs_runtime.Bridge.Jobs.Uncapped.{
  IsReported, qjs_execute_pending_jobs_failed, qjs_execute_pending_jobs_capped-eq,
}
use quickjs_runtime.Bridge.Jobs.Balance.{qjs_execute_pending_jobs_capped-held}
use quickjs_runtime.Examples.SmallEngine.{Heap, small, small_ledger}

abbrev jobs : List ℤ → Heap
jobs js = record { references = 0; c_strings = 0; blocks = 0; jobs = js }

capped_runs :
    (qjs_execute_pending_jobs_capped small 9 (pos 2) (jobs (pos 1 ∷ pos 1 ∷ pos 1 ∷ []))
      ≡ some (pos 2, jobs (pos 1 ∷ [])))
    × (qjs_execute_pending_jobs_capped small 9 (pos 0) (jobs (pos 1 ∷ pos 1 ∷ []))
        ≡ some (pos 1, jobs (pos 1 ∷ [])))
    × (qjs_execute_pending_jobs_capped small 9 (pos 5) (jobs (pos 1 ∷ negsuc 0 ∷ []))
        ≡ some (negsuc 0, jobs []))
unfolding qjs_execute_pending_jobs_capped drain_capped report_job_error free_message
capped_runs = (refl, refl, refl)

qjs_execute_pending_jobs_capped-Drained_example :
    Drained small
      (pos 2)
      0
      (jobs (pos 1 ∷ pos 1 ∷ pos 1 ∷ []))
      (qjs_execute_pending_jobs_capped small 2 (pos 2) (jobs (pos 1 ∷ pos 1 ∷ pos 1 ∷ [])))
qjs_execute_pending_jobs_capped-Drained_example =
    qjs_execute_pending_jobs_capped-Drained small (pos 2) (jobs (pos 1 ∷ pos 1 ∷ pos 1 ∷ []))

qjs_execute_pending_jobs_failed_example :
    (u : Heap) × ((qjs_execute_pending_jobs small 2 (jobs (pos 1 ∷ negsuc 0 ∷ []))
        ≡ some (negsuc 0, u))
      × (qjs_execute_pending_jobs_capped small 2 (pos 5) (jobs (pos 1 ∷ negsuc 0 ∷ []))
          ≡ some (negsuc 0, u))
      × IsReported small (jobs []) u)
qjs_execute_pending_jobs_failed_example =
    qjs_execute_pending_jobs_failed small (pos 5) 1 (jobs (pos 1 ∷ negsuc 0 ∷ []))
      (jobs (negsuc 0 ∷ [])) (omega arith) (next refl here) refl

qjs_execute_pending_jobs_capped-eq_example :
    qjs_execute_pending_jobs_capped small 4 (pos 3) (jobs (pos 1 ∷ pos 1 ∷ []))
    ≡ some (pos 2, jobs [])
unfolding qjs_execute_pending_jobs drain
qjs_execute_pending_jobs_capped-eq_example =
    qjs_execute_pending_jobs_capped-eq small (pos 3) 4 (jobs (pos 1 ∷ pos 1 ∷ [])) (jobs []) 2 refl
      (omega arith)

qjs_execute_pending_jobs_capped-held_example :
    small_ledger.held reference (jobs (pos 1 ∷ []))
    ≡ small_ledger.held reference (jobs (pos 1 ∷ pos 1 ∷ []))
unfolding qjs_execute_pending_jobs_capped drain_capped
qjs_execute_pending_jobs_capped-held_example =
    qjs_execute_pending_jobs_capped-held small small_ledger reference (pos 1) 1
      (jobs (pos 1 ∷ pos 1 ∷ [])) (jobs (pos 1 ∷ [])) (pos 1) refl
