-- ===== src/Engine/Promise/Progress.antt =====
-- Every job that waits gets its turn.
use quickjs_runtime.Prelude.{
  ℕ, zero, suc, ◌≡◌, refl, sym, ap, ◌∙◌, true, List, [], ◌∷◌, ◌++◌, length,
}
use mathlib.Core.List.{append-nil, append_assoc}
use quickjs_runtime.Engine.Promise.{Job, State, Environment}
use quickjs_runtime.Engine.Promise.Jobs.{run_job, execute_pending_job}
use quickjs_runtime.Engine.Promise.Operations.{IsExtending}
use quickjs_runtime.Engine.Promise.Runs.{run_job-Extends}

-- So many executions one after the other.
unfoldable pub execute_jobs : Environment → ℕ → State → State
execute_jobs e zero s = s
execute_jobs e (suc n) s = execute_jobs e n (execute_pending_job e s).1

-- The job is at the head of the queue, where the next execution takes it.
pub record IsNext (job : Job) (behind : List Job) (s : State) : Type 0 where
  pub more : List Job
  pub queue : s.queue ≡ job ∷ (behind ++ more)

module _ (e : Environment) (law : IsExtending e) where
  execute_pending_job-queue :
      (first : Job) (rest : List Job) (s : State)
      → s.queue ≡ first ∷ rest
      → execute_pending_job e s ≡ (true, (run_job e first (record s { queue = rest })).1)
  unfolding execute_pending_job
  execute_pending_job-queue first rest s k = rw (k, execute_pending_job) refl

  -- A job that waits is next after as many executions as there are jobs in front of it, whatever
  -- those jobs do; those behind it are still there, in their order.
  pub execute_jobs-IsNext :
      (before : List Job) (job : Job) (behind : List Job) (s : State)
      → s.queue ≡ before ++ job ∷ behind
      → IsNext job behind (execute_jobs e (length before) s)
  unfolding execute_jobs
  execute_jobs-IsNext [] job behind s k = record {
    more = [];
    queue = k ∙ sym (ap (λ q. job ∷ q) (append-nil behind));
  }
  execute_jobs-IsNext (first ∷ before) job behind s k =
      let s0 = record s { queue = before ++ job ∷ behind } in
      let ran = run_job-Extends e law first s0 in
      let next =
        execute_jobs-IsNext before job (behind ++ ran.more) (run_job e first s0).1
          (ran.queue ∙ append_assoc before (job ∷ behind) ran.more) in
      rw (execute_jobs, execute_pending_job-queue first (before ++ job ∷ behind) s k)
        (record {
          more = ran.more ++ next.more;
          queue = next.queue ∙ ap (λ q. job ∷ q) (append_assoc behind ran.more next.more);
        })
