-- ===== src/Bridge/Jobs/Laws.antt =====
-- What a drain of the job queue does, against runs of successful jobs.
use quickjs_runtime.Prelude.{
  ℕ, zero, suc, ◌+◌, ◌≤◌, ◌<◌, ◌≡◌, refl, ap, subst, Bool-cases, true, false, Option, some, ◌⊎◌,
  inl, inr, arith, max, ◌-◌,
}
use quickjs_runtime.Prelude.Int.{ℤ, pos, negsuc, pos_part}
use quickjs_runtime.Bridge.Engine.{Engine}
use quickjs_runtime.Bridge.Jobs.{
  Progress, idle, failed, ran, progress, reached, report_job_error, drain_capped,
  qjs_execute_pending_jobs_capped,
}

pub Progress-cases : (p : Progress) → (p ≡ idle) ⊎ (p ≡ failed) ⊎ (p ≡ ran)
Progress-cases idle = inl refl
Progress-cases failed = inr (inl refl)
Progress-cases ran = inr (inr refl)

pub reached-le : (n : ℕ) (m : ℤ) → reached n m ≡ true → pos_part m ≤ n
reached-le n (pos m) h = ground arith
reached-le n (negsuc m) h = omega arith

reached-lt : (n : ℕ) (m : ℤ) → reached n m ≡ false → n < pos_part m
reached-lt n (pos m) h = ground arith
reached-lt n (negsuc m) h = cc

module _ (e : Engine) where
  open e use {State, execute_pending_job}

  -- `n` jobs in a row that succeed, from the first state to the last.
  pub data Runs : State → ℕ → State → Type 0 where
    here : {s : State} → Runs s 0 s
    next :
        {s t : State} {n : ℕ}
        → progress (execute_pending_job s).0 ≡ ran
        → Runs (execute_pending_job s).1 n t
        → Runs s (suc n) t

  -- How a drain that has run `n` jobs ends in state `t`: the queue is empty, a job throws, or
  -- the limit is reached.
  abbrev pub Ends : ℤ → ℕ → State → ℤ → State → Type 0
  Ends max_jobs n t rc final =
      let r = execute_pending_job t in
      ((progress r.0 ≡ idle) × (rc ≡ pos n) × (final ≡ r.1))
      ⊎ ((progress r.0 ≡ failed) × (rc ≡ negsuc 0) × (final ≡ (report_job_error e r.1).1))
      ⊎ ((0 < n) × (pos_part max_jobs ≤ n) × (rc ≡ pos n) × (final ≡ t))

  -- The result of a drain that has run `done` jobs before, its further run and its end.
  pub record Drained (max_jobs : ℤ) (done : ℕ) (s : State) (o : Option (ℤ × State)) : Type 0 where
    pub jobs : ℕ
    pub last : State
    pub rc : ℤ
    pub final : State
    pub returns : o ≡ some (rc, final)
    pub within : done + jobs ≤ max (done + 1) (pos_part max_jobs)
    pub runs : Runs s jobs last
    pub ends : Ends max_jobs (done + jobs) last rc final

  module _ (m : ℤ) (fuel done : ℕ) (s : State) where
    capped-idle :
        progress (execute_pending_job s).0 ≡ idle
        → drain_capped e (suc fuel) m done s ≡ some (pos done, (execute_pending_job s).1)
    unfolding drain_capped
    capped-idle h = ground arith

    pub capped-failed :
        progress (execute_pending_job s).0 ≡ failed
        → drain_capped e (suc fuel) m done s
          ≡ some (negsuc 0, (report_job_error e (execute_pending_job s).1).1)
    unfolding drain_capped
    capped-failed h = ground arith

    capped-last :
        progress (execute_pending_job s).0 ≡ ran
        → reached (done + 1) m ≡ true
        → drain_capped e (suc fuel) m done s ≡ some (pos (done + 1), (execute_pending_job s).1)
    unfolding drain_capped
    capped-last h k = ground arith

    pub capped-ran :
        progress (execute_pending_job s).0 ≡ ran
        → reached (done + 1) m ≡ false
        → drain_capped e (suc fuel) m done s
          ≡ drain_capped e fuel m (done + 1) (execute_pending_job s).1
    unfolding drain_capped
    capped-ran h k = ground arith

  Drained-next :
      (m : ℤ) (done : ℕ) (s : State) (o : Option (ℤ × State))
      → progress (execute_pending_job s).0 ≡ ran
      → done + 1 < pos_part m
      → Drained m (done + 1) (execute_pending_job s).1 o
      → Drained m done s o
  Drained-next m done s o h lt d = record {
    jobs = suc d.jobs;
    last = d.last;
    rc = d.rc;
    final = d.final;
    returns = d.returns;
    within = omega (arith, d.within);
    runs = next h d.runs;
    ends = subst (λ n. Ends m n d.last d.rc d.final) (omega arith) d.ends;
  }

  drain_capped-Drained :
      (fuel : ℕ) (m : ℤ) (done : ℕ) (s : State)
      → max 1 (pos_part m - done) ≤ fuel
      → Drained m done s (drain_capped e fuel m done s)
  drain_capped-Drained zero m done s h = absurd (omega arith)
  drain_capped-Drained (suc fuel) m done s h =
      elim (Progress-cases (progress (execute_pending_job s).0)) [
        | inl x ↦ rw (capped-idle m fuel done s x) (record {
          jobs = 0;
          last = s;
          rc = pos done;
          final = (execute_pending_job s).1;
          returns = refl;
          within = omega arith;
          runs = here;
          ends = inl (x, ap pos (omega arith), refl);
        })
        | inr (inl x) ↦ rw (capped-failed m fuel done s x) (record {
          jobs = 0;
          last = s;
          rc = negsuc 0;
          final = (report_job_error e (execute_pending_job s).1).1;
          returns = refl;
          within = omega arith;
          runs = here;
          ends = inr (inl (x, refl, refl));
        })
        | inr (inr x) ↦ elim (Bool-cases (reached (done + 1) m)) [
          | inl y ↦ rw (capped-last m fuel done s x y) (record {
            jobs = 1;
            last = (execute_pending_job s).1;
            rc = pos (done + 1);
            final = (execute_pending_job s).1;
            returns = refl;
            within = omega arith;
            runs = next x here;
            ends = inr (inr (omega arith, reached-le (done + 1) m y, refl, refl));
          })
          | inr y ↦ rw (capped-ran m fuel done s x y) (
              Drained-next m done s _ x (reached-lt (done + 1) m y) (
                drain_capped-Drained fuel m (done + 1) (execute_pending_job s).1
                  (let lt = reached-lt (done + 1) m y in omega arith)))
        ]
      ]

  -- The capped drain returns for every limit and every queue, after at most that many rounds and
  -- never fewer than one: a limit of 0 or less runs one job. What it returns is the number of the
  -- jobs that it ran, or -1 after a job that threw.
  pub qjs_execute_pending_jobs_capped-Drained :
      (m : ℤ) (s : State)
      → Drained m 0
          (e.update_stack_top s).1
          (qjs_execute_pending_jobs_capped e (max 1 (pos_part m)) m s)
  unfolding qjs_execute_pending_jobs_capped
  qjs_execute_pending_jobs_capped-Drained m s =
      drain_capped-Drained (max 1 (pos_part m)) m 0 (e.update_stack_top s).1 (omega arith)
