-- ===== src/Examples/JobQueue.antt =====
-- A job queue in a small memory.
use quickjs_runtime.Prelude.{ℕ, ◌+◌, ◌≡◌, refl, none, some, ap, [], ◌∷◌, ◌==◌, if◌then◌else◌, subst}
use quickjs_runtime.Cutils.LinkedList.{Heap, init_list_head, list_add_tail, list_del}
use quickjs_runtime.Cutils.LinkedList.Ring.{Apart, IsRing, init_list_head-IsRing}
use quickjs_runtime.Cutils.LinkedList.Insert.{list_add_tail-IsRing}
use quickjs_runtime.Cutils.LinkedList.Remove.{list_del-IsRing}
use quickjs_runtime.Engine.JobQueue.{JobEntry, Runtime, Calls, js_enqueue_job}
use quickjs_runtime.Engine.JobQueue.Order.{
  IsQueue, IsEnqueued, IsExecuted, js_enqueue_job-IsEnqueued, js_execute_pending_job-IsExecuted,
}

abbrev fresh_heap : Heap
fresh_heap = record { prev = λ x. 0; next = λ x. 0 }

abbrev empty_list : Heap
empty_list = init_list_head 100 fresh_heap

abbrev one : Heap
one = list_add_tail 7 100 empty_list

abbrev two : Heap
two = list_add_tail 8 100 one

one-IsRing : IsRing one 100 (7 ∷ [])
one-IsRing =
    list_add_tail-IsRing empty_list 100 7 [] (init_list_head-IsRing fresh_heap 100) (refl, tt)

two-IsRing : IsRing two 100 (7 ∷ 8 ∷ [])
two-IsRing = list_add_tail-IsRing one 100 8 (7 ∷ []) one-IsRing (refl, (refl, tt))

list_add_tail-IsRing_example : IsRing two 100 (7 ∷ 8 ∷ [])
list_add_tail-IsRing_example = list_add_tail-IsRing one 100 8 (7 ∷ []) one-IsRing (refl, (refl, tt))

list_del-IsRing_example : IsRing (list_del 8 two) 100 (7 ∷ [])
list_del-IsRing_example = list_del-IsRing two 100 8 (7 ∷ []) [] two-IsRing

abbrev log_job : JobEntry ℕ
log_job = record { context = 1; job_func = 5; argv = 40 ∷ 41 ∷ [] }

abbrev other_job : JobEntry ℕ
other_job = record { context = 2; job_func = 6; argv = [] }

-- The world is the address of the next block; a job returns the value 3.
abbrev engine : Calls ℕ ℕ
engine = record {
  js_malloc = λ n w. (some w, w + 1);
  js_free = λ e w. w;
  dup_value = λ v w. w;
  free_value = λ v w. w;
  is_exception = λ v. v == 0;
  call = λ job rt. (3, rt);
}

abbrev waiting : Runtime ℕ ℕ
waiting = record { links = two; entries = λ e. if e == 7 then log_job else other_job; world = 9 }

waiting-IsQueue : IsQueue 100 waiting (7 ∷ 8 ∷ []) (log_job ∷ other_job ∷ [])
waiting-IsQueue = record {
  ring = list_add_tail-IsRing one 100 8 (7 ∷ []) one-IsRing (refl, (refl, tt));
  held = refl;
}

fresh_block : (e : ℕ) → some 9 ≡ some e → Apart e (100 ∷ 7 ∷ 8 ∷ [])
fresh_block e h =
    subst (λ k. Apart k (100 ∷ 7 ∷ 8 ∷ [])) (ap (λ m. elim m [ none ↦ 9 | some k ↦ k ]) h)
      (refl, (refl, (refl, tt)))

js_enqueue_job-IsEnqueued_example :
    IsEnqueued engine 100
      (7 ∷ 8 ∷ [])
      (log_job ∷ other_job ∷ [])
      log_job
      (some 9, 10)
      (js_enqueue_job engine 100 log_job waiting)
js_enqueue_job-IsEnqueued_example =
    js_enqueue_job-IsEnqueued engine 100 log_job waiting (7 ∷ 8 ∷ []) (log_job ∷ other_job ∷ [])
      waiting-IsQueue fresh_block

js_execute_pending_job-IsExecuted_example :
    IsExecuted engine 100 waiting 7 log_job (8 ∷ []) [] (other_job ∷ []) []
js_execute_pending_job-IsExecuted_example =
    js_execute_pending_job-IsExecuted engine 100 waiting 7 log_job (8 ∷ []) [] (other_job ∷ []) []
      waiting-IsQueue (λ q. (q, refl))
