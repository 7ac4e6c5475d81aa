-- ===== src/ThreadPool/Returning.antt =====
-- Stop does not get stuck: wherever it is, it can go on until it returns.
use distributed_disk.Common.{
  ℕ, zero, suc, ◌≤◌, ◌≡◌, inl, inr, refl, ap, true, false, some, List, [], ◌∷◌, arith, nat_eq,
  is_in, Option-cases,
}
use distributed_disk.Common.Dict.{lookup}
use distributed_disk.ThreadPool.{
  user_task, poison_apple, sleeping_peel, Pair, Doing, idle, taken, doing, about_to_wait, waiting,
  dying, stop_flag, ThreadPool, take_task, finish_task, eat_apple, see_no_pause,
}
use distributed_disk.ThreadPool.Totals.{IsUnique}
use distributed_disk.ThreadPool.Stop.{
  Caller, joining_angel, interrupting, joining, returned, Stopping, stop, ids, StopStep, goes_on,
  ends_idle, ends_interrupted, angel_ends, interrupt, all_interrupted, join, return_, StopSteps,
  done, step,
}
use distributed_disk.ThreadPool.Stopping.{
  IsStopping, StopStep-IsStopping, StopSteps-IsStopping, stop-IsStopping,
}
use distributed_disk.ThreadPool.Ending.{
  is_late, turns, measure, adds, StopStep-Ends, marked_all, StopSteps-append,
}

-- What a marked thread that is idle does depends on the queue.
idle_goes :
    (s : Stopping) (t : ℕ) (tasks : List Pair)
    → is_in t s.interrupted ≡ true
    → s.pool.tasks ≡ tasks
    → lookup t s.pool.threads ≡ some idle
    → (u : Stopping) × (first : StopStep s u) × (adds first ≡ false)
idle_goes s t [] marked e here = (_, ends_idle s t here marked e, refl)
idle_goes s t (pair ∷ rest) marked e here =
    (_, goes_on s _ (take_task s.pool t pair rest here e) tt, refl)

-- A thread that has its mark has a step, whatever it is doing.
marked_goes :
    (s : Stopping) (t : ℕ) (d : Doing)
    → is_in t s.interrupted ≡ true
    → s.pool.flag ≡ stop_flag
    → lookup t s.pool.threads ≡ some d
    → (u : Stopping) × (first : StopStep s u) × (adds first ≡ false)
marked_goes s t idle marked halted here = idle_goes s t s.pool.tasks marked refl here
marked_goes s t (taken task) marked halted here =
    (_, ends_interrupted s t (taken task) here marked refl, refl)
marked_goes s t (doing (user_task k)) marked halted here =
    (_, goes_on s _ (finish_task s.pool t k here) tt, refl)
marked_goes s t (doing poison_apple) marked halted here =
    (_, goes_on s _ (eat_apple s.pool t here) tt, refl)
marked_goes s t (doing sleeping_peel) marked halted here =
    (_, goes_on s _ (see_no_pause s.pool t here (λ e. cc)) tt, refl)
marked_goes s t about_to_wait marked halted here =
    (_, ends_interrupted s t about_to_wait here marked refl, refl)
marked_goes s t waiting marked halted here =
    (_, ends_interrupted s t waiting here marked refl, refl)
marked_goes s t dying marked halted here = (_, ends_interrupted s t dying here marked refl, refl)

-- The loop that joins: the next thread has ended and is joined, or it has a step.
joining_goes :
    (s : Stopping) (left : List ℕ)
    → IsStopping s
    → s.caller ≡ joining left
    → (u : Stopping) × (first : StopStep s u) × (adds first ≡ false)
joining_goes s [] v at = (_, return_ s at, refl)
joining_goes s (t ∷ left) v at = elim (Option-cases (lookup t s.pool.threads)) [
  | inl gone ↦ (_, join s t left at gone, refl)
  | inr (d, here) ↦ marked_goes s t d (marked_all s v (rw at refl) t (λ gone. cc)) v.halted here
]

returns_by :
    (n : ℕ) (s : Stopping) (c : Caller)
    → s.caller ≡ c
    → IsStopping s
    → is_late c ≡ true
    → measure s ≤ n
    → (u : Stopping) × StopSteps s u × (u.caller ≡ returned)
returns_by n s returned at v late small = (s, done s, at)
returns_by n s joining_angel at v late small = cc
returns_by n s (interrupting left all) at v late small = cc
returns_by zero s (joining left) at v late small = absurd (omega (arith, ap turns at))
returns_by (suc n) s (joining left) at v late small =
    let (t, first, own) = joining_goes s left v at in
    let e = StopStep-Ends s t first v (rw at refl) in
    let (u, steps, over) =
      returns_by n t t.caller refl (StopStep-IsStopping s t first v) e.late
        (ground (arith, e.lower)) in
    (u, step s t u first steps, over)

-- The loop that interrupts takes one step for each thread.
interrupts_by :
    (s : Stopping) (left all : List ℕ)
    → s.caller ≡ interrupting left all
    → (u : Stopping) × StopSteps s u × (u.caller ≡ joining all)
interrupts_by s [] all at = (_, step s _ _ (all_interrupted s all at) (done _), refl)
interrupts_by s (t ∷ left) all at =
    let next : Stopping = record s {
      interrupted = t ∷ s.interrupted;
      caller = interrupting left all;
    } in
    let (u, steps, over) = interrupts_by next left all refl in
    (u, step s next u (interrupt s t left all at) steps, over)

-- Wherever Stop is, there are steps with which it returns: no thread blocks it for ever.
late_returns :
    (s : Stopping) (left : List ℕ)
    → IsStopping s
    → s.caller ≡ joining left
    → (u : Stopping) × StopSteps s u × (u.caller ≡ returned)
late_returns s left v at = returns_by (measure s) s s.caller refl v (rw at refl) (omega arith)

loop_returns :
    (s : Stopping) (left all : List ℕ)
    → IsStopping s
    → s.caller ≡ interrupting left all
    → (u : Stopping) × StopSteps s u × (u.caller ≡ returned)
loop_returns s left all v at =
    let (t, first, joins) = interrupts_by s left all at in
    let (u, steps, over) = late_returns t all (StopSteps-IsStopping s t first v) joins in
    (u, StopSteps-append s t u first steps, over)

caller_returns :
    (s : Stopping) (c : Caller)
    → IsStopping s
    → s.caller ≡ c
    → (u : Stopping) × StopSteps s u × (u.caller ≡ returned)
caller_returns s joining_angel v at =
    let all = ids s.pool.threads in
    let t : Stopping = record s { caller = interrupting all all } in
    let (u, steps, over) =
      loop_returns t all all (StopStep-IsStopping s t (angel_ends s at) v) refl in
    (u, step s t u (angel_ends s at) steps, over)
caller_returns s (interrupting left all) v at = loop_returns s left all v at
caller_returns s (joining left) v at = late_returns s left v at
caller_returns s returned v at = (s, done s, at)

-- Stop never gets stuck: from whatever point the threads, AngleOfDeathThread, calls of Add and Stop
-- itself have reached, there are steps with which Stop returns.
pub stop_can_return :
    (p : ThreadPool) (s : Stopping)
    → IsUnique p.threads
    → StopSteps (stop p) s
    → (u : Stopping) × StopSteps s u × (u.caller ≡ returned)
stop_can_return p s unique steps =
    caller_returns s s.caller (StopSteps-IsStopping (stop p) s steps (stop-IsStopping p unique))
      refl
