-- ===== src/Tests/Stops.antt =====
-- A pool that is stopped while its threads are at work.
use distributed_disk.Common.{ℕ, ◌+◌, ◌≤◌, ◌≡◌, refl, List, [], ◌∷◌, nat_eq, string_eq, is_in}
use distributed_disk.Common.Dict.{lookup, insert, erase}
use distributed_disk.ThreadPool.{
  user_task, Doing, doing, run_flag, stop_flag, ThreadPool, finish_task,
}
use distributed_disk.ThreadPool.Totals.{IsUnique}
use distributed_disk.ThreadPool.Stop.{
  Caller, joining, returned, Stopping, stop, goes_on, ends_idle, angel_ends, interrupt,
  all_interrupted, join, return_, StopSteps, done, step,
}
use distributed_disk.ThreadPool.Stopping.{
  IsStopping, stop_ends_threads, StopSteps-IsStopping, stop-IsStopping,
}
use distributed_disk.ThreadPool.Ending.{measure, own_steps, joining_bounded}
use distributed_disk.ThreadPool.Returning.{stop_can_return}

-- The thread 1 is doing task 7 when the pool is stopped.
abbrev at_work : ThreadPool
at_work = record {
  tasks = [];
  threads = (1, doing (user_task 7)) ∷ [];
  ready_to_die = [];
  flag = run_flag;
  next_address = 0;
  finished = [];
}

at_work-IsUnique : IsUnique at_work.threads
unfolding lookup
at_work-IsUnique = (refl, tt)

-- A stage of Stop
abbrev stage : List (ℕ × Doing) → List ℕ → List ℕ → Caller → Stopping
stage threads finished interrupted caller = record {
  pool = record at_work { threads = threads; finished = finished; flag = stop_flag };
  interrupted = interrupted;
  caller = caller;
}

abbrev busy_thread : List (ℕ × Doing)
busy_thread = (1, doing (user_task 7)) ∷ []

abbrev loop_joins : Stopping
loop_joins = stage busy_thread [] (1 ∷ []) (joining (1 ∷ []))

abbrev over : Stopping
over = stage [] (7 ∷ []) (1 ∷ []) returned

interrupts : StopSteps (stop at_work) loop_joins
unfolding stop
interrupts = step _ _ loop_joins (angel_ends (stop at_work) refl) (
    step _ _ loop_joins (interrupt _ 1 [] (1 ∷ []) refl)
      (step _ loop_joins loop_joins (all_interrupted _ (1 ∷ []) refl) (done loop_joins)))

joins : StopSteps loop_joins over
unfolding lookup insert erase is_in
joins = step _ _ over (goes_on loop_joins _ (finish_task _ 1 7 refl) tt) (
    step _ _ over (ends_idle _ 1 refl refl refl)
      (step _ _ over (join _ 1 [] refl refl) (step _ over over (return_ _ refl) (done over))))

appended : (s t u : Stopping) → StopSteps s t → StopSteps t u → StopSteps s u
appended s t u (done _) more = more
appended s t u (step _ r _ first rest) more = step s r u first (appended r t u rest more)

stop_ends_threads_example : over.pool.threads ≡ []
stop_ends_threads_example =
    stop_ends_threads at_work over at_work-IsUnique
      (appended (stop at_work) loop_joins over interrupts joins) refl

loop_joins-IsStopping : IsStopping loop_joins
loop_joins-IsStopping =
    StopSteps-IsStopping (stop at_work) loop_joins interrupts
      (stop-IsStopping at_work at_work-IsUnique)

joining_bounded_example : own_steps joins + measure over ≤ measure loop_joins
joining_bounded_example = joining_bounded loop_joins over joins loop_joins-IsStopping refl

stop_can_return_example : (u : Stopping) × StopSteps loop_joins u × (u.caller ≡ returned)
stop_can_return_example = stop_can_return at_work loop_joins at_work-IsUnique interrupts
