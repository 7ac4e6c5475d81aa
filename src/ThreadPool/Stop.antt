-- ===== src/ThreadPool/Stop.antt =====
-- ThreadPool::Stop and the destructor (thread_pool/thread_pool_impl.cpp). `interrupt` leaves a mark
-- at a thread, which ends it at its next interruption point: a wait, a sleep, or interruption_point().
-- Stop waits for the thread AngleOfDeathThread, then marks the pool's threads one by one, then waits
-- for them one by one. It is assumed that nobody calls Run, Pause or
-- Resize on a pool that stops, and that the tasks of the user pass no interruption point.
use distributed_disk.Common.{
  ℕ, ◌≡◌, Bool, true, false, Option, none, some, List, [], ◌∷◌, map, is_in, nat_eq,
}
use distributed_disk.Common.Dict.{lookup, erase}
use distributed_disk.ThreadPool.{
  Doing, idle, taken, about_to_wait, waiting, dying, Flag, run_flag, pause_flag, stop_flag,
  ThreadPool, Step, take_task, begin_task, finish_task, eat_apple, see_pause, see_no_pause,
  begin_wait, wake_up, end_thread, call_add, call_run, call_pause,
}

-- Where the caller of Stop is: waiting for the end of AngleOfDeathThread, in the loop that
-- interrupts (the threads that are left, and all of the map), in the loop that joins, or done.
pub data Caller : Type 0 where
  joining_angel : Caller
  interrupting : List ℕ → List ℕ → Caller
  joining : List ℕ → Caller
  returned : Caller

-- The `threads` of the pool are those that have not ended.
pub record Stopping : Type 0 where
  pub pool : ThreadPool
  pub interrupted : List ℕ
  pub caller : Caller

-- Who makes a step of the pool: a thread, which may pass an interruption point in it,
-- AngleOfDeathThread, or a caller.
pub data Actor : Type 0 where
  thread : ℕ → Bool → Actor
  angel adder controller : Actor

abbrev pub actor : {p q : ThreadPool} → Step p q → Actor
actor (take_task _ t pair rest here front) = thread t false
actor (begin_task _ t task here) = thread t true
actor (finish_task _ t k here) = thread t false
actor (eat_apple _ t here) = thread t false
actor (see_pause _ t here on) = thread t false
actor (see_no_pause _ t here off) = thread t false
actor (begin_wait _ t here) = thread t true
actor (wake_up _ t here) = thread t true
actor (end_thread _ t rest dead here) = angel
actor (call_add _ k priority) = adder
actor (call_run _) = controller
actor (call_pause _) = controller

-- AngleOfDeathThread goes on until Stop has joined it.
abbrev pub has_angel : Caller → Bool
has_angel joining_angel = true
has_angel _ = false

-- A thread with a mark does not pass an interruption point.
abbrev pub Goes : List ℕ → Caller → Actor → Type 0
Goes interrupted caller (thread t false) = Unit {0}
Goes interrupted caller (thread t true) = is_in t interrupted ≡ false
Goes interrupted caller angel = has_angel caller ≡ true
Goes interrupted caller adder = Unit {0}
Goes interrupted caller controller = ⊥

-- Where a marked thread is when it meets an interruption point.
abbrev pub interruptible : Doing → Bool
interruptible (taken task) = true
interruptible about_to_wait = true
interruptible waiting = true
interruptible dying = true
interruptible _ = false

-- ThreadPool::Stop up to the join of AngleOfDeathThread
unfoldable pub stop : ThreadPool → Stopping
stop p = record { pool = record p { flag = stop_flag }; interrupted = []; caller = joining_angel }

-- ThreadPool::~ThreadPool: a pool that has been stopped is not stopped again.
stop_unless : Flag → ThreadPool → Option Stopping
unfolding stop
stop_unless stop_flag p = none
stop_unless run_flag p = some (stop p)
stop_unless pause_flag p = some (stop p)

unfoldable pub delete_pool : ThreadPool → Option Stopping
unfolding stop_unless
delete_pool p = stop_unless p.flag p

abbrev pub ids : List (ℕ × Doing) → List ℕ
ids = map (λ entry. entry.0)

-- The threads without the one that ends
abbrev pub ended : ℕ → ThreadPool → ThreadPool
ended t p = record p { threads = erase t p.threads }

pub data StopStep : Stopping → Stopping → Type 0 where
  goes_on :
      (s : Stopping) (q : ThreadPool) (first : Step s.pool q)
      → Goes s.interrupted s.caller (actor first)
      → StopStep s (record s { pool = q })
  -- A marked thread waits in Pop for a task, or is at another interruption point: behind Pop it has
  -- a task, which is dropped.
  ends_idle :
      (s : Stopping) (t : ℕ)
      → lookup t s.pool.threads ≡ some idle
      → is_in t s.interrupted ≡ true
      → s.pool.tasks ≡ []
      → StopStep s (record s { pool = ended t s.pool })
  ends_interrupted :
      (s : Stopping) (t : ℕ) (d : Doing)
      → lookup t s.pool.threads ≡ some d
      → is_in t s.interrupted ≡ true
      → interruptible d ≡ true
      → StopStep s (record s { pool = ended t s.pool })
  -- The caller
  angel_ends :
      (s : Stopping)
      → s.caller ≡ joining_angel
      → StopStep s (record s { caller = interrupting (ids s.pool.threads) (ids s.pool.threads) })
  interrupt :
      (s : Stopping) (t : ℕ) (rest all : List ℕ)
      → s.caller ≡ interrupting (t ∷ rest) all
      → StopStep s (record s { interrupted = t ∷ s.interrupted; caller = interrupting rest all })
  all_interrupted :
      (s : Stopping) (all : List ℕ)
      → s.caller ≡ interrupting [] all
      → StopStep s (record s { caller = joining all })
  join :
      (s : Stopping) (t : ℕ) (rest : List ℕ)
      → s.caller ≡ joining (t ∷ rest)
      → lookup t s.pool.threads ≡ none
      → StopStep s (record s { caller = joining rest })
  return_ : (s : Stopping) → s.caller ≡ joining [] → StopStep s (record s { caller = returned })

pub data StopSteps : Stopping → Stopping → Type 0 where
  done : (s : Stopping) → StopSteps s s
  step : (s t u : Stopping) → StopStep s t → StopSteps t u → StopSteps s u
