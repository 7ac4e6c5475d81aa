-- ===== src/ThreadPool.antt =====
-- thread_pool/thread_pool.hpp and thread_pool/thread_pool_impl.cpp (include/ holds the same file).
-- The members are the state, the calls of the user are functions on it, and what the threads of the
-- pool do between them is a step relation.
pub mod Totals
pub mod Counts
pub mod Calls
pub mod Resizing
pub mod Pausing
pub mod Stop
pub mod Stopping
pub mod Ending
pub mod Returning
use Prim.Native.Nat.{max}
use distributed_disk.Common.{
  ℕ, zero, suc, ◌+◌, ◌-◌, ◌≡◌, ◌≢◌, Bool, true, false, Option, none, some, List, [], ◌∷◌, ◌++◌,
  if◌then◌else◌, ◌||◌, ◌&&◌, ltb, nat_eqb, nat_eq, length,
}
use distributed_disk.Common.Dict.{lookup, insert, erase}
use distributed_disk.Queue.{insert_ordered}

-- ThreadPool::Priority
pub data Priority : Type 0 where
  low normal high critical : Priority

abbrev pub priority_number : Priority → ℕ
priority_number low = 1
priority_number normal = 2
priority_number high = 3
priority_number critical = 4

-- A task of the user, by a name, or one of the pool's own.
pub data Task : Type 0 where
  user_task : ℕ → Task
  poison_apple sleeping_peel : Task

-- A pair of m_tasks. The order of two shared pointers is that of the addresses they own; the model
-- takes them to grow.
pub record Pair : Type 0 where
  pub priority : Priority
  pub address : ℕ
  pub task : Task

-- std::less of std::pair
abbrev pub less_pair : Pair → Pair → Bool
less_pair p q =
    ltb (priority_number p.priority) (priority_number q.priority)
    || (nat_eqb (priority_number p.priority) (priority_number q.priority)
        && ltb p.address q.address)

-- ThreadPool::State
pub data Flag : Type 0 where
  pause_flag run_flag stop_flag : Flag

-- Where a thread is in RunThread, or in the Do of its task.
pub data Doing : Type 0 where
  idle : Doing
  -- Pop has given it a task, and it is at interruption_point()
  taken : Task → Doing
  doing : Task → Doing
  -- in SleepingPeel::Do: PAUSE was read, and the wait has not begun; and in the wait
  about_to_wait waiting : Doing
  -- in PoisonApple::Do, behind the Push
  dying : Doing

pub record ThreadPool : Type 0 where
  pub tasks : List Pair
  pub threads : List (ℕ × Doing)
  pub ready_to_die : List ℕ
  pub flag : Flag
  -- the next object on the heap
  pub next_address : ℕ
  -- the user's tasks that are done, oldest first
  pub finished : List ℕ

-- ThreadPool::Add
unfoldable pub add : Task → Priority → ThreadPool → ThreadPool
add new_task priority p = record p {
  tasks =
      insert_ordered less_pair
        (record { priority = priority; address = p.next_address; task = new_task }) p.tasks;
  next_address = p.next_address + 1;
}

-- InsertPoisonApples and InsertSleepingPeels
unfoldable pub insert_special : Task → ℕ → ThreadPool → ThreadPool
unfolding add
insert_special task zero p = p
insert_special task (suc n) p = insert_special task n (add task critical p)

-- Thread ids are unique.
unfoldable pub new_id : List (ℕ × Doing) → ℕ
new_id [] = 1
new_id ((t, d) ∷ threads) = max (suc t) (new_id threads)

-- ThreadPool::AddThreads
unfoldable pub add_threads : ℕ → ThreadPool → ThreadPool
unfolding new_id
add_threads zero p = p
add_threads (suc n) p = add_threads n (record p { threads = (new_id p.threads, idle) ∷ p.threads })

-- ThreadPool::ThreadPool
unfoldable pub make_pool : ℕ → ThreadPool
unfolding insert_special add_threads
make_pool thread_count = add_threads thread_count (
    insert_special sleeping_peel thread_count (record {
      tasks = [];
      threads = [];
      ready_to_die = [];
      flag = pause_flag;
      next_address = 0;
      finished = [];
    }))

-- notify_all: who waits looks at the flag again.
wake : Doing → Doing
wake waiting = doing sleeping_peel
wake d = d

unfoldable pub notify_all : List (ℕ × Doing) → List (ℕ × Doing)
unfolding wake
notify_all [] = []
notify_all ((t, d) ∷ threads) = (t, wake d) ∷ notify_all threads

-- ThreadPool::Run
unfoldable pub run : ThreadPool → ThreadPool
unfolding notify_all
run p = record p { flag = run_flag; threads = notify_all p.threads }

-- ThreadPool::Pause
unfoldable pub pause : ThreadPool → ThreadPool
unfolding insert_special
pause p = insert_special sleeping_peel (length p.threads) (record p { flag = pause_flag })

-- ThreadPool::Resize
unfoldable pub resize : ℕ → ThreadPool → ThreadPool
unfolding insert_special add_threads
resize new_thread_count p =
    let len = length p.threads in
    if ltb new_thread_count len
    then insert_special poison_apple (len - new_thread_count) p
    else add_threads (new_thread_count - len) p

-- A thread goes on from `d` to `d'`.
abbrev pub moved : ℕ → Doing → ThreadPool → ThreadPool
moved t d p = record p { threads = insert t d p.threads }

-- One step: RunThread takes a pair from m_tasks and calls its Do; AngleOfDeathThread
-- ends a thread that has eaten a poison apple; the user adds a task, runs or pauses the pool.
pub data Step : ThreadPool → ThreadPool → Type 0 where
  take_task :
      (p : ThreadPool) (t : ℕ) (pair : Pair) (rest : List Pair)
      → lookup t p.threads ≡ some idle
      → p.tasks ≡ pair ∷ rest
      → Step p (record (moved t (taken pair.task) p) { tasks = rest })
  begin_task :
      (p : ThreadPool) (t : ℕ) (task : Task)
      → lookup t p.threads ≡ some (taken task)
      → Step p (moved t (doing task) p)
  finish_task :
      (p : ThreadPool) (t k : ℕ)
      → lookup t p.threads ≡ some (doing (user_task k))
      → Step p (record (moved t idle p) { finished = p.finished ++ k ∷ [] })
  eat_apple :
      (p : ThreadPool) (t : ℕ)
      → lookup t p.threads ≡ some (doing poison_apple)
      → Step p (record (moved t dying p) { ready_to_die = p.ready_to_die ++ t ∷ [] })
  -- `while(PAUSE == m_flag)` of SleepingPeel::Do, and the wait in its body
  see_pause :
      (p : ThreadPool) (t : ℕ)
      → lookup t p.threads ≡ some (doing sleeping_peel)
      → p.flag ≡ pause_flag
      → Step p (moved t about_to_wait p)
  see_no_pause :
      (p : ThreadPool) (t : ℕ)
      → lookup t p.threads ≡ some (doing sleeping_peel)
      → p.flag ≢ pause_flag
      → Step p (moved t idle p)
  begin_wait :
      (p : ThreadPool) (t : ℕ)
      → lookup t p.threads ≡ some about_to_wait
      → Step p (moved t waiting p)
  -- a condition variable may wake up without a notification
  wake_up :
      (p : ThreadPool) (t : ℕ)
      → lookup t p.threads ≡ some waiting
      → Step p (moved t (doing sleeping_peel) p)
  end_thread :
      (p : ThreadPool) (t : ℕ) (rest : List ℕ)
      → p.ready_to_die ≡ t ∷ rest
      → lookup t p.threads ≡ some dying
      → Step p (record p { ready_to_die = rest; threads = erase t p.threads })
  call_add : (p : ThreadPool) (k : ℕ) (priority : Priority) → Step p (add (user_task k) priority p)
  call_run : (p : ThreadPool) → Step p (run p)
  call_pause : (p : ThreadPool) → Step p (pause p)

pub data Steps : ThreadPool → ThreadPool → Type 0 where
  done : (p : ThreadPool) → Steps p p
  step : (p q r : ThreadPool) → Step p q → Steps q r → Steps p r
