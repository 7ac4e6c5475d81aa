-- ===== src/Tests/Threads.antt =====
-- The priority queue and the thread pool, on examples.
use distributed_disk.Common.{ℕ, ◌+◌, ◌≡◌, ◌⊎◌, refl, some, List, [], ◌∷◌, arith, length, nat_eq}
use distributed_disk.Common.Dict.{lookup, insert, erase}
use distributed_disk.Queue.{insert_ordered}
use distributed_disk.ThreadPool.{
  Priority, normal, high, critical, user_task, poison_apple, sleeping_peel, Pair, pause_flag,
  run_flag, Doing, idle, doing, about_to_wait, waiting, ThreadPool, add, insert_special, run,
  resize, moved, Step, Steps, done, step, take_task, begin_task, eat_apple, end_thread,
}
use distributed_disk.ThreadPool.Totals.{IsUnique}
use distributed_disk.ThreadPool.Resizing.{resize_settles, resize_twice}
use distributed_disk.ThreadPool.Pausing.{run_missed}

abbrev pair_of : Priority → ℕ → Pair
pair_of priority address = record {
  priority = priority;
  address = address;
  task = user_task address;
}

abbrev three_pairs : List Pair
three_pairs = pair_of normal 1 ∷ pair_of high 2 ∷ pair_of normal 3 ∷ []

-- A pool of two threads, one of them about to wait, and two tasks of the user.
abbrev pool : ThreadPool
pool = record {
  tasks = pair_of high 2 ∷ pair_of normal 1 ∷ [];
  threads = (2, about_to_wait) ∷ (1, idle) ∷ [];
  ready_to_die = [];
  flag = pause_flag;
  next_address = 3;
  finished = [];
}

two_waits : lookup 2 pool.threads ≡ some about_to_wait
unfolding lookup
two_waits = refl

run_missed_example :
    (q : ThreadPool) × Step (run pool) q
    × (q.flag ≡ run_flag)
    × (lookup 2 q.threads ≡ some waiting)
    × ((r : ThreadPool)
        → Step q r
        → (lookup 2 r.threads ≡ some waiting) ⊎ (r ≡ moved 2 (doing sleeping_peel) q) ⊎ (r ≡ run q))
run_missed_example = run_missed pool 2 two_waits

-- Two idle threads and no task: asked to shrink to one, one thread eats the apple and ends.
abbrev two_idle : ThreadPool
two_idle = record {
  tasks = [];
  threads = (2, idle) ∷ (1, idle) ∷ [];
  ready_to_die = [];
  flag = run_flag;
  next_address = 0;
  finished = [];
}

two_idle-IsUnique : IsUnique two_idle.threads
unfolding lookup
two_idle-IsUnique = (refl, (refl, tt))

-- A pool whose thread 2 is at `d`, and what it has left to do.
abbrev shrinking : List Pair → List (ℕ × Doing) → List ℕ → ℕ → ThreadPool
shrinking tasks threads ready next_address = record two_idle {
  tasks = tasks;
  threads = threads;
  ready_to_die = ready;
  next_address = next_address;
}

abbrev apple_pair : ℕ → Pair
apple_pair address = record { priority = critical; address = address; task = poison_apple }

abbrev one_left : ThreadPool
one_left = shrinking [] ((1, idle) ∷ []) [] 1

shrinks : Steps (resize 1 two_idle) one_left
unfolding resize insert_special add lookup insert erase insert_ordered
shrinks = step _ _ one_left (take_task (resize 1 two_idle) 2 (apple_pair 0) [] refl refl) (
    step _ _ one_left (begin_task _ 2 poison_apple refl) (
      step _ _ one_left (eat_apple _ 2 refl)
        (step _ one_left one_left (end_thread _ 2 [] refl refl) (done one_left))))

resize_settles_example : length one_left.threads ≡ 1
resize_settles_example = resize_settles 1 two_idle one_left two_idle-IsUnique refl shrinks refl

-- Asked twice, both end.
abbrev none_left : ThreadPool
none_left = shrinking [] [] [] 2

shrinks_twice : Steps (resize 1 (resize 1 two_idle)) none_left
unfolding resize insert_special add lookup insert erase insert_ordered
shrinks_twice =
    step _ _ none_left
      (take_task (resize 1 (resize 1 two_idle)) 2 (apple_pair 1) (apple_pair 0 ∷ []) refl refl)
      (step _ _ none_left (take_task _ 1 (apple_pair 0) [] refl refl) (
        step _ _ none_left (begin_task _ 2 poison_apple refl) (
          step _ _ none_left (eat_apple _ 2 refl) (
            step _ _ none_left (begin_task _ 1 poison_apple refl) (
              step _ _ none_left (eat_apple _ 1 refl) (
                step _ _ none_left (end_thread _ 2 (1 ∷ []) refl refl)
                  (step _ none_left none_left (end_thread _ 1 [] refl refl) (done none_left))))))))

resize_twice_example : length none_left.threads + length two_idle.threads ≡ 1 + 1
resize_twice_example =
    resize_twice 1 two_idle none_left two_idle-IsUnique refl (omega arith) shrinks_twice refl
