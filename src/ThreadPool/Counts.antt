-- ===== src/ThreadPool/Counts.antt =====
-- Threads and poison apples: what a step does to their numbers.
use native.Mathlib.Nat.{suc-mul}
use distributed_disk.Common.{
  ℕ, zero, suc, ◌+◌, ◌*◌, ◌≡◌, refl, ap, none, some, List, [], ◌∷◌, arith, length, nat_eq,
}
use distributed_disk.Common.Dict.{lookup}
use distributed_disk.Queue.{insert_ordered}
use distributed_disk.ThreadPool.Totals.{
  total, IsUnique, total-insert, length-insert, insert-IsUnique, total-erase, length-erase,
  erase-IsUnique,
}
use distributed_disk.ThreadPool.{
  Task, user_task, poison_apple, sleeping_peel, Pair, less_pair, Doing, idle, taken, doing,
  about_to_wait, waiting, dying, ThreadPool, moved, Step, take_task, begin_task, finish_task,
  eat_apple, see_pause, see_no_pause, begin_wait, wake_up, end_thread, call_add, call_run,
  call_pause, run, pause, notify_all, wake, add, insert_special, critical, pause_flag, Steps, done,
  step,
}

-- One for a poison apple.
abbrev pub apple : Task → ℕ
apple poison_apple = 1
apple _ = 0

abbrev pub apple_of : Doing → ℕ
apple_of (taken task) = apple task
apple_of (doing task) = apple task
apple_of dying = 1
apple_of _ = 0

abbrev pub apples_in : List Pair → ℕ
apples_in [] = 0
apples_in (pair ∷ tasks) = apple pair.task + apples_in tasks

abbrev pub apples_on : List (ℕ × Doing) → ℕ
apples_on = total apple_of

-- The poison apples in the queue, and those that a thread has taken and not died of yet.
abbrev pub apples : ThreadPool → ℕ
apples p = apples_in p.tasks + apples_on p.threads

pub apples_in-insert_ordered :
    (pair : Pair) (tasks : List Pair)
    → apples_in (insert_ordered less_pair pair tasks) ≡ apple pair.task + apples_in tasks
unfolding insert_ordered
apples_in-insert_ordered pair [] = refl
apples_in-insert_ordered pair (q ∷ tasks) = ground (arith, apples_in-insert_ordered pair tasks)

-- A thread that goes on and keeps its apple, if it has one.
goes_on :
    (t : ℕ) (d d' : Doing) (p : ThreadPool)
    → lookup t p.threads ≡ some d
    → apple_of d ≡ apple_of d'
    → length (moved t d' p).threads + apples p ≡ length p.threads + apples (moved t d' p)
goes_on t d d' p here same =
    omega (arith, total-insert t d d' apple_of p.threads here, length-insert t d d' p.threads here)

-- The calls that put special tasks in the queue.
pub insert_special-apples :
    (n : ℕ) (task : Task) (p : ThreadPool)
    → (apples (insert_special task n p) ≡ n * apple task + apples p)
      × ((insert_special task n p).threads ≡ p.threads)
unfolding insert_special add
insert_special-apples zero task p = (omega arith, refl)
insert_special-apples (suc n) task p =
    let (counted, same) = insert_special-apples n task (add task critical p) in
    (
      omega (
        arith,
        counted,
        apples_in-insert_ordered
            (record { priority = critical; address = p.next_address; task = task }) p.tasks,
        suc-mul n (apple task),
      ),
      same,
    )

-- notify_all changes what waiting threads do, and nothing else.
pub notify_all-counts :
    (threads : List (ℕ × Doing))
    → (apples_on (notify_all threads) ≡ apples_on threads)
      × (length (notify_all threads) ≡ length threads)
unfolding notify_all wake
notify_all-counts [] = (refl, refl)
notify_all-counts ((t, waiting) ∷ threads) =
    let (a, l) = notify_all-counts threads in (ap (λ n. 0 + n) a, ap suc l)
notify_all-counts ((t, idle) ∷ threads) =
    let (a, l) = notify_all-counts threads in (ap (λ n. 0 + n) a, ap suc l)
notify_all-counts ((t, taken task) ∷ threads) =
    let (a, l) = notify_all-counts threads in (ap (λ n. apple task + n) a, ap suc l)
notify_all-counts ((t, doing task) ∷ threads) =
    let (a, l) = notify_all-counts threads in (ap (λ n. apple task + n) a, ap suc l)
notify_all-counts ((t, about_to_wait) ∷ threads) =
    let (a, l) = notify_all-counts threads in (ap (λ n. 0 + n) a, ap suc l)
notify_all-counts ((t, dying) ∷ threads) =
    let (a, l) = notify_all-counts threads in (ap (λ n. 1 + n) a, ap suc l)

lookup-notify_all :
    (t : ℕ) (threads : List (ℕ × Doing))
    → lookup t threads ≡ none
    → lookup t (notify_all threads) ≡ none
unfolding lookup notify_all
lookup-notify_all t [] h = refl
lookup-notify_all t ((s, d) ∷ threads) h = ground (arith, lookup-notify_all t threads)

pub notify_all-IsUnique :
    (threads : List (ℕ × Doing)) → IsUnique threads → IsUnique (notify_all threads)
unfolding notify_all
notify_all-IsUnique [] u = tt
notify_all-IsUnique ((t, d) ∷ threads) u =
    (lookup-notify_all t threads u.0, notify_all-IsUnique threads u.1)

-- The threads that there would be if every apple had been eaten stay the same.
pub Step-apples :
    (p q : ThreadPool)
    → Step p q
    → IsUnique p.threads
    → (length q.threads + apples p ≡ length p.threads + apples q) × IsUnique q.threads
unfolding add run pause
Step-apples p q (take_task _ t pair rest here front) u = (
  omega (
    arith,
    total-insert t idle (taken pair.task) apple_of p.threads here,
    length-insert t idle (taken pair.task) p.threads here,
    ap apples_in front,
  ),
  insert-IsUnique t _ p.threads u,
)
Step-apples p q (begin_task _ t task here) u =
    (goes_on t (taken task) (doing task) p here refl, insert-IsUnique t _ p.threads u)
Step-apples p q (finish_task _ t k here) u =
    (goes_on t (doing (user_task k)) idle p here refl, insert-IsUnique t _ p.threads u)
Step-apples p q (eat_apple _ t here) u =
    (goes_on t (doing poison_apple) dying p here refl, insert-IsUnique t _ p.threads u)
Step-apples p q (see_pause _ t here on) u =
    (goes_on t (doing sleeping_peel) about_to_wait p here refl, insert-IsUnique t _ p.threads u)
Step-apples p q (see_no_pause _ t here off) u =
    (goes_on t (doing sleeping_peel) idle p here refl, insert-IsUnique t _ p.threads u)
Step-apples p q (begin_wait _ t here) u =
    (goes_on t about_to_wait waiting p here refl, insert-IsUnique t _ p.threads u)
Step-apples p q (wake_up _ t here) u =
    (goes_on t waiting (doing sleeping_peel) p here refl, insert-IsUnique t _ p.threads u)
Step-apples p q (end_thread _ t rest dead here) u = (
  omega
      (arith, total-erase apple_of t dying p.threads u here, length-erase t dying p.threads u here),
  erase-IsUnique t p.threads u,
)
Step-apples p q (call_add _ k priority) u = (
  omega (
    arith,
    apples_in-insert_ordered
        (record { priority = priority; address = p.next_address; task = user_task k }) p.tasks,
  ),
  u,
)
Step-apples p q (call_run _) u =
    let (a, l) = notify_all-counts p.threads in
    (omega (arith, a, l), notify_all-IsUnique p.threads u)
Step-apples p q (call_pause _) u =
    let (counted, same) =
      insert_special-apples (length p.threads) sleeping_peel (record p { flag = pause_flag }) in
    (omega (arith, counted, ap length same), rw same u)

pub Steps-apples :
    (p q : ThreadPool)
    → Steps p q
    → IsUnique p.threads
    → length q.threads + apples p ≡ length p.threads + apples q
Steps-apples p q (done _) u = refl
Steps-apples p q (step _ r _ first more) u =
    let (balance, unique) = Step-apples p r first u in omega (arith, Steps-apples r q more unique)
