-- ===== src/ThreadPool/Calls.antt =====
-- The calls of the user: what they do to the numbers of threads and of poison apples.
use distributed_disk.Common.{
  ℕ, zero, suc, ◌+◌, ◌≤◌, ◌≡◌, refl, none, List, [], ◌∷◌, arith, length, nat_eq, nat_eqb_iff,
}
use distributed_disk.Common.Dict.{lookup}
use distributed_disk.ThreadPool.{Doing, idle, ThreadPool, new_id, add_threads}
use distributed_disk.ThreadPool.Totals.{IsUnique}
use distributed_disk.ThreadPool.Counts.{apples}

-- Threads that are added.
lookup-new_id : (threads : List (ℕ × Doing)) (t : ℕ) → new_id threads ≤ t → lookup t threads ≡ none
unfolding new_id lookup
lookup-new_id [] t h = refl
lookup-new_id ((s, d) ∷ threads) t h = ground (arith, nat_eqb_iff s t, lookup-new_id threads t)

pub add_threads-apples :
    (n : ℕ) (p : ThreadPool)
    → IsUnique p.threads
    → (apples (add_threads n p) ≡ apples p)
      × (length (add_threads n p).threads ≡ n + length p.threads)
      × IsUnique (add_threads n p).threads
unfolding add_threads
add_threads-apples zero p u = (refl, omega arith, u)
add_threads-apples (suc n) p u =
    let (counted, long, unique) =
      add_threads-apples n (record p { threads = (new_id p.threads, idle) ∷ p.threads })
        (lookup-new_id p.threads (new_id p.threads) (omega arith), u) in
    (omega arith, omega arith, unique)

pub add_threads-tasks : (n : ℕ) (p : ThreadPool) → (add_threads n p).tasks ≡ p.tasks
unfolding add_threads
add_threads-tasks zero p = refl
add_threads-tasks (suc n) p =
    add_threads-tasks n (record p { threads = (new_id p.threads, idle) ∷ p.threads })
