-- ===== src/Framework/Ready.antt =====
-- What the pool of a new framework is like.
use distributed_disk.Common.{ℕ, ◌≡◌, length, All, string_eq, nat_eq}
use distributed_disk.ThreadPool.{ThreadPool}
use distributed_disk.ThreadPool.Totals.{IsUnique}
use distributed_disk.ThreadPool.Counts.{apples}
use distributed_disk.ThreadPool.Pausing.{IsPeel}

-- A pool with n threads, a sleeping peel for each of them, and nothing else in its queue.
pub record IsReady (n : ℕ) (p : ThreadPool) : Type 0 where
  pub long : length p.threads ≡ n
  pub unique : IsUnique p.threads
  pub no_apples : apples p ≡ 0
  pub peels : All IsPeel p.tasks
  pub one_each : length p.tasks ≡ n
