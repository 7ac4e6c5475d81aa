-- ===== src/ThreadPool/Resizing.antt =====
-- Resize, and what its poison apples come to.
use distributed_disk.Common.{ℕ, ◌+◌, ◌-◌, ◌≤◌, ◌<◌, ◌≡◌, ap, arith, length, ltb, if_true, if_false}
use native.Mathlib.Decide.{dec_lt}
use distributed_disk.ThreadPool.{
  ThreadPool, poison_apple, insert_special, add_threads, resize, Steps,
}
use distributed_disk.ThreadPool.Totals.{IsUnique}
use distributed_disk.ThreadPool.Counts.{apples, Steps-apples, insert_special-apples}
use distributed_disk.ThreadPool.Calls.{add_threads-apples}

module _ (n : ℕ) (p : ThreadPool) where
  resize_down :
      n < length p.threads → resize n p ≡ insert_special poison_apple (length p.threads - n) p
  unfolding resize
  resize_down fewer = if_true (ltb n (length p.threads)) _ _ (ground arith)

  resize_up : length p.threads ≤ n → resize n p ≡ add_threads (n - length p.threads) p
  unfolding resize
  resize_up more = if_false (ltb n (length p.threads)) _ _ (ground arith)

  -- Shrinking: no thread is gone yet, and there is an apple for each one that is too many.
  down_apples :
      n < length p.threads
      → (apples (resize n p) ≡ (length p.threads - n) + apples p)
        × ((resize n p).threads ≡ p.threads)
  down_apples fewer =
      let (counted, same) = insert_special-apples (length p.threads - n) poison_apple p in
      rw (resize_down fewer) (omega (arith, counted), same)

  up_apples :
      length p.threads ≤ n
      → IsUnique p.threads
      → (apples (resize n p) ≡ apples p)
        × (length (resize n p).threads ≡ n)
        × IsUnique (resize n p).threads
  up_apples more unique =
      let (counted, long, still) = add_threads-apples (n - length p.threads) p unique in
      rw (resize_up more) (counted, omega (arith, long), still)

-- A pool that has no poison apple about is resized: whatever its threads do then, and whatever tasks
-- are added and however often it is paused and run, as soon as every apple has been eaten and its
-- thread has ended, there are as many threads as were asked for.
pub resize_settles :
    (n : ℕ) (p q : ThreadPool)
    → IsUnique p.threads
    → apples p ≡ 0
    → Steps (resize n p) q
    → apples q ≡ 0
    → length q.threads ≡ n
resize_settles n p q unique none_before steps none_after = elim (dec_lt n (length p.threads)) [
  | yes fewer ↦
      let (counted, same) = down_apples n p fewer in
      let balance = Steps-apples (resize n p) q steps (rw same unique) in
      omega (arith, balance, counted, ap length same)
  | no more ↦
      let (counted, long, still) = up_apples n p (omega arith) unique in
      omega (arith, Steps-apples (resize n p) q steps still, counted, long)
]

-- Resize counts the threads of the map, also those for which an apple waits already: asked twice
-- to shrink to n threads, the pool ends up with as many below n as it was above.
pub resize_twice :
    (n : ℕ) (p q : ThreadPool)
    → IsUnique p.threads
    → apples p ≡ 0
    → n < length p.threads
    → Steps (resize n (resize n p)) q
    → apples q ≡ 0
    → length q.threads + length p.threads ≡ n + n
resize_twice n p q unique none_before fewer steps none_after =
    let (counted, same) = down_apples n p fewer in
    let (again, still) = down_apples n (resize n p) (omega (arith, ap length same)) in
    let balance = Steps-apples (resize n (resize n p)) q steps (rw (still, same) unique) in
    omega (arith, balance, counted, again, ap length same, ap length still)
