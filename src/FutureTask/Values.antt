-- ===== src/FutureTask/Values.antt =====
-- The value of a future task.
use distributed_disk.Common.{◌≡◌, true, false}
use distributed_disk.Common.Exec.{Outcome, ok, fault, blocked, Fault, logic_error}
use distributed_disk.FutureTask.{
  Promise, FutureTask, make_future_task, do_task, task_is_ready, get_value,
}

-- What is asked of boost: a new future is not ready and `get` waits; a value is set once, is given
-- by the first `get`, and a second `set_value` or `get` throws (both exceptions are logic errors).
pub record IsPromise {T : Type 0} (p : Promise T) : Type 0 where
  pub waits : p.get p.fresh ≡ blocked
  pub not_ready : p.is_ready p.fresh ≡ false
  pub sets :
      (t : T)
      → (s s' : p.Shared) × (p.set_value t p.fresh ≡ ok s)
        × (p.is_ready s ≡ true)
        × ((t' : T) → p.set_value t' s ≡ fault logic_error)
        × (p.get s ≡ ok (t, s'))
        × (p.get s' ≡ fault logic_error)

module _ {T : Type 0} (p : Promise T) (W : Type 0) (laws : IsPromise p)
    (func : W → Outcome (T × W)) where
  -- A future task before and after a thread has run it: until then GetValue waits and IsReady is
  -- false. Then IsReady is true, the first GetValue gives what the function returned, and the
  -- second one throws; running the task again throws.
  pub get_value_once :
      (w w' : W) (t : T)
      → func w ≡ ok (t, w')
      → let task = make_future_task p W func in
        (ran read : FutureTask p W) × (get_value p W task ≡ blocked)
        × (task_is_ready p W task ≡ false)
        × (do_task p W task w ≡ ok (ran, w'))
        × (task_is_ready p W ran ≡ true)
        × (get_value p W ran ≡ ok (t, read))
        × (get_value p W read ≡ fault logic_error)
        × ((v v' : W) (t' : T) → func v ≡ ok (t', v') → do_task p W ran v ≡ fault logic_error)
  unfolding make_future_task get_value task_is_ready do_task
  get_value_once w w' t returns =
      let (s, s', set, ready, twice, got, again) = laws.sets t in
      (
        record { shared = s; func = func },
        record { shared = s'; func = func },
        rw laws.waits,
        laws.not_ready,
        rw (returns, set),
        ready,
        rw got,
        rw again,
        λ v v' t' e. rw (e, twice t'),
      )

  -- Where the function throws, Do passes the exception on to the thread of the pool.
  pub do_task_throws :
      (w : W) (e : Fault) → func w ≡ fault e → do_task p W (make_future_task p W func) w ≡ fault e
  unfolding make_future_task do_task
  do_task_throws w e throws = rw throws
