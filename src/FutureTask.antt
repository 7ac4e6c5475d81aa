-- ===== src/FutureTask.antt =====
-- thread_pool/future_task.hpp and thread_pool/future_task_impl.hpp: tasks that run a function. The
-- promise and the future of boost are an interface, `Promise`; what is asked of it is in `IsPromise`.
pub mod Values
use distributed_disk.Common.{Bool}
use distributed_disk.Common.Exec.{Outcome, ok, fault, and_then}

-- boost::promise with the unique_future that belongs to it: `set_value`, `is_ready` and `get`
pub record Promise (T : Type 0) : Type 1 where
  pub Shared : Type 0
  pub fresh : Shared
  pub set_value : T → Shared → Outcome Shared
  pub is_ready : Shared → Bool
  pub get : Shared → Outcome (T × Shared)

-- FunctionTask: the function of the task changes the world `W`.
pub record FunctionTask (W : Type 0) : Type 0 where
  pub func : W → Outcome W

-- FunctionTask::Do
unfoldable pub do_function : {W : Type 0} → FunctionTask W → W → Outcome W
do_function task w = task.func w

module _ {T : Type 0} (p : Promise T) (W : Type 0) where
  open p use {Shared, fresh, set_value, is_ready, get}

  -- m_promise with m_future_obj, and m_func
  pub record FutureTask : Type 0 where
    pub shared : Shared
    pub func : W → Outcome (T × W)

  -- FutureTask::FutureTask
  unfoldable pub make_future_task : (W → Outcome (T × W)) → FutureTask
  make_future_task func = record { shared = fresh; func = func }

  -- FutureTask::Do
  unfoldable pub do_task : FutureTask → W → Outcome (FutureTask × W)
  do_task task w = and_then (task.func w) λ result.
      and_then (set_value result.0 task.shared)
        λ shared. ok (record task { shared = shared }, result.1)

  -- FutureTask::IsReady
  unfoldable pub task_is_ready : FutureTask → Bool
  task_is_ready task = is_ready task.shared

  -- FutureTask::GetValue
  unfoldable pub get_value : FutureTask → Outcome (T × FutureTask)
  get_value task =
      and_then (get task.shared) λ result. ok (result.0, record task { shared = result.1 })
