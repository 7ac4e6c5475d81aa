-- ===== src/Mediator.antt =====
-- mediator/mediator.hpp and mediator/mediator.cpp: descriptors, their proxies, and the tasks that
-- their requests become. How a proxy parses is a parameter. The handler of a descriptor in the
-- reactor is `boost::bind(&Mediator::ReactorHandler, this, fd)`: the model keeps the `fd`.
pub mod Registered
pub mod Handled
use distributed_disk.Common.{ℕ, Option, none, some, List, [], ◌∷◌, ◌++◌, nat_eq}
use distributed_disk.Common.Exec.{Outcome, ok, fault, blocked, null_pointer}
use distributed_disk.Common.Dict.{lookup, insert, erase}
use distributed_disk.CmdData.{CmdData}
use distributed_disk.Reactor.{Reactor}
use distributed_disk.Reactor

-- A null pointer in the map is `none`. `tasks` is what was added to the thread pool, oldest first;
-- `env` is what the proxies read from.
pub record Mediator (Proxy Args Env : Type 0) : Type 0 where
  pub proxy_map : List (ℕ × Option Proxy)
  pub tasks : List (CmdData Args)
  pub env : Env

abbrev pub State : Type 0 → Type 0 → Type 0 → Type 0
State Proxy Args Env = Reactor ℕ × Mediator Proxy Args Env

pointer : {Proxy : Type 0} → Option (Option Proxy) → Option Proxy
pointer none = none
pointer (some p) = p

module _ {Proxy Args Env : Type 0} where
  -- Mediator::RegisterProxy
  unfoldable pub register_proxy : ℕ → Option Proxy → State Proxy Args Env → State Proxy Args Env
  register_proxy fd proxy (r, m) =
      (Reactor.add fd Reactor.Mode.read fd r, record m { proxy_map = insert fd proxy m.proxy_map })

  with_reactor : Mediator Proxy Args Env → Outcome (Reactor ℕ) → Outcome (State Proxy Args Env)
  with_reactor m (ok r) = ok (r, m)
  with_reactor m (fault e) = fault e
  with_reactor m blocked = blocked

  -- Mediator::UnRegisterProxy
  unfoldable pub unregister_proxy : ℕ → State Proxy Args Env → Outcome (State Proxy Args Env)
  unfolding with_reactor
  unregister_proxy fd (r, m) =
      with_reactor (record m { proxy_map = erase fd m.proxy_map })
        (Reactor.remove fd Reactor.Mode.read r)

  -- `m_proxy_map[fd]` puts a null pointer where there is nothing.
  index_proxy : ℕ → Mediator Proxy Args Env → Option (Option Proxy) → Mediator Proxy Args Env
  index_proxy fd m none = record m { proxy_map = insert fd none m.proxy_map }
  index_proxy fd m (some p) = m

  module _ (parse_data : Proxy → ℕ → Env → Outcome (CmdData Args × Env)) where
    add_task :
        Reactor ℕ
        → Mediator Proxy Args Env
        → Outcome (CmdData Args × Env)
        → Outcome (State Proxy Args Env)
    add_task r m (ok (data_, env)) = ok (r, record m { tasks = m.tasks ++ data_ ∷ []; env = env })
    add_task r m (fault e) = fault e
    add_task r m blocked = blocked

    parse_with :
        ℕ → Reactor ℕ → Mediator Proxy Args Env → Option Proxy → Outcome (State Proxy Args Env)
    unfolding add_task
    parse_with fd r m none = fault null_pointer
    parse_with fd r m (some proxy) = add_task r m (parse_data proxy fd m.env)

    -- Mediator::ReactorHandler, with GetCmdData and GetTask
    unfoldable pub reactor_handler : ℕ → State Proxy Args Env → Outcome (State Proxy Args Env)
    unfolding parse_with index_proxy pointer
    reactor_handler fd (r, m) =
        parse_with fd r (index_proxy fd m (lookup fd m.proxy_map)) (pointer (lookup fd m.proxy_map))
