-- ===== src/Minion/Start.antt =====
-- How the program of a minion begins (minion_proxy1/minion_exe.cpp): the framework is made, then
-- MinionProxy, whose constructor (minion_proxy1/minion_proxy.cpp) binds a socket to the configured
-- port and registers the proxy for it. The shell commands of `main` that move the commands' libraries
-- to the watched directory are left out: tasks run with both commands registered.
use distributed_disk.Common.{ℕ, Bool, some, List, [], nat_eq, string_eq}
use distributed_disk.Common.Exec.{Outcome, ok, and_then}
use distributed_disk.Config.{ConfigMap}
use distributed_disk.Startup.{read_number}
use distributed_disk.Net.{SockAddr, server_udp_socket}
use distributed_disk.Reactor.{key_eq, make_reactor}
use distributed_disk.Reactor
use distributed_disk.Mediator.{State, register_proxy}
use distributed_disk.Framework.{FrameWork}
use distributed_disk.Framework
use distributed_disk.Framework.Start.{make_framework}
use distributed_disk.Minion.{Minion}
use distributed_disk.Minion.Process.{Process}

abbrev pub inaddr_any : ℕ
inaddr_any = 0

-- The mediator of a new framework
module _ {Proxy : Type 0} where
  new_mediator : Minion → State Proxy (List ℕ) Minion
  new_mediator env = (make_reactor, record { proxy_map = []; tasks = []; env = env })

module _ {Proxy Command : Type 0} where
  -- MinionProxy::MinionProxy: `fd` is what socket() returns, and `bound` whether bind succeeds.
  unfoldable pub make_minion_proxy :
      ConfigMap
      → ℕ
      → Bool
      → Proxy
      → FrameWork Proxy (List ℕ) Minion Command
      → Outcome (SockAddr × FrameWork Proxy (List ℕ) Minion Command)
  make_minion_proxy config fd bound proxy fw = and_then (read_number "PORT_NUM" config) λ port.
      and_then (server_udp_socket inaddr_any port bound)
        λ addr. ok (addr, Framework.register_proxy fd (some proxy) fw)

  -- The two constructors, as `main` calls them
  unfoldable pub start_minion :
      ConfigMap
      → ℕ
      → Bool
      → Proxy
      → Minion
      → Outcome (SockAddr × FrameWork Proxy (List ℕ) Minion Command)
  unfolding make_minion_proxy
  start_minion config fd bound proxy env =
      and_then (make_framework config env) λ s. make_minion_proxy config fd bound proxy s.framework
