-- ===== src/Tests/Reacting.antt =====
-- A reactor and a mediator with two descriptors, and a master that connects its device.
use distributed_disk.Common.{
  string_eq, nat_eq, ℕ, ◌+◌, ◌≤◌, ◌≡◌, ◌≢◌, refl, true, false, none, some, String, List, [], ◌∷◌,
  ◌++◌, arith, nat_eq, length, All, if◌then◌else◌, ◌==◌,
}
use distributed_disk.Common.Exec.{Outcome, ok, blocked}
use distributed_disk.Common.Dict.{lookup, insert}
use distributed_disk.CmdData.{CmdData}
use distributed_disk.Reactor.{
  FdAndMode, key_eq, Reactor, Selected, ready, select_failed, make_reactor, is_set, add, remove,
  stop, set_args, create_list, invoke_loop, run_loop, run,
}
use distributed_disk.Reactor
use distributed_disk.Reactor.Select.{hits}
use distributed_disk.Reactor.Running.{run_idle}
use distributed_disk.Framework.Turns.{turn_serves}
use distributed_disk.Config.{ConfigMap}
use distributed_disk.Nbd.Setup.{or_throw, check, setup_nbd_fd}
use distributed_disk.Nbd.Proxy.{Device}
use distributed_disk.Connection.{Host}
use distributed_disk.Mediator.{State, register_proxy, reactor_handler}
use distributed_disk.Mediator.Registered.{IsMediator, register_proxy-IsMediator}

-- The handler 0 stops the reactor, any other counts its call.
abbrev call : ℕ → Reactor ℕ × ℕ → Outcome (Reactor ℕ × ℕ)
call h (r, count) = if h == 0 then ok (stop r, count) else ok (r, count + 1)

abbrev two_keys : List (FdAndMode × ℕ)
two_keys = ((3, Reactor.Mode.read), 0) ∷ ((4, Reactor.Mode.write), 7) ∷ []

one_hit : length (hits ((4, Reactor.Mode.write) ∷ []) two_keys) ≤ 1
unfolding hits is_set
one_hit = omega arith

-- A running reactor with both keys, and the same one once it is stopped.
abbrev running : Reactor ℕ
running = record { map = two_keys; fd_handlers_to_invoke = []; stop_flag = false }

abbrev stopped : Reactor ℕ
stopped = record { map = two_keys; fd_handlers_to_invoke = []; stop_flag = true }

stops_first :
    invoke_loop call ((4, Reactor.Mode.write) ∷ (3, Reactor.Mode.read) ∷ []) (running, 0)
    ≡ ok (stopped, 1)
unfolding invoke_loop lookup stop
stops_first = refl

-- A reactor without descriptors.
abbrev idle : Reactor ℕ
idle = record { map = []; fd_handlers_to_invoke = []; stop_flag = true }

not_failed : All (λ (a : Selected). a ≢ select_failed) (ready 0 [] ∷ ready 2 [] ∷ [])
not_failed = ((λ e. cc), ((λ e. cc), tt))

run_idle_example :
    (run call (ready 0 [] ∷ ready 2 [] ∷ []) (idle, 0) ≡ blocked)
    × (run call (ready 0 [] ∷ ready 2 [] ∷ []) (stop idle, 0) ≡ blocked)
run_idle_example = run_idle call (ready 0 [] ∷ ready 2 [] ∷ []) idle 0 not_failed refl refl

-- A mediator without proxies; its proxies are texts, and parsing reads a number from a list.
abbrev empty_state : State String ℕ (List ℕ)
empty_state = (idle, record { proxy_map = []; tasks = []; env = 9 ∷ [] })

abbrev parse : String → ℕ → List ℕ → Outcome (CmdData ℕ × List ℕ)
parse proxy fd [] = blocked
parse proxy fd (n ∷ env) = ok (record { key = proxy; args = n }, env)

empty_state-IsMediator : IsMediator empty_state
unfolding lookup
empty_state-IsMediator = record {
  own = λ key h e. absurd (ground arith);
  served = λ fd h. absurd (h refl);
  handled = λ fd h. absurd (h refl);
}

abbrev one_proxy : State String ℕ (List ℕ)
one_proxy = register_proxy 3 (some "Minion") empty_state

one_proxy-IsMediator : IsMediator one_proxy
one_proxy-IsMediator = register_proxy-IsMediator 3 empty_state empty_state-IsMediator "Minion"

registered-ne : lookup (3, Reactor.Mode.read) one_proxy.0.map ≢ none
unfolding register_proxy Reactor.add lookup insert
registered-ne e = cc

-- The reactor of one_proxy while it runs.
abbrev turning : Reactor ℕ
turning = record one_proxy.0 { stop_flag = false }

turning-IsMediator : IsMediator (turning, one_proxy.1)
turning-IsMediator = record {
  own = one_proxy-IsMediator.own;
  served = one_proxy-IsMediator.served;
  handled = one_proxy-IsMediator.handled;
}

three_ready : hits ((3, Reactor.Mode.read) ∷ []) turning.map ≡ (3, Reactor.Mode.read) ∷ []
unfolding register_proxy Reactor.add insert hits is_set
three_ready = refl

turning_empty : turning.fd_handlers_to_invoke ≡ []
unfolding register_proxy Reactor.add
turning_empty = refl

its_proxy : lookup 3 one_proxy.1.proxy_map ≡ some (some "Minion")
unfolding register_proxy lookup insert
its_proxy = refl

its_env : parse "Minion" 3 one_proxy.1.env ≡ ok (record { key = "Minion"; args = 9 }, [])
unfolding register_proxy
its_env = refl

turn_serves_example :
    run_loop
      (reactor_handler parse)
      (ready 1 ((3, Reactor.Mode.read) ∷ []) ∷ [])
      (turning, one_proxy.1)
    ≡ run_loop (reactor_handler parse) [] (
      turning,
      record one_proxy.1 {
        tasks = one_proxy.1.tasks ++ record { key = "Minion"; args = 9 } ∷ [];
        env = [];
      },
    )
turn_serves_example =
    turn_serves parse 3 ((3, Reactor.Mode.read) ∷ []) [] turning one_proxy.1 "Minion"
      (record { key = "Minion"; args = 9 }) [] turning-IsMediator refl turning_empty three_ready
      registered-ne its_proxy its_env

-- The configuration of a small device, on which every call succeeds
abbrev small_config : ConfigMap
small_config = ("BLOCK_SIZE", "4096") ∷ ("NUM_OF_BLOCKS", "8") ∷ ("DIR_PATH", "/mnt/disk") ∷ []

abbrev willing : Device
willing = record { socketpair = some (5, 6); opened = some 7; ioctl = λ request n. true }

abbrev host : Host String ℕ (List ℕ)
host = record { mediator = empty_state; shells = []; fds = [] }

set_up : setup_nbd_fd willing.socketpair willing.opened willing.ioctl 4096 8 ≡ ok (7, (5, 6))
unfolding setup_nbd_fd or_throw check
set_up = refl
