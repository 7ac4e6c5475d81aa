-- ===== src/Tests/Running.antt =====
-- The server on the reactor, with one connection.
use distributed_disk.Common.{
  ◌≡◌, ◌≢◌, refl, true, false, none, some, List, [], ◌∷◌, arith, nat_eq, is_in,
}
use distributed_disk.Common.Exec.{ok}
use distributed_disk.Common.Dict.{lookup}
use distributed_disk.Reactor.{
  FdAndMode, key_eq, same_key_iff, Reactor, Selected, ready, select_failed, is_set, set_args,
}
use distributed_disk.Reactor
use distributed_disk.Server.{
  Handler, com_udp_cli, accept_tcp_cli, com_tcp_cli, World, Server, Answers, call,
}
use distributed_disk.Server.Open.{IsServer, disconnect_stays}

-- The second socket cannot be bound.
abbrev unbound : Answers
unbound = record {
  tcp_socket = some 3;
  tcp_bind = true;
  tcp_listen = true;
  udp_socket = some 4;
  udp_bind = false;
}

abbrev bound : Answers
bound = record unbound { udp_bind = true }

-- A client connects and says something.
abbrev world : World
world = record {
  fds = [];
  opened = 0 ∷ [];
  datagrams = [];
  accepts = some 5 ∷ [];
  reads = some (b'p' ∷ b'i' ∷ []) ∷ [];
  printed = [];
  ponged = [];
}

abbrev fresh_server : Server
fresh_server = (
  record {
    map = ((4, Reactor.Mode.read), com_udp_cli 4) ∷ ((3, Reactor.Mode.read), accept_tcp_cli 3) ∷ [];
    fd_handlers_to_invoke = [];
    stop_flag = true;
  },
  record world { fds = 4 ∷ 3 ∷ []; opened = 4 ∷ 3 ∷ 0 ∷ [] },
)

abbrev two_turns : List Selected
two_turns = ready 1 ((3, Reactor.Mode.read) ∷ []) ∷ ready 1 ((5, Reactor.Mode.read) ∷ []) ∷ []

-- The same server when its one connection ends.
abbrev connected : Reactor Handler
connected = record {
  map = ((5, Reactor.Mode.read), com_tcp_cli 5) ∷ [];
  fd_handlers_to_invoke = [];
  stop_flag = false;
}

abbrev ending : World
ending = record world { fds = 5 ∷ []; opened = 5 ∷ []; reads = some [] ∷ [] }

connected-IsServer : IsServer (connected, ending)
unfolding lookup is_in
connected-IsServer = record {
  still_open = λ key there. ground (arith, same_key_iff (5, Reactor.Mode.read) key);
  kept = λ key there. ground (arith, same_key_iff (5, Reactor.Mode.read) key);
  own = λ key h found. ground (arith, same_key_iff (5, Reactor.Mode.read) key);
}

five_there : lookup (5, Reactor.Mode.read) connected.map ≢ none
unfolding lookup
five_there e = cc

disconnect_stays_example :
    (t : Server) × (call (com_tcp_cli 5) (connected, ending) ≡ ok t)
    × (is_in 5 t.1.opened ≡ false)
    × (is_set (5, Reactor.Mode.read) (set_args t.0.map).sets ≡ true)
    × (is_in 5 t.1.fds ≡ true)
disconnect_stays_example = disconnect_stays 5 [] connected ending connected-IsServer five_there refl
