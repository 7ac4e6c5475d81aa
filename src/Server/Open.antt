-- ===== src/Server/Open.antt =====
-- Which descriptors are registered and which are open, while the server runs.
use distributed_disk.Common.{
  ℕ, ◌≡◌, ◌≢◌, ap, true, false, Option, none, some, List, [], ◌∷◌, ◌++◌, All, nat_eq, close,
  is_in-close, is_in,
}
use distributed_disk.Common.Exec.{Outcome, ok, fault, blocked}
use distributed_disk.Common.Dict.{lookup}
use distributed_disk.Reactor.{FdAndMode, key_eq, Reactor, is_set, set_args, make_reactor}
use distributed_disk.Reactor
use distributed_disk.Reactor.Select.{set_args_lem}
use distributed_disk.Server.{
  Handler, com_udp_cli, accept_tcp_cli, com_tcp_cli, World, Server, call, com_tcp,
}

abbrev pub fd_of : Handler → ℕ
fd_of (com_udp_cli fd) = fd
fd_of (accept_tcp_cli fd) = fd
fd_of (com_tcp_cli fd) = fd

-- An answer of read that is some bytes.
abbrev pub IsMessage : Option (List ℕ) → Type 0
IsMessage none = ⊥
IsMessage (some []) = ⊥
IsMessage (some (b ∷ message)) = Unit {0}

-- Every registered descriptor is open, is one of m_fds, and has a handler of its own.
pub record IsServer (s : Server) : Type 0 where
  pub still_open : (key : FdAndMode) → lookup key s.0.map ≢ none → is_in key.0 s.1.opened ≡ true
  pub kept : (key : FdAndMode) → lookup key s.0.map ≢ none → is_in key.0 s.1.fds ≡ true
  pub own : (key : FdAndMode) (h : Handler) → lookup key s.0.map ≡ some h → fd_of h ≡ key.0

-- A server in order, whose clients go on; or one that waits.
abbrev pub Serves : Outcome Server → Type 0
Serves (ok s) = IsServer s × All IsMessage s.1.reads
Serves (fault e) = ⊥
Serves blocked = Unit {0}

-- A connection is accepted: its descriptor is new in the three places.
module _ (conn_fd : ℕ) (r : Reactor Handler) (w : World) (rest : List (Option ℕ)) where
  abbrev accepted : Server
  accepted = (
    Reactor.add conn_fd Reactor.Mode.read (com_tcp_cli conn_fd) r,
    record w { accepts = rest; fds = w.fds ++ conn_fd ∷ []; opened = conn_fd ∷ w.opened },
  )

-- The server as its constructor leaves it.
module _ (t u : ℕ) (w : World) where
  abbrev made : Server
  made = (
    Reactor.add t Reactor.Mode.read (accept_tcp_cli t)
        (Reactor.add u Reactor.Mode.read (com_udp_cli u) make_reactor),
    record w { fds = u ∷ t ∷ []; opened = u ∷ t ∷ w.opened },
  )

-- When a client ends its connection the descriptor is closed, but it stays registered and stays
-- one of m_fds: select is given a closed descriptor from then on, and the destructor closes it again.
pub disconnect_stays :
    (fd : ℕ) (rest : List (Option (List ℕ))) (r : Reactor Handler) (w : World)
    → IsServer (r, w)
    → lookup (fd, Reactor.Mode.read) r.map ≢ none
    → w.reads ≡ some [] ∷ rest
    → (t : Server) × (call (com_tcp_cli fd) (r, w) ≡ ok t)
      × (is_in fd t.1.opened ≡ false)
      × (is_set (fd, Reactor.Mode.read) (set_args t.0.map).sets ≡ true)
      × (is_in fd t.1.fds ≡ true)
unfolding call com_tcp
disconnect_stays fd rest r w v there ended =
    let (sets, below) = set_args_lem r.map (fd, Reactor.Mode.read) in
    (
      (r, record w { reads = rest; opened = close fd w.opened }),
      ap (com_tcp fd r w) ended,
      is_in-close fd w.opened,
      sets.1 there,
      v.kept (fd, Reactor.Mode.read) there,
    )
