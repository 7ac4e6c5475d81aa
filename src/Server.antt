-- ===== src/Server.antt =====
-- reactor/reactor_server.cpp: a server on the reactor, which answers "pong" to datagrams and on
-- connections. What the system calls answer is given in lists; the descriptors that are open are
-- part of the state. A handler's int is dropped by boost::function<void ()>, so it is not modelled.
pub mod Sockets
pub mod Open
use distributed_disk.Common.{
  ℕ, zero, suc, ◌≡◌, Bool, true, false, Option, none, some, List, [], ◌∷◌, ◌++◌, take, close,
}
use distributed_disk.Common.Exec.{Outcome, ok, fault, blocked, and_then, out_of_range, server_fail}
use distributed_disk.Reactor.{Reactor, make_reactor, Selected}
use distributed_disk.Reactor

-- What is bound to a descriptor: boost::bind of ComUdpCli, AcceptTcpCli or ComTcpCli.
pub data Handler : Type 0 where
  com_udp_cli accept_tcp_cli com_tcp_cli : ℕ → Handler

-- Whom a "pong" goes to: the sender of a datagram, or the other end of a connection.
pub data Peer : Type 0 where
  sender connection : ℕ → Peer

-- m_fds, the open descriptors, the coming answers of recvfrom (a datagram and its sender), accept
-- and read (`none` is -1, an empty list is the end of the connection), what is printed and sent.
pub record World : Type 0 where
  pub fds : List ℕ
  pub opened : List ℕ
  pub datagrams : List (Option (List ℕ × ℕ))
  pub accepts : List (Option ℕ)
  pub reads : List (Option (List ℕ))
  pub printed : List (List ℕ)
  pub ponged : List Peer

abbrev pub Server : Type 0
Server = Reactor Handler × World

-- CreateAndSetUpTCPSocket on the answers of socket, bind and listen: the descriptor or FAIL, and
-- what is open then. CreateAndSetUpUDPSocket does not listen.
unfoldable pub set_up_udp_socket : Option ℕ → Bool → List ℕ → Option ℕ × List ℕ
unfolding close
set_up_udp_socket none bound opened = (none, opened)
set_up_udp_socket (some udp_fd) false opened = (none, close udp_fd (udp_fd ∷ opened))
set_up_udp_socket (some udp_fd) true opened = (some udp_fd, udp_fd ∷ opened)

unfoldable pub set_up_tcp_socket : Option ℕ → Bool → Bool → List ℕ → Option ℕ × List ℕ
unfolding close
set_up_tcp_socket none bound listens opened = (none, opened)
set_up_tcp_socket (some tcp_fd) false listens opened = (none, close tcp_fd (tcp_fd ∷ opened))
set_up_tcp_socket (some tcp_fd) true false opened = (none, close tcp_fd (tcp_fd ∷ opened))
set_up_tcp_socket (some tcp_fd) true true opened = (some tcp_fd, tcp_fd ∷ opened)

-- The answers of the calls of CreateAndSetUpSocket
pub record Answers : Type 0 where
  pub tcp_socket : Option ℕ
  pub tcp_bind : Bool
  pub tcp_listen : Bool
  pub udp_socket : Option ℕ
  pub udp_bind : Bool

after_udp : ℕ → Option ℕ × List ℕ → Option (ℕ × ℕ) × List ℕ
unfolding close
after_udp tcp_fd (none, opened) = (none, close tcp_fd opened)
after_udp tcp_fd (some udp_fd, opened) = (some (tcp_fd, udp_fd), opened)

after_tcp : Answers → Option ℕ × List ℕ → Option (ℕ × ℕ) × List ℕ
unfolding set_up_udp_socket after_udp
after_tcp a (none, opened) = (none, opened)
after_tcp a (some tcp_fd, opened) =
    after_udp tcp_fd (set_up_udp_socket a.udp_socket a.udp_bind opened)

-- CreateAndSetUpSocket: the two descriptors, or false.
unfoldable pub set_up_sockets : Answers → List ℕ → Option (ℕ × ℕ) × List ℕ
unfolding set_up_tcp_socket after_tcp
set_up_sockets a opened =
    after_tcp a (set_up_tcp_socket a.tcp_socket a.tcp_bind a.tcp_listen opened)

-- Server::Server, over what CreateAndSetUpSocket gives
unfoldable pub add_sockets : World → Option (ℕ × ℕ) × List ℕ → Outcome Server
add_sockets w (none, opened) = fault server_fail
add_sockets w (some (tcp_fd, udp_fd), opened) =
    let udp_added = Reactor.add udp_fd Reactor.Mode.read (com_udp_cli udp_fd) make_reactor in
    let r = Reactor.add tcp_fd Reactor.Mode.read (accept_tcp_cli tcp_fd) udp_added in
    ok (r, record w { fds = udp_fd ∷ tcp_fd ∷ []; opened = opened })

unfoldable pub make_server : Answers → World → Outcome Server
unfolding set_up_sockets add_sockets
make_server a w = add_sockets w (set_up_sockets a w.opened)

-- Server::ComUdpCli: nine bytes of the datagram are printed, and "pong" goes to its sender.
com_udp : Reactor Handler → World → List (Option (List ℕ × ℕ)) → Outcome Server
com_udp r w [] = blocked
com_udp r w (none ∷ rest) = ok (r, record w { datagrams = rest })
com_udp r w (some (message, from) ∷ rest) = ok (
  r,
  record w {
    datagrams = rest;
    printed = w.printed ++ take 9 message ∷ [];
    ponged = w.ponged ++ sender from ∷ [];
  },
)

-- Server::AcceptTcpCli
accept_tcp : Reactor Handler → World → List (Option ℕ) → Outcome Server
accept_tcp r w [] = blocked
accept_tcp r w (none ∷ rest) = ok (r, record w { accepts = rest })
accept_tcp r w (some conn_fd ∷ rest) = ok (
  Reactor.add conn_fd Reactor.Mode.read (com_tcp_cli conn_fd) r,
  record w { accepts = rest; fds = w.fds ++ conn_fd ∷ []; opened = conn_fd ∷ w.opened },
)

-- Server::ComTcpCli. `buff[read_len] = '\0'` stands before the test of read_len: with -1 it writes
-- ahead of the array.
com_tcp : ℕ → Reactor Handler → World → List (Option (List ℕ)) → Outcome Server
unfolding close
com_tcp fd r w [] = blocked
com_tcp fd r w (none ∷ rest) = fault out_of_range
com_tcp fd r w (some [] ∷ rest) = ok (r, record w { reads = rest; opened = close fd w.opened })
com_tcp fd r w (some (b ∷ message) ∷ rest) = ok (
  r,
  record w {
    reads = rest;
    printed = w.printed ++ take 9 (b ∷ message) ∷ [];
    ponged = w.ponged ++ connection fd ∷ [];
  },
)

unfoldable pub call : Handler → Server → Outcome Server
unfolding com_udp accept_tcp com_tcp
call (com_udp_cli fd) (r, w) = com_udp r w w.datagrams
call (accept_tcp_cli fd) (r, w) = accept_tcp r w w.accepts
call (com_tcp_cli fd) (r, w) = com_tcp fd r w w.reads

-- Server::Run and Server::Stop
unfoldable pub run : List Selected → Server → Outcome Server
unfolding call
run answers s = Reactor.run call answers s

unfoldable pub stop : Server → Server
stop (r, w) = (Reactor.stop r, w)

-- Server::~Server: every descriptor of m_fds is closed. What is closed twice could be another's.
unfoldable pub close_all : List ℕ → List ℕ → List ℕ
unfolding close
close_all [] opened = opened
close_all (fd ∷ fds) opened = close_all fds (close fd opened)

unfoldable pub delete_server : Server → List ℕ
unfolding close_all
delete_server (r, w) = close_all w.fds w.opened
