-- ===== src/Net.antt =====
-- UDP sockets (socket/, udpsocket/).
-- The network is a list of arrivals: the answers to the calls of recvfrom, in their order. What the
-- code hands to sendto is recorded in `sent`. Addresses and ports are kept in host order.
use distributed_disk.Common.{
  ℕ, ◌%◌, ◌^◌, Bool, true, false, List, [], ◌∷◌, ◌++◌, take, if◌then◌else◌,
}
use distributed_disk.Common.Bytes.{overlay}
use distributed_disk.Common.Exec.{Outcome, ok, fault, blocked, and_then, terminated, no_return}

pub record SockAddr : Type 0 where
  pub addr : ℕ
  pub port : ℕ

-- Socket::Socket
unfoldable pub make_socket : ℕ → ℕ → SockAddr
make_socket ip port = record { addr = ip % 2 ^ 32; port = port % 2 ^ 16 }

abbrev pub inaddr_loopback : ℕ
inaddr_loopback = 0x7f00_0001

-- ClientUDPSocket::ClientUDPSocket: the address that is passed is not used.
unfoldable pub client_udp_socket : ℕ → ℕ → SockAddr
unfolding make_socket
client_udp_socket ip port = make_socket inaddr_loopback port

-- One answer of recvfrom: a datagram and its sender, or -1 with errno.
pub data Arrival : Type 0 where
  datagram : SockAddr → List ℕ → Arrival
  -- EAGAIN or EWOULDBLOCK: the time-out of four seconds
  try_again : Arrival
  failed : Arrival

pub record Link : Type 0 where
  pub arrivals : List Arrival
  pub sent : List (SockAddr × List ℕ)
  -- m_client_sockaddr of the server's socket: who sent last
  pub client : SockAddr

-- sendto with a length
unfoldable pub send_to : SockAddr → ℕ → List ℕ → Link → Link
send_to to len bytes l = record l { sent = l.sent ++ (to, take len bytes) ∷ [] }

-- What one call of Receive into a buffer gives: the boolean, whether errno asks for another try,
-- and the buffer.
pub record Received : Type 0 where
  pub status : Bool
  pub again : Bool
  pub buffer : List ℕ

unfoldable pub receive_from : ℕ → List ℕ → Link → List Arrival → Outcome (Received × Link)
receive_from len buffer l [] = blocked
receive_from len buffer l (datagram from bytes ∷ rest) = ok (
  record { status = true; again = false; buffer = overlay (take len bytes) buffer },
  record l { arrivals = rest; client = from },
)
receive_from len buffer l (try_again ∷ rest) =
    ok (record { status = false; again = true; buffer = buffer }, record l { arrivals = rest })
receive_from len buffer l (failed ∷ rest) =
    ok (record { status = false; again = false; buffer = buffer }, record l { arrivals = rest })

-- ServerUDPSocket::Receive
unfoldable pub server_receive : ℕ → List ℕ → Link → Outcome (Received × Link)
unfolding receive_from
server_receive len buffer l = receive_from len buffer l l.arrivals

-- ServerUDPSocket::Send goes to whoever sent last.
unfoldable pub server_send : ℕ → List ℕ → Link → Link
unfolding send_to
server_send len bytes l = send_to l.client len bytes l

-- Socket::Bind: `throw;` outside of a handler ends the program.
unfoldable pub bind : Bool → Outcome (Unit {0})
bind success = if success then ok tt else fault terminated

-- ServerUDPSocket::ServerUDPSocket
unfoldable pub server_udp_socket : ℕ → ℕ → Bool → Outcome SockAddr
unfolding make_socket bind
server_udp_socket ip port bound = and_then (bind bound) λ done. ok (make_socket ip port)

-- UDPSocket::Send and UDPSocket::Receive, which no part of the program uses: where the call
-- succeeds, the end of a function that returns a bool is reached without a return.
unfoldable pub udp_socket_send : Bool → Outcome Bool
udp_socket_send success = if success then fault no_return else ok false

unfoldable pub udp_socket_receive : Bool → Outcome Bool
udp_socket_receive success = if success then fault no_return else ok false
