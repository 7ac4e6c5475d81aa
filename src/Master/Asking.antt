-- ===== src/Master/Asking.antt =====
-- CommunicateMinion: how often it asks, and what it returns.
use distributed_disk.Common.{
  ℕ, zero, suc, ◌≡◌, refl, ◌∙◌, true, false, List, [], ◌∷◌, ◌++◌, arith, take, take-length,
}
use distributed_disk.Common.Bytes.{overlay}
use distributed_disk.Common.Exec.{ok, blocked}
use distributed_disk.Protocol.{Request, Reply, IsReply, reply_size, reply_bytes, bytes_reply}
use distributed_disk.Protocol.Layout.{
  request_head, take-request_bytes, overlay-reply_bytes, length-reply_bytes,
}
use distributed_disk.Minions.{MinionData}
use distributed_disk.Net.{
  SockAddr, client_udp_socket, Arrival, datagram, try_again, failed, Link, send_to,
}
use distributed_disk.Master.{Master, await, communicate_minion}

-- Arrivals that begin with `k` time-outs.
abbrev pub tries : ℕ → List Arrival → List Arrival
tries zero rest = rest
tries (suc k) rest = try_again ∷ tries k rest

-- What has been sent after `k` more datagrams.
abbrev pub asks : ℕ → SockAddr → List ℕ → List (SockAddr × List ℕ) → List (SockAddr × List ℕ)
asks zero to bytes sent = sent
asks (suc k) to bytes sent = asks k to bytes (sent ++ (to, bytes) ∷ [])

abbrev pub after_asks : ℕ → SockAddr → Request → List Arrival → Link → Link
after_asks k to request rest l = record l {
  arrivals = rest;
  sent = asks k to (request_head request) l.sent;
}

module _ (to : SockAddr) (request : Request) (reply : Reply) (rest : List Arrival) where
  pub await_answer :
      (k : ℕ) (l : Link) (from : SockAddr) (bytes : List ℕ)
      → await (tries k (datagram from bytes ∷ rest)) to request reply l
        ≡ ok (
          record {
            status = true;
            reply = bytes_reply (overlay (take reply_size bytes) (reply_bytes reply));
          },
          after_asks k to request rest l,
        )
  unfolding await send_to
  await_answer zero l from bytes = refl
  await_answer (suc k) l from bytes = await_answer k _ from bytes ∙ rw (take-request_bytes request)

  pub await_failure :
      (k : ℕ) (l : Link)
      → await (tries k (failed ∷ rest)) to request reply l
        ≡ ok (record { status = false; reply = reply }, after_asks k to request rest l)
  unfolding await send_to
  await_failure zero l = refl
  await_failure (suc k) l = await_failure k _ ∙ rw (take-request_bytes request)

await_waits :
    (to : SockAddr) (request : Request) (reply : Reply) (k : ℕ) (l : Link)
    → await (tries k []) to request reply l ≡ blocked
unfolding await
await_waits to request reply zero l = refl
await_waits to request reply (suc k) l = await_waits to request reply k _

-- Master after `k` more datagrams to a minion.
abbrev pub asked : ℕ → MinionData → Request → List Arrival → Master → Master
asked k minion request rest m = record m {
  link = record m.link {
    arrivals = rest;
    sent = asks k (client_udp_socket minion.ip minion.port) (request_head request) m.link.sent;
  };
}

module _ (k : ℕ) (minion : MinionData) (request : Request) (junk : Reply) (rest : List Arrival)
    (m : Master) where
  -- After k time-outs and a whole reply: the header of the request was sent k + 1 times to the
  -- minion's port, and the reply comes back unchanged.
  pub communicate_minion_answer :
      (from : SockAddr) (rep : Reply)
      → m.link.arrivals ≡ tries k (datagram from (reply_bytes rep) ∷ rest)
      → IsReply rep
      → IsReply junk
      → communicate_minion minion request junk m
        ≡ ok (record { status = true; reply = rep }, asked (suc k) minion request rest m)
  unfolding communicate_minion send_to
  communicate_minion_answer from rep e v w = rw (
    e,
    await_answer (client_udp_socket minion.ip minion.port) request junk rest k _ from
        (reply_bytes rep),
    take-length reply_size (reply_bytes rep) (omega (arith, length-reply_bytes rep v)),
    overlay-reply_bytes rep junk v w,
    take-request_bytes request,
  )

  -- After k time-outs and an error: the same was sent, and the status is false.
  pub communicate_minion_failure :
      m.link.arrivals ≡ tries k (failed ∷ rest)
      → communicate_minion minion request junk m
        ≡ ok (record { status = false; reply = junk }, asked (suc k) minion request rest m)
  unfolding communicate_minion send_to
  communicate_minion_failure e = rw (
    e,
    await_failure (client_udp_socket minion.ip minion.port) request junk rest k _,
    take-request_bytes request,
  )

  -- As long as there are only time-outs, CommunicateMinion does not return.
  pub communicate_minion_waits :
      m.link.arrivals ≡ tries k [] → communicate_minion minion request junk m ≡ blocked
  unfolding communicate_minion
  communicate_minion_waits e =
      rw (e, await_waits (client_udp_socket minion.ip minion.port) request junk k _)
