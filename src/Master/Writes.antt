-- ===== src/Master/Writes.antt =====
-- WriteCmd: what goes to the minions, and what the device is told.
use mathlib.Core.Path.{fun_ext}
use distributed_disk.Common.{
  ℕ, suc, ◌+◌, ◌%◌, ◌^◌, ◌≡◌, ◌≢◌, refl, ap, ◌∙◌, Bool, true, false, ◌||◌, some, List, [], ◌∷◌,
  ◌++◌, arith, length, take, if◌then◌else◌,
}
use distributed_disk.Common.Bytes.{overlay}
use distributed_disk.Common.Exec.{ok, ◌>>=◌, ◌>>◌, pure}
use distributed_disk.Protocol.{
  Block, Request, Reply, reply_size, reply_bytes, bytes_reply, make_request, translate_request,
  request_bytes, request_header,
}
use distributed_disk.Protocol.Layout.{request_head, take-request_bytes}
use distributed_disk.Raid
use distributed_disk.Minions.{MinionData}
use distributed_disk.Minions
use distributed_disk.Net.{
  SockAddr, client_udp_socket, Arrival, datagram, try_again, failed, Link, send_to,
}
use distributed_disk.Nbd.{IoResult, CmdArgs}
use distributed_disk.Master.{
  Master, Answer, choose_minions, get_minions_data, translate, await, communicate_minion, has_error,
  write_both, write_cmd, log_error, reply,
}
use distributed_disk.Master.Asking.{tries, asked, await_answer, await_failure}
use distributed_disk.Master.Reads.{Takes, wrote, reply_total}

-- CommunicateMinion sees the header of the request only.
module _ (to : SockAddr) (p q : Request) (same : request_head p ≡ request_head q) where
  send_to-head :
      (l : Link)
      → send_to to request_header (request_bytes p) l
        ≡ send_to to request_header (request_bytes q) l
  unfolding send_to
  send_to-head l = rw (take-request_bytes p, take-request_bytes q, same)

  await-head :
      (arrivals : List Arrival) (rep : Reply) (l : Link)
      → await arrivals to p rep l ≡ await arrivals to q rep l
  unfolding await
  await-head [] rep l = refl
  await-head (datagram from bytes ∷ rest) rep l = refl
  await-head (try_again ∷ rest) rep l =
      await-head rest rep _ ∙ ap (await rest to q rep) (send_to-head (record l { arrivals = rest }))
  await-head (failed ∷ rest) rep l = refl

communicate_minion-head :
    (minion : MinionData) (p q : Request)
    → request_head p ≡ request_head q
    → communicate_minion minion p ≡ communicate_minion minion q
unfolding communicate_minion
communicate_minion-head minion p q same = fun_ext λ rep. fun_ext λ m.
    let to = client_udp_socket minion.ip minion.port in
    rw (await-head to p q same m.link.arrivals rep, send_to-head to p q same m.link)

make_request-head :
    (id type offset : ℕ) (b c : Block)
    → request_head (make_request id type offset (some b))
      ≡ request_head (make_request id type offset (some c))
unfolding request_head make_request
make_request-head id type offset b c = refl

write_both-head :
    (args : CmdArgs) (block : Block) (junk1 junk2 : Reply) (min1 min2 : MinionData) (p q : Request)
    → request_head p ≡ request_head q
    → write_both args junk1 junk2 min1 min2 p
      ≡ write_both (record args { block = block }) junk1 junk2 min1 min2 q
unfolding write_both
write_both-head args block junk1 junk2 min1 min2 p q same =
    rw (communicate_minion-head min1 p q same, communicate_minion-head min2 p q same)

-- A write does the same whatever block it is given: the same datagrams, the same reply to the
-- device, the same state of the master. The block is never sent.
pub write_cmd-block :
    (junk1 junk2 : Reply) (args : CmdArgs) (block : Block) (m : Master)
    → write_cmd junk1 junk2 args m ≡ write_cmd junk1 junk2 (record args { block = block }) m
unfolding write_cmd translate translate_request
write_cmd-block junk1 junk2 args block m i =
    (choose_minions args.key >>= λ minions. get_minions_data minions.0 >>= λ min1.
    get_minions_data minions.1 >>= λ min2. λ s.
      let id = (s.id_conter + 1) % 2 ^ 64 in
      write_both-head args block junk1 junk2 min1 min2
        (make_request id 2 args.key (some args.block)) (make_request id 2 args.key (some block))
        (make_request-head id 2 args.key args.block block) i (record s { id_conter = id }))
      m

-- What CommunicateMinion returns at an arrival that ends its loop.
abbrev pub answer_of : Arrival → Reply → Answer
answer_of (datagram from bytes) junk = record {
  status = true;
  reply = bytes_reply (overlay (take reply_size bytes) (reply_bytes junk));
}
answer_of _ junk = record { status = false; reply = junk }

communicate_minion_final :
    (k : ℕ) (minion : MinionData) (request : Request) (junk : Reply) (x : Arrival)
    (rest : List Arrival) (m : Master)
    → m.link.arrivals ≡ tries k (x ∷ rest)
    → x ≢ try_again
    → communicate_minion minion request junk m
      ≡ ok (answer_of x junk, asked (suc k) minion request rest m)
unfolding communicate_minion send_to
communicate_minion_final k minion request junk (datagram from bytes) rest m e h = rw (
  e,
  await_answer (client_udp_socket minion.ip minion.port) request junk rest k _ from bytes,
  take-request_bytes request,
)
communicate_minion_final k minion request junk try_again rest m e h = absurd (h refl)
communicate_minion_final k minion request junk failed rest m e h = rw (
  e,
  await_failure (client_udp_socket minion.ip minion.port) request junk rest k _,
  take-request_bytes request,
)

-- The line that WriteCmd logs on an error.
abbrev pub logged : Bool → Master → Master
logged error m = if error then record m { log = m.log ++ "error in writing block" ∷ [] } else m

finish :
    (args : CmdArgs) (error : Bool) (m : Master)
    → Takes (length args.reply) m
    → (left : List IoResult) × (((if error then log_error "error in writing block" else pure tt)
            >> reply args.fd args.reply)
          m
        ≡ ok (tt, wrote args.fd args.reply left (logged error m)))
unfolding log_error
finish args true m takes =
    let (left, e, t) =
      reply_total args.fd 0 args.reply (logged true m)
        (record { moves = takes.moves; enough = omega (arith, takes.enough) }) in
    (left, e)
finish args false m takes =
    let (left, e, t) =
      reply_total args.fd 0 args.reply m
        (record { moves = takes.moves; enough = omega (arith, takes.enough) }) in
    (left, e)

abbrev pub write_request : CmdArgs → Master → Request
write_request args m = make_request ((m.id_conter + 1) % 2 ^ 64) 2 args.key (some args.block)

module _ (junk1 junk2 : Reply) (args : CmdArgs) (m : Master) (a b : ℕ) (min1 min2 : MinionData)
    (chosen : Raid.choose_minions m.raid args.key ≡ ok (a, b))
    (first : Minions.get_minions_data m.manager a ≡ some min1)
    (second : Minions.get_minions_data m.manager b ≡ some min2) where
  abbrev pub told : ℕ → ℕ → Arrival → List Arrival → Master
  told j k y rest = asked (suc k) min2 (write_request args m) rest (
      asked (suc j) min1 (write_request args m) (tries k (y ∷ rest))
        (record m { id_conter = (m.id_conter + 1) % 2 ^ 64 }))

  abbrev pub either_error : Arrival → Arrival → Bool
  either_error x y = has_error (answer_of x junk1).reply || has_error (answer_of y junk2).reply

  -- Both minions are asked, each until it answers or fails. Then, whatever they answered and even
  -- if they failed, the device is told that the write has succeeded; an error code in a reply, or
  -- in the uninitialised bytes where none came, is logged.
  pub write_cmd_acknowledges :
      (j k : ℕ) (x y : Arrival) (rest : List Arrival)
      → m.link.arrivals ≡ tries j (x ∷ tries k (y ∷ rest))
      → x ≢ try_again
      → y ≢ try_again
      → Takes (length args.reply) m
      → (left : List IoResult) × (write_cmd junk1 junk2 args m
          ≡ ok (tt, wrote args.fd args.reply left (logged (either_error x y) (told j k y rest))))
  unfolding write_cmd write_both choose_minions get_minions_data translate translate_request
  write_cmd_acknowledges j k x y rest arrived hx hy takes =
      let (left, e) =
        finish args (either_error x y) (told j k y rest)
          (record { moves = takes.moves; enough = takes.enough }) in
      (
        left,
        rw
            (
              chosen,
              first,
              second,
              communicate_minion_final j min1 (write_request args m) junk1 x (tries k (y ∷ rest))
                  (record m { id_conter = (m.id_conter + 1) % 2 ^ 64 }) arrived hx,
              communicate_minion_final k min2 (write_request args m) junk2 y rest
                  (asked (suc j) min1 (write_request args m) (tries k (y ∷ rest))
                    (record m { id_conter = (m.id_conter + 1) % 2 ^ 64 }))
                  refl hy,
            )
            e,
      )
