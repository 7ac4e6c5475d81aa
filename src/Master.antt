-- ===== src/Master.antt =====
-- The master: master/master.hpp and master/master.cpp, and the commands commands/read_command.cpp
-- and commands/write_command.cpp that the device's requests become.
pub mod Asking
pub mod Reads
pub mod Writes
use distributed_disk.Common.{
  ℕ, ◌+◌, String, Bool, true, false, Option, none, some, List, [], ◌∷◌, ◌++◌, ◌||◌, not,
  if◌then◌else◌, ◌==◌, nat_eq, string_eq, take,
}
use distributed_disk.Common.Bytes.{overlay}
use distributed_disk.Common.Exec.{
  Outcome, ok, fault, blocked, out_of_range, Exec, ◌>>=◌, ◌>>◌, pure, lift,
}
use distributed_disk.Protocol.{
  Block, block_size, Request, Reply, request_header, reply_size, request_bytes, reply_bytes,
  bytes_reply, translate_request,
}
use distributed_disk.Raid.{Raid}
use distributed_disk.Raid
use distributed_disk.Minions.{MinionData, MinionManager}
use distributed_disk.Minions
use distributed_disk.Net.{
  SockAddr, client_udp_socket, Arrival, datagram, try_again, failed, Link, send_to,
}
use distributed_disk.Nbd.{Stream, CmdArgs, write_all}
use distributed_disk.Factory.{Factory}
use distributed_disk.Factory
use distributed_disk.CmdData.{CmdData}

-- The members of Master, the counter of ProtocolTranslator, the network, the socket of the device
-- and the error lines logged.
pub record Master : Type 0 where
  pub raid : Raid
  pub manager : MinionManager
  pub id_conter : ℕ
  pub link : Link
  pub stream : Stream
  pub log : List String

-- Master::ChooseMinions
unfoldable pub choose_minions : ℕ → Exec Master (ℕ × ℕ)
choose_minions offset m = lift (Raid.choose_minions m.raid offset) m

found_minion : Option MinionData → Exec Master MinionData
found_minion none m = fault out_of_range
found_minion (some d) m = ok (d, m)

-- Master::GetMinionsData
unfoldable pub get_minions_data : ℕ → Exec Master MinionData
unfolding found_minion
get_minions_data minion m = found_minion (Minions.get_minions_data m.manager minion) m

-- ProtocolTranslator::TranslateRequest, as the commands call it
unfoldable pub translate : ℕ → ℕ → Option Block → Exec Master Request
translate offset type block m =
    let (request, id) = translate_request m.id_conter offset type block in
    ok (request, record m { id_conter = id })

on_stream : Master → Outcome (Unit {0} × Stream) → Outcome (Unit {0} × Master)
on_stream m (ok (u, stream)) = ok (u, record m { stream = stream })
on_stream m (fault e) = fault e
on_stream m blocked = blocked

-- Master::Reply, under its lock
unfoldable pub reply : ℕ → List ℕ → Exec Master (Unit {0})
unfolding on_stream
reply fd buf m = on_stream m (write_all fd buf m.stream)

log_error : String → Exec Master (Unit {0})
log_error message m = ok (tt, record m { log = m.log ++ message ∷ [] })

-- What CommunicateMinion returns: its status, and the reply that it was passed by reference.
pub record Answer : Type 0 where
  pub status : Bool
  pub reply : Reply

-- The loop of CommunicateMinion from its first call of Receive, over the arrivals.
unfoldable pub await : List Arrival → SockAddr → Request → Reply → Link → Outcome (Answer × Link)
await [] to request reply l = blocked
await (datagram from bytes ∷ rest) to request reply l = ok (
  record {
    status = true;
    reply = bytes_reply (overlay (take reply_size bytes) (reply_bytes reply));
  },
  record l { arrivals = rest },
)
await (try_again ∷ rest) to request reply l =
    await rest to request reply
      (send_to to request_header (request_bytes request) (record l { arrivals = rest }))
await (failed ∷ rest) to request reply l =
    ok (record { status = false; reply = reply }, record l { arrivals = rest })

on_link : Master → Outcome (Answer × Link) → Outcome (Answer × Master)
on_link m (ok (a, link)) = ok (a, record m { link = link })
on_link m (fault e) = fault e
on_link m blocked = blocked

-- ReadCmd::CommunicateMinion and WriteCmd::CommunicateMinion, which are the same text
unfoldable pub communicate_minion : MinionData → Request → Reply → Exec Master Answer
unfolding on_link
communicate_minion minion request reply m =
    let to = client_udp_socket minion.ip minion.port in
    on_link m (
      await m.link.arrivals to request reply
        (send_to to request_header (request_bytes request) m.link))

-- The two replies of a ReadCmd on the device's socket
send_block : CmdArgs → Reply → Exec Master (Unit {0})
send_block args rep = do reply args.fd args.reply; reply args.fd rep.block

second_try : CmdArgs → ℕ → Request → Answer → Exec Master (Unit {0})
unfolding send_block
second_try args minion request first =
    if not first.status
    then (do
      min2 ← get_minions_data minion
      second ← communicate_minion min2 request first.reply
      if not second.status then pure tt else send_block args second.reply)
    else send_block args first.reply

-- ReadCmd::Run; `junk` is the uninitialised reply.
unfoldable pub read_cmd : Reply → CmdArgs → Exec Master (Unit {0})
unfolding second_try
read_cmd junk args = do
  minions ← choose_minions args.key
  min1 ← get_minions_data minions.0
  request ← translate args.key 1 none
  first ← communicate_minion min1 request junk
  second_try args minions.1 request first

-- The error of a reply as a test: `m_error != NONE`
abbrev pub has_error : Reply → Bool
has_error rep = not (rep.error == 0)

-- The rest of WriteCmd::Run, once the request is made
write_both : CmdArgs → Reply → Reply → MinionData → MinionData → Request → Exec Master (Unit {0})
unfolding log_error
write_both args junk1 junk2 min1 min2 request = do
  first ← communicate_minion min1 request junk1
  second ← communicate_minion min2 request junk2
  (if has_error first.reply || has_error second.reply
      then log_error "error in writing block"
      else pure tt)
  reply args.fd args.reply

-- WriteCmd::Run; the two replies start uninitialised.
unfoldable pub write_cmd : Reply → Reply → CmdArgs → Exec Master (Unit {0})
unfolding write_both
write_cmd junk1 junk2 args = do
  minions ← choose_minions args.key
  min1 ← get_minions_data minions.0
  min2 ← get_minions_data minions.1
  request ← translate args.key 2 (some args.block)
  write_both args junk1 junk2 min1 min2 request

-- The two functions named Register, which run when libreadcmd.so and libwritecmd.so are loaded
abbrev pub Commands : Type 0
Commands = Factory (Exec Master (Unit {0})) CmdArgs String

unfoldable pub register_read_cmd : Reply → Commands → Commands
unfolding read_cmd
register_read_cmd junk f = Factory.add "ReadCmd" (read_cmd junk) f

unfoldable pub register_write_cmd : Reply → Reply → Commands → Commands
unfolding write_cmd
register_write_cmd junk1 junk2 f = Factory.add "WriteCmd" (write_cmd junk1 junk2) f

-- The factory once both libraries are loaded
unfoldable pub commands : Reply → Reply → Commands
unfolding register_read_cmd register_write_cmd
commands junk1 junk2 =
    register_write_cmd junk1 junk2 (register_read_cmd junk1 (record { map = [] }))

-- CmdFactoryTask::Do
unfoldable pub do_task : Reply → Reply → CmdData CmdArgs → Exec Master (Unit {0})
unfolding commands
do_task junk1 junk2 data_ = do
  command ← lift (Factory.create data_.key data_.args (commands junk1 junk2))
  command
