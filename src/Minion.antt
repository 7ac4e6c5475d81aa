-- ===== src/Minion.antt =====
-- A minion: minion_proxy1/minion_proxy.cpp (minion_proxy2 holds the same file), and the commands
-- minion_cmd/minion_read_cmd.cpp and minion_cmd/minion_write_cmd.cpp.
pub mod Steps
pub mod Requests
pub mod Abstract
pub mod Tasks
pub mod Refining
pub mod Process
pub mod Serializing
pub mod Apart
pub mod Orders
pub mod Start
use distributed_disk.Common.{
  ℕ, ◌+◌, ◌*◌, String, Bool, true, false, List, [], ◌∷◌, ◌++◌, ltb, if◌then◌else◌, ◌==◌, nat_eq,
  string_eq, take, drop, length,
}
use distributed_disk.Common.Bytes.{to_le, of_le}
use distributed_disk.Common.Exec.{
  Outcome, ok, fault, blocked, out_of_range, Exec, ◌>>=◌, pure, lift,
}
use distributed_disk.Net.{Link, Received, server_receive, server_send}
use distributed_disk.Protocol.{
  Block, block_size, Request, Reply, request_header, reply_header, reply_size, request_bytes,
  bytes_request, reply_bytes, translate_reply,
}
use distributed_disk.Storage.{Storage}
use distributed_disk.Storage
use distributed_disk.Factory.{Factory}
use distributed_disk.Factory
use distributed_disk.CmdData.{CmdData}

-- The storage and the socket of the process. `stack` is what an uninitialised block on the stack
-- holds, `beyond` what memory holds behind an entry of the storage's map.
pub record Minion : Type 0 where
  pub storage : Storage
  pub link : Link
  pub stack : Block
  pub beyond : List ℕ

-- A step of the socket is a step of the process.
on_link : {A : Type 0} → Minion → Outcome (A × Link) → Outcome (A × Minion)
on_link m (ok (a, link)) = ok (a, record m { link = link })
on_link m (fault e) = fault e
on_link m blocked = blocked

unfoldable pub receive : ℕ → List ℕ → Exec Minion Received
unfolding on_link
receive len buffer m = on_link m (server_receive len buffer m.link)

-- MinionProxy::Read. The results of Receive are not looked at; `req` starts uninitialised.
unfoldable pub read : Request → Exec Minion Request
read req = do
  header ← receive request_header (request_bytes req)
  let req = bytes_request header.buffer
  let with_block = do
    payload ← receive block_size req.block
    pure (record req { block = payload.buffer })
  if req.type == 2 then with_block else pure req

-- MinionProxy::ProcessRequest
unfoldable pub process_request : Request → CmdData (List ℕ)
process_request req =
    if req.type == 1
    then record { key = "MinReadCmd"; args = to_le 8 req.id ++ to_le 8 req.offset }
    else if req.type == 2
    then record {
      key = "MinWriteCmd";
      args = to_le 8 req.id ++ (to_le 8 req.offset ++ take block_size req.block);
    }
    else record { key = ""; args = [] }

-- MinionProxy::ParseData
unfoldable pub parse_data : Request → Exec Minion (CmdData (List ℕ))
unfolding read process_request
parse_data junk = do req ← read junk; pure (process_request req)

-- MinionProxy::Reply
unfoldable pub reply : Reply → Exec Minion (Unit {0})
reply rep m =
    let answer = λ (len : ℕ). record m { link = server_send len (reply_bytes rep) m.link } in
    if rep.type == 2
    then ok (tt, answer reply_header)
    else if rep.type == 1
    then ok (tt, answer reply_size)
    else ok (tt, m)

-- MinReadCmd::Run
unfoldable pub min_read_cmd : List ℕ → Exec Minion (Unit {0})
unfolding reply
min_read_cmd args m =
    if ltb (length args) 16
    then fault out_of_range
    else let id = of_le (take 8 args) in
      let offset = of_le (take 8 (drop 8 args)) in
      let (error, block) = Storage.load m.beyond m.stack offset m.storage in
      reply (translate_reply id 1 block error) m

-- MinWriteCmd::Run. The block of the reply is uninitialised; Reply sends only the header.
unfoldable pub min_write_cmd : List ℕ → Exec Minion (Unit {0})
unfolding reply
min_write_cmd args m =
    if ltb (length args) (16 + block_size)
    then fault out_of_range
    else let id = of_le (take 8 args) in
      let offset = of_le (take 8 (drop 8 args)) in
      let (error, storage) = Storage.store (drop 8 (drop 8 args)) offset m.storage in
      reply (translate_reply id 2 m.stack error) (record m { storage = storage })

-- MinRegister and MinWRegister, which run when libreadcmd.so and libwritecmd.so are loaded
abbrev pub Commands : Type 0
Commands = Factory (Exec Minion (Unit {0})) (List ℕ) String

unfoldable pub min_register : Commands → Commands
unfolding min_read_cmd
min_register f = Factory.add "MinReadCmd" min_read_cmd f

unfoldable pub min_w_register : Commands → Commands
unfolding min_write_cmd
min_w_register f = Factory.add "MinWriteCmd" min_write_cmd f

-- The factory once both libraries are loaded
unfoldable pub commands : Commands
unfolding min_register min_w_register
commands = min_w_register (min_register (record { map = [] }))

-- CmdFactoryTask::Do: create the command and run it.
unfoldable pub do_task : CmdData (List ℕ) → Exec Minion (Unit {0})
unfolding commands
do_task data_ = do command ← lift (Factory.create data_.key data_.args commands); command

-- One request, from the socket to the reply: Mediator::ReactorHandler, then the task.
unfoldable pub serve : Request → Exec Minion (Unit {0})
unfolding parse_data do_task
serve junk = do data_ ← parse_data junk; do_task data_
