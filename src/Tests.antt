-- ===== src/Tests.antt =====
-- Inputs that the tests and the examples of the children share: two minions on this host, blocks of
-- zeros, and sockets that take everything.
pub mod Keeping
pub mod Serving
pub mod Asking
pub mod Device
pub mod Reacting
pub mod Starting
pub mod Threads
pub mod Watching
pub mod Running
pub mod Stops
pub mod Plugins
pub mod Orders
use distributed_disk.Common.{
  ℕ, zero, suc, ◌+◌, ◌≡◌, ◌≢◌, refl, none, some, List, [], ◌∷◌, arith, length, replicate,
  length-replicate, All,
}
use distributed_disk.Common.Exec.{ok}
use distributed_disk.Protocol.{Block, block_size, Request, Reply, IsRequest, IsReply}
use distributed_disk.Net.{SockAddr, inaddr_loopback, Arrival, Link}
use distributed_disk.Storage.{Storage}
use distributed_disk.Minion.{Minion}
use distributed_disk.Nbd.{IoResult, moved, Stream, CmdArgs}
use distributed_disk.Nbd.Loops.{Moves}
use distributed_disk.Raid
use distributed_disk.Minions.{MinionData, MinionManager}
use distributed_disk.Minions
use distributed_disk.Master.{Master}
use distributed_disk.Master.Reads.{Takes}

abbrev pub zeros : Block
zeros = replicate block_size 0

pub length-zeros : length zeros ≡ block_size
length-zeros = length-replicate block_size 0

abbrev pub here : SockAddr
here = record { addr = inaddr_loopback; port = 4000 }

abbrev pub link_of : List Arrival → Link
link_of arrivals = record { arrivals = arrivals; sent = []; client = here }

abbrev pub request_of : ℕ → Request
request_of type = record { id = 1; type = type; offset = 8192; block = zeros }

pub read-IsRequest : IsRequest (request_of 1)
read-IsRequest = record {
  id_fits = omega arith;
  type_fits = omega arith;
  offset_fits = omega arith;
  block_fits = length-zeros;
}

pub write-IsRequest : IsRequest (request_of 2)
write-IsRequest = record {
  id_fits = omega arith;
  type_fits = omega arith;
  offset_fits = omega arith;
  block_fits = length-zeros;
}

abbrev pub some_reply : Reply
some_reply = record { id = 1; type = 1; error = 0; block = zeros }

pub some_reply-IsReply : IsReply some_reply
some_reply-IsReply = record {
  id_fits = omega arith;
  type_fits = omega arith;
  error_fits = omega arith;
  block_fits = length-zeros;
}

-- What memory holds behind an entry of the storage's map.
abbrev pub behind : List ℕ
behind = replicate 4088 255

pub length-behind : 8 + length behind ≡ block_size
length-behind = omega (arith, length-replicate {A = ℕ} 4088 255)

abbrev pub minion_of : Storage → List Arrival → Minion
minion_of storage arrivals = record {
  storage = storage;
  link = link_of arrivals;
  stack = zeros;
  beyond = behind;
}

-- Calls of write or read that move up to 4096 bytes each.
abbrev pub calls : List IoResult
calls = replicate 5000 (moved 4096)

replicate-Moves : (n : ℕ) → All Moves (replicate n (moved 4096))
unfolding replicate
replicate-Moves zero = tt
replicate-Moves (suc n) = (omega arith, replicate-Moves n)

pub calls-Moves : All Moves calls
calls-Moves = replicate-Moves 5000

pub length-calls : length calls ≡ 5000
length-calls = length-replicate 5000 (moved 4096)

abbrev pub stream_of : List ℕ → Stream
stream_of incoming = record { incoming = incoming; reads = calls; writes = calls; written = [] }

abbrev pub first_minion : MinionData
first_minion = record { ip = inaddr_loopback; port = 4001 }

abbrev pub second_minion : MinionData
second_minion = record { ip = inaddr_loopback; port = 4002 }

abbrev pub two_minions : MinionManager
two_minions = record { num_of_minions = 2; minions_data = first_minion ∷ second_minion ∷ [] }

abbrev pub master_of : List Arrival → Master
master_of arrivals = record {
  raid = record { num_of_minions = 2 };
  manager = two_minions;
  id_conter = 0;
  link = link_of arrivals;
  stream = stream_of [];
  log = [];
}

abbrev pub args_of : CmdArgs
args_of = record { fd = 5; key = 8192; reply = 103 ∷ 68 ∷ []; block = zeros }

pub chosen : Raid.choose_minions (record { num_of_minions = 2 }) 8192 ≡ ok (0, 1)
unfolding Raid.choose_minions
chosen = refl

pub found_first : Minions.get_minions_data two_minions 0 ≡ some first_minion
unfolding Minions.get_minions_data
found_first = refl

pub found_second : Minions.get_minions_data two_minions 1 ≡ some second_minion
unfolding Minions.get_minions_data
found_second = refl

pub read-Takes :
    (arrivals : List Arrival) → Takes (length args_of.reply + block_size) (master_of arrivals)
read-Takes arrivals = record { moves = calls-Moves; enough = omega (arith, length-calls) }

pub write-Takes : (arrivals : List Arrival) → Takes (length args_of.reply) (master_of arrivals)
write-Takes arrivals = record { moves = calls-Moves; enough = omega (arith, length-calls) }
