-- ===== src/Tests/Orders.antt =====
-- A minion's process that is sent two requests, and a run of its threads that serves them the other
-- way round.
use distributed_disk.Common.{
  ℕ, ◌≡◌, ◌≢◌, refl, true, none, some, inl, inr, String, List, [], ◌∷◌, arith, nat_eq, map, All,
}
use distributed_disk.Common.Dict.{lookup, insert}
use distributed_disk.Protocol.{Request}
use distributed_disk.Storage.{empty}
use distributed_disk.Storage.Ownership.{IsStorage, empty-IsStorage}
use distributed_disk.Storage.Contents.{contents}
use distributed_disk.Reactor.{FdAndMode, key_eq}
use distributed_disk.Reactor
use distributed_disk.Mediator.{register_proxy}
use distributed_disk.Mediator.Registered.{IsMediator, register_proxy-IsMediator}
use distributed_disk.Config.{ConfigMap}
use distributed_disk.Framework.{FrameWork}
use distributed_disk.Framework
use distributed_disk.Minion.{Minion}
use distributed_disk.Minion.Abstract.{IsServed, all_updated, all_datagrams}
use distributed_disk.Minion.Process.{Process, Steps}
use distributed_disk.Minion.Orders.{Picks, none_left, pick, any_order}
use distributed_disk.Tests.{length-zeros, here, request_of, write-IsRequest, minion_of}

-- A read of another block than the one that is written
abbrev elsewhere : Request
elsewhere = record (request_of 1) { offset = 4096 }

elsewhere-IsServed : IsServed elsewhere
elsewhere-IsServed = record {
  valid = record {
    id_fits = omega arith;
    type_fits = omega arith;
    offset_fits = omega arith;
    block_fits = length-zeros;
  };
  known = inl refl;
}

abbrev two_requests : List Request
two_requests = request_of 2 ∷ elsewhere ∷ []

two-IsServed : All IsServed two_requests
two-IsServed = (record { valid = write-IsRequest; known = inr refl }, (elsewhere-IsServed, tt))

abbrev turned : List Request
turned = elsewhere ∷ request_of 2 ∷ []

turned-Picks : Picks two_requests turned
turned-Picks =
    pick (request_of 2 ∷ []) [] elsewhere (request_of 2 ∷ [])
      (pick [] [] (request_of 2) [] none_left)

-- The minion's socket is descriptor 3.
abbrev unregistered : Process String
unregistered = (
  record { map = []; fd_handlers_to_invoke = []; stop_flag = true },
  record { proxy_map = []; tasks = []; env = minion_of empty (all_datagrams here two_requests) },
)

abbrev process : Process String
process = register_proxy 3 (some "Minion") unregistered

unregistered-IsMediator : IsMediator unregistered
unfolding lookup
unregistered-IsMediator = record {
  own = λ key h e. absurd (ground arith);
  served = λ fd h. absurd (h refl);
  handled = λ fd h. absurd (h refl);
}

process-IsMediator : IsMediator process
process-IsMediator = register_proxy-IsMediator 3 unregistered unregistered-IsMediator "Minion"

listened : lookup (3, Reactor.Mode.read) process.0.map ≢ none
unfolding register_proxy Reactor.add lookup insert
listened e = cc

process_idle : process.1.tasks ≡ []
unfolding register_proxy
process_idle = refl

process_asked : process.1.env.link.arrivals ≡ all_datagrams here two_requests
unfolding register_proxy
process_asked = refl

process-IsStorage : IsStorage process.1.env.storage
unfolding register_proxy
process-IsStorage = empty-IsStorage

-- That run, and where it ends
abbrev turned_run :
    (t : Process String) × Steps String process t
    × (t.1.tasks ≡ [])
    × (t.1.env.link.arrivals ≡ [])
    × (contents t.1.env.storage ≡ all_updated turned (contents process.1.env.storage))
turned_run =
    any_order String here 3 two_requests turned process turned-Picks two-IsServed process-IsStorage
      process-IsMediator listened process_idle process_asked

abbrev ended : Process String
ended = turned_run.0

abbrev minion_config : ConfigMap
minion_config =
    ("POLICY", "0")
    ∷ ("NUM_OF_THREADS", "2")
    ∷ ("NICENESS", "0")
    ∷ ("PLUG_PATH", "plugs")
    ∷ ("PORT_NUM", "5002")
    ∷ []

-- The framework once the program has started on that configuration
abbrev started : FrameWork String (List ℕ) Minion String
started = record { factory = record { map = [] }; mediator = process }
