-- ===== src/Minion/Serializing.antt =====
-- The orders in which the threads of a minion's process serve requests.
use mathlib.Core.List.{Perm}
use mathlib.Core.List.Perm
use distributed_disk.Common.{◌≡◌, ◌⊎◌, List, [], ◌++◌, map, All}
use distributed_disk.CmdData.{CmdData}
use distributed_disk.Net.{SockAddr}
use distributed_disk.Protocol.{Request}
use distributed_disk.Storage.Ownership.{IsStorage}
use distributed_disk.Storage.Contents.{contents}
use distributed_disk.Minion.{Minion, process_request}
use distributed_disk.Minion.Abstract.{IsServed, all_updated, answers_of, all_datagrams, headers}
use distributed_disk.Minion.Process.{Process, Steps}

module _ (Proxy : Type 0) (from : SockAddr) (requests : List Request) (start : Minion) where
  -- What has been done so far is that the requests of `order` have been served in that order; those
  -- of `pending` have tasks, and those of `coming` have not been parsed.
  record IsSerial (s : Process Proxy) : Type 0 where
    order : List Request
    pending : List Request
    coming : List Request
    pending_served : All IsServed pending
    coming_served : All IsServed coming
    arrivals : s.1.env.link.arrivals ≡ all_datagrams from coming
    tasks : s.1.tasks ≡ map process_request pending
    all : Perm (order ++ (pending ++ coming)) requests
    blocks : contents s.1.env.storage ≡ all_updated order (contents start.storage)
    valid : IsStorage s.1.env.storage
    answers :
        headers s.1.env.link.sent
        ≡ headers start.link.sent
          ++ map (λ t. (from, t)) (answers_of order (contents start.storage))
    peer : (pending ≡ []) ⊎ (s.1.env.link.client ≡ from)
