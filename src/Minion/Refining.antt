-- ===== src/Minion/Refining.antt =====
-- A minion that serves requests in their order, against the map of its blocks.
use mathlib.Core.List.{append-nil, append_assoc}
use distributed_disk.Common.{
  ◌≡◌, refl, ◌∙◌, sym, List, [], ◌∷◌, ◌++◌, arith, nat_eq, length, map, All,
}
use distributed_disk.Common.Exec.{ok}
use distributed_disk.Net.{SockAddr, Arrival}
use distributed_disk.Protocol.{block_size, Request}
use distributed_disk.Storage.Ownership.{IsStorage}
use distributed_disk.Storage.Contents.{contents}
use distributed_disk.Minion.{Minion, serve}
use distributed_disk.Minion.Steps.{heard}
use distributed_disk.Minion.Tasks.{IsRun, do_task-IsRun, parse_data-served}
use distributed_disk.Minion.Abstract.{
  IsServed, all_updated, answers_of, datagrams, all_datagrams, serve_all, headers,
}

-- One request, from its datagrams to its answer
record IsStep (r : Request) (from : SockAddr) (rest : List Arrival) (m m' : Minion) : Type 0 where
  arrivals : m'.link.arrivals ≡ rest
  run : IsRun r (heard m from rest) m'

serve-IsStep :
    (r junk : Request) (m : Minion) (from : SockAddr) (rest : List Arrival)
    → IsServed r
    → IsStorage m.storage
    → length junk.block ≡ block_size
    → m.link.arrivals ≡ datagrams from r ++ rest
    → (m' : Minion) × (serve junk m ≡ ok (tt, m')) × IsStep r from rest m m'
unfolding serve
serve-IsStep r junk m from rest served valid fits arrived =
    let (m', done, run) = do_task-IsRun r (heard m from rest) served valid in
    (
      m',
      rw (parse_data-served r junk m from rest served fits arrived) done,
      record { arrivals = run.same_arrivals; run = run },
    )

-- A minion that is sent any requests to read and write, one after the other by one peer, serves all
-- of them: its storage holds for each offset the block written last, the storage stays well formed,
-- and the peer is sent one answer for each request, in their order, whose header has the request's
-- id, its type and no error, but BLOCK_NOT_FOUNED where no block has been written that is read.
pub serve_all-refines :
    (requests junks : List Request) (m : Minion) (from : SockAddr) (rest : List Arrival)
    → All IsServed requests
    → All (λ junk. length junk.block ≡ block_size) junks
    → length requests ≡ length junks
    → IsStorage m.storage
    → m.link.arrivals ≡ all_datagrams from requests ++ rest
    → (m' : Minion) × (serve_all junks m ≡ ok (tt, m'))
      × (contents m'.storage ≡ all_updated requests (contents m.storage))
      × IsStorage m'.storage
      × (m'.link.arrivals ≡ rest)
      × (headers m'.link.sent
          ≡ headers m.link.sent ++ map (λ t. (from, t)) (answers_of requests (contents m.storage)))
unfolding serve_all all_updated answers_of all_datagrams
serve_all-refines [] [] m from rest served fit same valid arrived =
    (m, refl, refl, valid, arrived, sym (append-nil (headers m.link.sent)))
serve_all-refines [] (junk ∷ junks) m from rest served fit same valid arrived = absurd (omega arith)
serve_all-refines (r ∷ requests) [] m from rest served fit same valid arrived = absurd (omega arith)
serve_all-refines (r ∷ requests) (junk ∷ junks) m from rest served fit same valid arrived =
    let (m1, runs, step) =
      serve-IsStep r junk m from (all_datagrams from requests ++ rest) served.0 valid fit.0
        (arrived ∙ append_assoc (datagrams from r) _ rest) in
    let (m', all, blocks, valid', left, answers) =
      serve_all-refines requests junks m1 from rest served.1 fit.1 (omega arith) step.run.valid
        step.arrivals in
    (
      m',
      rw (runs, all) refl,
      rw (step.run.blocks) at blocks,
      valid',
      left,
      answers ∙ rw (step.run.answer, step.run.blocks) (append_assoc (headers m.link.sent) _ _),
    )
