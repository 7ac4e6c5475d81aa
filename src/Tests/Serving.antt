-- ===== src/Tests/Serving.antt =====
-- A minion that serves a read, a write and a resent header.
use distributed_disk.Common.{
  ◌≡◌, refl, none, some, inl, inr, map, All, length, List, [], ◌∷◌, ◌++◌, arith, nat_eq, drop,
}
use distributed_disk.Common.Exec.{ok}
use distributed_disk.Net.{Arrival, datagram}
use distributed_disk.Protocol.{
  block_size, request_header, Request, IsRequest, make_reply, no_error, block_not_founed,
}
use distributed_disk.Protocol.Layout.{request_head, reply_head}
use distributed_disk.Storage.{empty}
use distributed_disk.Storage.Ownership.{IsStorage, empty-IsStorage}
use distributed_disk.Storage.Contents.{contents}
use distributed_disk.Minion.{Minion, serve}
use distributed_disk.Minion.Requests.{serve_write_resent}
use distributed_disk.Minion.Abstract.{
  IsServed, found_error, updated, error_of, answer_of, all_updated, answers_of, all_datagrams,
  serve_all, headers,
}
use distributed_disk.Minion.Refining.{serve_all-refines}
use distributed_disk.Tests.{
  zeros, length-zeros, here, request_of, read-IsRequest, write-IsRequest, minion_of,
}

-- The header of a write request, and what follows it.
abbrev asked_to_write : List Arrival → Minion
asked_to_write more = minion_of empty (datagram here (request_head (request_of 2)) ∷ more)

-- A block is written, read, and a block is read that nobody wrote.
abbrev three_requests : List Request
three_requests = request_of 2 ∷ request_of 1 ∷ record (request_of 1) { offset = 4096 } ∷ []

abbrev three_junks : List Request
three_junks = request_of 9 ∷ request_of 9 ∷ request_of 9 ∷ []

elsewhere-IsRequest : IsRequest (record (request_of 1) { offset = 4096 })
elsewhere-IsRequest = record {
  id_fits = omega arith;
  type_fits = omega arith;
  offset_fits = omega arith;
  block_fits = length-zeros;
}

three-IsServed : All IsServed three_requests
three-IsServed = (
  record { valid = write-IsRequest; known = inr refl },
  (
    record { valid = read-IsRequest; known = inl refl },
    (record { valid = elsewhere-IsRequest; known = inl refl }, tt),
  ),
)

three_fit : All (λ junk. length junk.block ≡ block_size) three_junks
three_fit = (length-zeros, (length-zeros, (length-zeros, tt)))

abbrev asked_thrice : Minion
asked_thrice = minion_of empty (all_datagrams here three_requests ++ [])

-- The answers of a minion that holds nothing: written, found, not found.
three_answers :
    answers_of three_requests (λ j. none)
    ≡ reply_head (make_reply 1 2 no_error none)
      ∷ reply_head (make_reply 1 1 no_error none)
      ∷ reply_head (make_reply 1 1 block_not_founed none)
      ∷ []
unfolding answers_of answer_of error_of updated found_error
three_answers = refl

serve_all-refines_example :
    (m' : Minion) × (serve_all three_junks asked_thrice ≡ ok (tt, m'))
    × (contents m'.storage ≡ all_updated three_requests (contents empty))
    × IsStorage m'.storage
    × (m'.link.arrivals ≡ [])
    × (headers m'.link.sent
        ≡ headers [] ++ map (λ t. (here, t)) (answers_of three_requests (contents empty)))
serve_all-refines_example =
    serve_all-refines three_requests three_junks asked_thrice here [] three-IsServed three_fit refl
      empty-IsStorage refl

abbrev resent : List Arrival
resent = datagram here (request_head (request_of 2)) ∷ []

serve_write_resent_example :
    (m' : Minion) × (serve (request_of 9) (asked_to_write resent) ≡ ok (tt, m'))
    × (contents m'.storage 8192 ≡ some (request_head (request_of 2) ++ drop request_header zeros))
serve_write_resent_example =
    serve_write_resent (request_of 2) (request_of 9) (asked_to_write resent) here resent
      write-IsRequest refl here (request_head (request_of 2)) [] refl refl empty-IsStorage
      length-zeros refl
