-- ===== src/Tests/Device.antt =====
-- Requests of the kernel's block device on the stream socket.
use distributed_disk.Common.{
  ℕ, suc, ◌<◌, some, replicate, ◌≡◌, ◌≢◌, refl, List, [], ◌∷◌, ◌++◌, arith, All,
}
use distributed_disk.Common.Bytes.{overlay}
use distributed_disk.Common.Exec.{ok, fault, blocked, assert_failed}
use distributed_disk.Protocol.{Block}
use distributed_disk.Nbd.{IoResult, moved, Stream, on_fd, NbdRequest, nbd_cmd_read, cmd_args}
use distributed_disk.Nbd
use distributed_disk.Nbd.Loops.{Moves}
use distributed_disk.Nbd.Requests.{request_bytes, IsNbdRequest}
use distributed_disk.NbdMaster.{Manager, write_all, read_all, parse_data, write_cmd}
use distributed_disk.NbdMaster.Same.{loops_same}
use distributed_disk.NbdMaster.Serving.{serve_write_block}
use distributed_disk.Tests.{zeros, calls, calls-Moves, length-calls, stream_of}

abbrev handle : List ℕ
handle = 1 ∷ 2 ∷ 3 ∷ 4 ∷ 5 ∷ 6 ∷ 7 ∷ 8 ∷ []

abbrev nbd_of : ℕ → ℕ → NbdRequest
nbd_of type len = record { type = type; handle = handle; from = 8192; len = len }

abbrev magic : ℕ
magic = 0x2560_9513

writing : IsNbdRequest (nbd_of 1 2)
writing = record {
  type_fits = omega arith;
  handle_fits = refl;
  from_fits = omega arith;
  len_fits = omega arith;
}

-- The socket with a request and what follows it.
abbrev socket_of : NbdRequest → List ℕ → Stream
socket_of q more = record (stream_of (request_bytes magic q ++ more)) { reads = moved 28 ∷ calls }

nbd_of-ne : (nbd_of 1 2).type ≢ nbd_cmd_read
nbd_of-ne e = omega arith

-- A manager that keeps the last block that was written, with its key.
abbrev manager : Manager (ℕ × Block)
manager = record { read = λ key block m. (m.1, m); write = λ key block m. (key, block) }

abbrev two_bytes : NbdRequest
two_bytes = nbd_of 1 2

serve_write_block_example :
    let args = cmd_args 5 two_bytes (overlay (9 ∷ 9 ∷ []) zeros) in
    (t t' : Stream) × (parse_data [] zeros 5 (socket_of two_bytes (9 ∷ 9 ∷ 7 ∷ []))
      ≡ ok (some (record { key = "WriteCmd"; args = args }), t))
    × (t.incoming ≡ 7 ∷ [])
    × (write_cmd manager args (t, (0, zeros)) ≡ ok (t', (8192, overlay (9 ∷ 9 ∷ []) zeros)))
    × (t'.written ≡ [] ++ on_fd 5 args.reply)
serve_write_block_example =
    serve_write_block manager magic two_bytes writing 5 28 [] zeros
      (socket_of two_bytes (9 ∷ 9 ∷ 7 ∷ [])) (9 ∷ 9 ∷ 7 ∷ []) calls refl refl (omega arith)
      (9 ∷ 9 ∷ []) (7 ∷ []) (0, zeros) nbd_of-ne refl refl (omega arith) calls-Moves
      (omega (arith, length-calls)) calls-Moves (omega (arith, length-calls))

loops_same_example :
    (All Moves calls
      → write_all 5 (1 ∷ []) (stream_of []) ≡ Nbd.write_all 5 (1 ∷ []) (stream_of []))
    × (All Moves calls → read_all 2 (stream_of []) ≡ Nbd.read_all 2 (stream_of []))
    × ((k : ℕ)
        → 0 < 2
        → calls ≡ replicate (suc k) (moved 0)
        → (read_all 2 (stream_of []) ≡ blocked)
          × (Nbd.read_all 2 (stream_of []) ≡ fault assert_failed))
loops_same_example = loops_same 5 2 (1 ∷ []) (stream_of [])
