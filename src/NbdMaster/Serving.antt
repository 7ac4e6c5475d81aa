-- ===== src/NbdMaster/Serving.antt =====
-- A request of the device served by the older program, from the socket to the reply.
use Prim.Native.Nat.{min}
use distributed_disk.Common.{
  ℕ, ◌≤◌, ◌<◌, ◌≡◌, ◌≢◌, refl, ap, ◌∙◌, some, List, [], ◌∷◌, ◌++◌, arith, All, take, drop, length,
  length-append, take-append, drop-append, nat_eqb-ne, ltb, false,
}
use distributed_disk.Common.Bytes.{overlay, to_be, length-to_be}
use distributed_disk.Common.Exec.{ok}
use distributed_disk.Protocol.{Block, block_size}
use distributed_disk.Nbd.{
  IoResult, moved, Stream, on_fd, cmd_args, NbdRequest, nbd_request, nbd_cmd_read, nbd_reply_magic,
  request_size,
}
use distributed_disk.Nbd.Loops.{Moves, write_all_total, read_all_total}
use distributed_disk.Nbd.Requests.{
  request_bytes, IsNbdRequest, length-request_bytes, nbd_request-request_bytes,
}
use distributed_disk.NbdMaster.{read_block, parse_request, on_bytes, parse_data, Manager, write_cmd}
use distributed_disk.NbdMaster.Same.{write_all_same, read_all_same}

reply_length :
    (q : NbdRequest) (fd : ℕ) (block : Block)
    → IsNbdRequest q
    → length (cmd_args fd q block).reply ≡ 16
unfolding cmd_args
reply_length q fd block v = omega (
  arith,
  length-append (to_be 4 nbd_reply_magic) (to_be 4 0 ++ q.handle),
  length-append (to_be 4 0) q.handle,
  length-to_be 4 nbd_reply_magic,
  length-to_be 4 0,
  v.handle_fits,
)

on_bytes-parse_request :
    (bytes request_stack : List ℕ) (block_stack : Block) (fd : ℕ) (s : Stream)
    → 0 < length bytes
    → on_bytes bytes request_stack block_stack fd s
      ≡ parse_request (nbd_request (overlay bytes request_stack)) block_stack fd s
unfolding on_bytes
on_bytes-parse_request [] request_stack block_stack fd s some_read = absurd (omega arith)
on_bytes-parse_request (b ∷ bytes) request_stack block_stack fd s some_read = refl

module _ {M : Type 0} (manager : Manager M) (magic : ℕ) (q : NbdRequest) (v : IsNbdRequest q)
    (fd n : ℕ) (request_stack : List ℕ) (block_stack : Block) (s : Stream) (tail : List ℕ)
    (rest : List IoResult) (arrived : s.incoming ≡ request_bytes magic q ++ tail)
    (whole : s.reads ≡ moved n ∷ rest) (enough : request_size ≤ n) where
  -- What ParseData goes on with once the request has arrived.
  parse_data-parse_request :
      parse_data request_stack block_stack fd s
      ≡ parse_request q block_stack fd (record s { incoming = tail; reads = rest })
  unfolding parse_data
  parse_data-parse_request =
      let all : min n request_size ≡ request_size = omega arith in
      let long = length-request_bytes magic q v in
      let same : nbd_request (overlay (request_bytes magic q) request_stack) ≡ q =
        unfold overlay in nbd_request-request_bytes magic q v _ in
      rw
        (
          whole,
          arrived,
          all,
          take-append request_size (request_bytes magic q) tail long,
          drop-append request_size (request_bytes magic q) tail long,
        )
        (on_bytes-parse_request (request_bytes magic q) request_stack block_stack fd
            (record s { incoming = tail; reads = rest }) (omega arith)
          ∙ ap (λ r. parse_request r block_stack fd (record s { incoming = tail; reads = rest }))
              same)

  -- A write request and the block behind it, which arrives however it is cut up: the block reaches
  -- the manager at the offset of the request, and the device gets the header of a reply with the
  -- request's handle and no error.
  pub serve_write_block :
      (payload later : List ℕ) (m : M)
      → q.type ≢ nbd_cmd_read
      → tail ≡ payload ++ later
      → length payload ≡ q.len
      → q.len ≤ block_size
      → All Moves rest
      → q.len ≤ length rest
      → All Moves s.writes
      → 16 ≤ length s.writes
      → let args = cmd_args fd q (overlay payload block_stack) in
        (t t' : Stream) × (parse_data request_stack block_stack fd s
          ≡ ok (some (record { key = "WriteCmd"; args = args }), t))
        × (t.incoming ≡ later)
        × (write_cmd manager args (t, m)
            ≡ ok (t', manager.write q.from (overlay payload block_stack) m))
        × (t'.written ≡ s.written ++ on_fd fd args.reply)
  unfolding parse_request write_cmd read_block
  serve_write_block payload later m is_write more size fits moves room writes_move writes_room =
      let arrived_here : Stream = record s { incoming = tail; reads = rest } in
      let block = overlay payload block_stack in
      let args = cmd_args fd q block in
      let (left, e) =
        read_all_total q.len arrived_here moves room
          (omega (arith, ap length more, length-append payload later)) in
      let t : Stream = record s { incoming = drop q.len tail; reads = left } in
      let (rest', w, k, l) =
        write_all_total fd args.reply t writes_move (omega (arith, reply_length q fd block v)) in
      let small : ltb block_size q.len ≡ false = ground arith in
      let got : take q.len tail ≡ payload =
        ap (take q.len) more ∙ take-append q.len payload later size in
      (
        t,
        record t { written = s.written ++ on_fd fd args.reply; writes = rest' },
        parse_data-parse_request
            ∙ rw (
              nat_eqb-ne q.type nbd_cmd_read is_write,
              small,
              read_all_same q.len arrived_here moves,
              e,
              got,
            ),
        ap (drop q.len) more ∙ drop-append q.len payload later size,
        unfold cmd_args in rw (write_all_same fd args.reply t writes_move, w),
        refl,
      )
