-- ===== src/Nbd/Requests.antt =====
-- ParseData against the layout of a request of the NBD protocol.
use Prim.Native.Nat.{min}
use mathlib.Core.List.{append_assoc}
use distributed_disk.Common.{
  ℕ, ◌≤◌, ◌<◌, ◌≡◌, ◌≢◌, ap, ◌∙◌, List, ◌∷◌, ◌++◌, arith, take, drop, length, All, take-append,
  drop-append, length-append, nat_eqb-ne, ltb, true, false,
}
use distributed_disk.Common.Bytes.{
  to_be, overlay, range_of, of_be-to_be, length-to_be, network_laws,
}
use distributed_disk.Common.Exec.{ok, fault, buffer_overflow}
use distributed_disk.Protocol.{Block, block_size}
use distributed_disk.Nbd.{
  IoResult, moved, Stream, NbdRequest, nbd_request, nbd_cmd_read, request_size, cmd_args,
  parse_data, read_block, read_once,
}
use distributed_disk.Nbd.Loops.{Moves, read_all_total}

-- struct nbd_request as the kernel writes it
abbrev pub request_bytes : ℕ → NbdRequest → List ℕ
request_bytes magic q =
    to_be 4 magic ++ (to_be 4 q.type ++ (q.handle ++ (to_be 8 q.from ++ to_be 4 q.len)))

pub record IsNbdRequest (q : NbdRequest) : Type 0 where
  pub type_fits : q.type < range_of 4
  pub handle_fits : length q.handle ≡ 8
  pub from_fits : q.from < range_of 8
  pub len_fits : q.len < range_of 4

module _ (magic : ℕ) (q : NbdRequest) (v : IsNbdRequest q) where
  pub length-request_bytes : length (request_bytes magic q) ≡ request_size
  length-request_bytes = omega (
    arith,
    length-append (to_be 4 magic)
        (to_be 4 q.type ++ (q.handle ++ (to_be 8 q.from ++ to_be 4 q.len))),
    length-append (to_be 4 q.type) (q.handle ++ (to_be 8 q.from ++ to_be 4 q.len)),
    length-append q.handle (to_be 8 q.from ++ to_be 4 q.len),
    length-append (to_be 8 q.from) (to_be 4 q.len),
    length-to_be 4 magic,
    length-to_be 4 q.type,
    length-to_be 8 q.from,
    length-to_be 4 q.len,
    v.handle_fits,
  )

  -- The fields are read back from the bytes.
  pub nbd_request-request_bytes : (rest : List ℕ) → nbd_request (request_bytes magic q ++ rest) ≡ q
  unfolding nbd_request
  nbd_request-request_bytes rest = simp (
    append_assoc,
    network_laws,
    of_be-to_be 4 q.type v.type_fits,
    of_be-to_be 8 q.from v.from_fits,
    of_be-to_be 4 q.len v.len_fits,
    take-append 8 q.handle (to_be 8 q.from ++ (to_be 4 q.len ++ rest)) v.handle_fits,
    drop-append 8 q.handle (to_be 8 q.from ++ (to_be 4 q.len ++ rest)) v.handle_fits,
  )

  module _ (fd n : ℕ) (request_stack : List ℕ) (block_stack : Block) (s : Stream) (tail : List ℕ)
      (rest : List IoResult) (arrived : s.incoming ≡ request_bytes magic q ++ tail)
      (whole : s.reads ≡ moved n ∷ rest) (enough : request_size ≤ n) where
    first_read :
        read_once request_size s s.reads
        ≡ ok (request_bytes magic q, record s { incoming = tail; reads = rest })
    unfolding read_once
    first_read =
        let all : min n request_size ≡ request_size = omega arith in
        rw (
          whole,
          arrived,
          all,
          take-append request_size (request_bytes magic q) tail length-request_bytes,
          drop-append request_size (request_bytes magic q) tail length-request_bytes,
        )

    fields : nbd_request (overlay (request_bytes magic q) request_stack) ≡ q
    unfolding overlay
    fields = nbd_request-request_bytes _

    -- A read request that arrives in one call of read becomes a ReadCmd for its offset and handle;
    -- nothing behind it is taken from the stream.
    pub parse_data-read :
        q.type ≡ nbd_cmd_read
        → parse_data request_stack block_stack fd s
          ≡ ok (
            record { key = "ReadCmd"; args = cmd_args fd q block_stack },
            record s { incoming = tail; reads = rest },
          )
    unfolding parse_data
    parse_data-read is_read = rw (first_read, fields, is_read)

    -- A request that arrives in one call of read, is not a read, and announces at most 4096 bytes
    -- becomes a WriteCmd with exactly the bytes that follow it, as many as it announces, where the
    -- calls of read that are left each move something and are as many.
    pub parse_data-write :
        (payload later : List ℕ)
        → q.type ≢ nbd_cmd_read
        → tail ≡ payload ++ later
        → length payload ≡ q.len
        → q.len ≤ block_size
        → All Moves rest
        → q.len ≤ length rest
        → (left : List IoResult) × (parse_data request_stack block_stack fd s
            ≡ ok (
              record { key = "WriteCmd"; args = cmd_args fd q (overlay payload block_stack) },
              record s { incoming = later; reads = left },
            ))
    unfolding parse_data read_block
    parse_data-write payload later is_write more size fits moves room =
        let t : Stream = record s { incoming = tail; reads = rest } in
        let (left, e) =
          read_all_total q.len t moves room
            (omega (arith, ap length more, length-append payload later)) in
        (
          left,
          rw (first_read, fields, nat_eqb-ne q.type nbd_cmd_read is_write, small, e)
              (λ i. ok (
                record { key = "WriteCmd"; args = cmd_args fd q (overlay (taken i) block_stack) },
                record s { incoming = skipped i; reads = left },
              )),
        )
      where
        taken : take q.len tail ≡ payload
        taken = ap (take q.len) more ∙ take-append q.len payload later size

        skipped : drop q.len tail ≡ later
        skipped = ap (drop q.len) more ∙ drop-append q.len payload later size

        small : ltb block_size q.len ≡ false
        small = ground arith

    -- A request that announces more than the 4096 bytes of `args.block` overflows it.
    pub parse_data_overflow :
        q.type ≢ nbd_cmd_read
        → block_size < q.len
        → parse_data request_stack block_stack fd s ≡ fault buffer_overflow
    unfolding parse_data read_block
    parse_data_overflow is_write large =
        rw (first_read, fields, nat_eqb-ne q.type nbd_cmd_read is_write, too_large)
      where
        too_large : ltb block_size q.len ≡ true
        too_large = ground arith
