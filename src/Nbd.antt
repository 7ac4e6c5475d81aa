-- ===== src/Nbd.antt =====
-- nbd_proxy/nbd_proxy.hpp and nbd_proxy/nbd_proxy.cpp: requests of the kernel's block device come
-- from a stream socket, and replies go back on it.
pub mod Loops
pub mod Requests
pub mod Setup
pub mod Proxy
use Prim.Native.Nat.{min}
use distributed_disk.Common.{
  ℕ, zero, suc, ◌+◌, ◌-◌, ◌≡◌, String, Bool, true, false, List, [], ◌∷◌, ◌++◌, ltb, if◌then◌else◌,
  ◌==◌, nat_eq, map, take, drop, length,
}
use distributed_disk.Common.Bytes.{to_be, of_be, overlay}
use distributed_disk.Common.Exec.{
  Outcome, ok, fault, blocked, assert_failed, buffer_overflow, nbd_exception, Exec, ◌>>=◌, pure,
}
use distributed_disk.Protocol.{Block, block_size}
use distributed_disk.CmdData.{CmdData}

-- The result of a call of read or write: how much it would move, if asked for so much; or -1.
pub data IoResult : Type 0 where
  moved : ℕ → IoResult
  io_error : IoResult

-- The socket: bytes that have arrived, the results of the coming calls of read and of write, and
-- every byte written, with the descriptor that it was written to.
pub record Stream : Type 0 where
  pub incoming : List ℕ
  pub reads : List IoResult
  pub writes : List IoResult
  pub written : List (ℕ × ℕ)

abbrev pub on_fd : ℕ → List ℕ → List (ℕ × ℕ)
on_fd fd = map (λ b. (fd, b))

-- The loop of write_all, over the results of write. `assert(bytes_written > 0)` aborts.
unfoldable pub write_loop :
    List IoResult → ℕ → List ℕ → List (ℕ × ℕ) → Outcome (List (ℕ × ℕ) × List IoResult)
write_loop results fd [] written = ok (written, results)
write_loop [] fd (b ∷ buf) written = blocked
write_loop (io_error ∷ rest) fd (b ∷ buf) written = fault assert_failed
write_loop (moved zero ∷ rest) fd (b ∷ buf) written = fault assert_failed
write_loop (moved (suc n) ∷ rest) fd (b ∷ buf) written =
    write_loop rest fd (drop (suc n) (b ∷ buf)) (written ++ on_fd fd (take (suc n) (b ∷ buf)))

unfoldable pub after_write :
    Stream → Outcome (List (ℕ × ℕ) × List IoResult) → Outcome (Unit {0} × Stream)
after_write s (ok (written, rest)) = ok (tt, record s { written = written; writes = rest })
after_write s (fault e) = fault e
after_write s blocked = blocked

-- NbdProxy::write_all, and NbdProxy::NbdReply, which calls it.
unfoldable pub write_all : ℕ → List ℕ → Exec Stream (Unit {0})
unfolding after_write
write_all fd buf s = after_write s (write_loop s.writes fd buf s.written)

-- The loop of read_all, over the results of read: what was read, what is left to read, and the
-- results left. A read never takes more than `count` bytes.
unfoldable pub read_loop :
    List IoResult → List ℕ → ℕ → List ℕ → Outcome (List ℕ × List ℕ × List IoResult)
read_loop results incoming zero got = ok (got, incoming, results)
read_loop [] incoming (suc count) got = blocked
read_loop (io_error ∷ rest) incoming (suc count) got = fault assert_failed
read_loop (moved zero ∷ rest) incoming (suc count) got = fault assert_failed
read_loop (moved (suc n) ∷ rest) [] (suc count) got = blocked
read_loop (moved (suc n) ∷ rest) (b ∷ incoming) (suc count) got =
    let chunk = take (min (suc n) (suc count)) (b ∷ incoming) in
    read_loop rest (drop (min (suc n) (suc count)) (b ∷ incoming)) (suc count - length chunk)
      (got ++ chunk)

unfoldable pub after_read :
    Stream → Outcome (List ℕ × List ℕ × List IoResult) → Outcome (List ℕ × Stream)
after_read s (ok (got, incoming, rest)) = ok (got, record s { incoming = incoming; reads = rest })
after_read s (fault e) = fault e
after_read s blocked = blocked

-- NbdProxy::read_all: the bytes that it puts into the buffer
unfoldable pub read_all : ℕ → Exec Stream (List ℕ)
unfolding after_read
read_all count s = after_read s (read_loop s.reads s.incoming count [])

-- struct nbd_reply as bytes, struct nbd_request as the fields that are used
abbrev pub nbd_reply_magic : ℕ
nbd_reply_magic = 0x6744_6698

abbrev pub nbd_cmd_read : ℕ
nbd_cmd_read = 0

abbrev pub request_size : ℕ
request_size = 28

pub record NbdRequest : Type 0 where
  pub type : ℕ
  pub handle : List ℕ
  pub from : ℕ
  pub len : ℕ

-- magic, type, handle, from, len, packed, in network order
unfoldable pub nbd_request : List ℕ → NbdRequest
nbd_request bs =
    let type = drop 4 bs in
    let handle = drop 4 type in
    let from = drop 8 handle in
    let len = drop 8 from in
    record {
      type = of_be (take 4 type);
      handle = take 8 handle;
      from = of_be (take 8 from);
      len = of_be (take 4 len);
    }

-- NbdProxy::CmdArgs; `reply_func` is always write_all.
pub record CmdArgs : Type 0 where
  pub fd : ℕ
  pub key : ℕ
  pub reply : List ℕ
  pub block : Block

-- One call of read, as ParseData makes it: -1 is an error, and a short read goes unnoticed.
read_once : ℕ → Stream → List IoResult → Outcome (List ℕ × Stream)
read_once count s [] = blocked
read_once count s (io_error ∷ rest) = fault nbd_exception
read_once count s (moved n ∷ rest) = ok (
  take (min n count) s.incoming,
  record s { incoming = drop (min n count) s.incoming; reads = rest },
)

-- The block of a write request goes into `args.block`, whose 4096 bytes are not checked.
unfoldable pub read_block : ℕ → Block → Exec Stream Block
read_block len stack s =
    if ltb block_size len
    then fault buffer_overflow
    else (read_all len >>= λ got. pure (overlay got stack)) s

-- The arguments of the command: the reply's header with no error, and the request's handle.
unfoldable pub cmd_args : ℕ → NbdRequest → Block → CmdArgs
cmd_args fd request block = record {
  fd = fd;
  key = request.from;
  reply = to_be 4 nbd_reply_magic ++ (to_be 4 0 ++ request.handle);
  block = block;
}

-- NbdProxy::ParseData. `request_stack` and `block_stack` are the uninitialised locals.
unfoldable pub parse_data : List ℕ → Block → ℕ → Exec Stream (CmdData CmdArgs)
unfolding read_once read_block
parse_data request_stack block_stack fd s =
    (do
      bytes ← (λ (t : Stream). read_once request_size t t.reads)
      let request = nbd_request (overlay bytes request_stack)
      let write = do
        block ← read_block request.len block_stack
        pure (record { key = "WriteCmd"; args = cmd_args fd request block })
      if request.type == nbd_cmd_read
          then pure (record { key = "ReadCmd"; args = cmd_args fd request block_stack })
          else write)
      s
