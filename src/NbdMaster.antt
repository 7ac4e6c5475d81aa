-- ===== src/NbdMaster.antt =====
-- nbd_proxy/nbd_proxy_master.cpp, the older program that serves the device with a manager of its
-- own. Its header nbdproxy.hpp is not in the repository: CmdArgs is taken to be that of nbd_proxy.hpp,
-- and the manager's Read and Write (minion_menager.hpp, missing too) are parameters. Its own read_all
-- and write_all do not look at the result of a call.
pub mod Same
pub mod Serving
pub mod Start
use Prim.Native.Nat.{min}
use distributed_disk.Common.{
  ℕ, zero, suc, ◌+◌, ◌-◌, Option, none, some, List, [], ◌∷◌, ◌++◌, ltb, if◌then◌else◌, ◌==◌, nat_eq,
  take, drop, length, String,
}
use distributed_disk.Common.Bytes.{overlay}
use distributed_disk.Common.Exec.{
  Outcome, ok, fault, blocked, and_then, out_of_range, buffer_overflow, Exec, ◌>>=◌, pure,
}
use mathlib.Core.List.{reverse}
use distributed_disk.Protocol.{Block, block_size}
use distributed_disk.CmdData.{CmdData}
use distributed_disk.Framework.{FrameWork}
use distributed_disk.Framework
use distributed_disk.Nbd.{
  IoResult, moved, io_error, Stream, on_fd, CmdArgs, cmd_args, NbdRequest, nbd_request,
  nbd_cmd_read, request_size, after_write, after_read,
}

-- The loop of write_all; `behind` is what lies behind `buf`, the last byte first. With -1 the pointer
-- goes back by one and the count grows.
unfoldable pub write_loop :
    List IoResult → ℕ → List ℕ → List ℕ → List (ℕ × ℕ) → Outcome (List (ℕ × ℕ) × List IoResult)
write_loop results fd behind [] written = ok (written, results)
write_loop [] fd behind (b ∷ buf) written = blocked
write_loop (io_error ∷ rest) fd [] (b ∷ buf) written = fault out_of_range
write_loop (io_error ∷ rest) fd (a ∷ behind) (b ∷ buf) written =
    write_loop rest fd behind (a ∷ b ∷ buf) written
write_loop (moved n ∷ rest) fd behind (b ∷ buf) written =
    write_loop rest fd (reverse (take n (b ∷ buf)) ++ behind) (drop n (b ∷ buf))
      (written ++ on_fd fd (take n (b ∷ buf)))

-- write_all and NbdProxy::NbdReply
unfoldable pub write_all : ℕ → List ℕ → Exec Stream (Unit {0})
unfolding after_write
write_all fd buf s = after_write s (write_loop s.writes fd [] buf s.written)

-- What has been read, without its last byte
drop_last : List ℕ → Option (List ℕ)
drop_last [] = none
drop_last (b ∷ []) = some []
drop_last (b ∷ c ∷ bs) = elim (drop_last (c ∷ bs)) [ none ↦ none | some xs ↦ some (b ∷ xs) ]

-- The loop of read_all
unfoldable pub read_loop :
    List IoResult → List ℕ → ℕ → List ℕ → Outcome (List ℕ × List ℕ × List IoResult)
unfolding drop_last
read_loop results incoming zero got = ok (got, incoming, results)
read_loop [] incoming (suc count) got = blocked
read_loop (io_error ∷ rest) incoming (suc count) got = elim (drop_last got) [
  | none ↦ fault out_of_range
  | some shorter ↦ read_loop rest incoming (suc (suc count)) shorter
]
read_loop (moved zero ∷ rest) incoming (suc count) got = read_loop rest incoming (suc count) got
read_loop (moved (suc n) ∷ rest) [] (suc count) got = blocked
read_loop (moved (suc n) ∷ rest) (b ∷ incoming) (suc count) got =
    let chunk = take (min (suc n) (suc count)) (b ∷ incoming) in
    read_loop rest (drop (min (suc n) (suc count)) (b ∷ incoming)) (suc count - length chunk)
      (got ++ chunk)

unfoldable pub read_all : ℕ → Exec Stream (List ℕ)
unfolding after_read
read_all count s = after_read s (read_loop s.reads s.incoming count [])

-- The block of a request that is not a read
unfoldable pub read_block : ℕ → Block → Exec Stream Block
read_block len stack s =
    if ltb block_size len
    then fault buffer_overflow
    else (read_all len >>= λ got. pure (overlay got stack)) s

-- InitReply and what follows it in ParseData
unfoldable pub parse_request : NbdRequest → Block → ℕ → Exec Stream (Option (CmdData CmdArgs))
parse_request request block_stack fd s =
    let write = read_block request.len block_stack >>= λ block.
    pure (some (record { key = "WriteCmd"; args = cmd_args fd request block })) in
    if request.type == nbd_cmd_read
    then ok (some (record { key = "ReadCmd"; args = cmd_args fd request block_stack }), s)
    else write s

-- The test of the first read: `bytes_read > 0`
unfoldable pub on_bytes : List ℕ → List ℕ → Block → ℕ → Exec Stream (Option (CmdData CmdArgs))
on_bytes [] request_stack block_stack fd s = ok (none, s)
on_bytes (b ∷ bytes) request_stack block_stack fd s =
    parse_request (nbd_request (overlay (b ∷ bytes) request_stack)) block_stack fd s

first_read : List IoResult → List ℕ → Block → ℕ → Exec Stream (Option (CmdData CmdArgs))
unfolding on_bytes
first_read [] request_stack block_stack fd s = blocked
first_read (io_error ∷ rest) request_stack block_stack fd s =
    on_bytes [] request_stack block_stack fd (record s { reads = rest })
first_read (moved n ∷ rest) request_stack block_stack fd s =
    on_bytes (take (min n request_size) s.incoming) request_stack block_stack fd
      (record s { incoming = drop (min n request_size) s.incoming; reads = rest })

-- NbdProxy::ParseData: where the first read gives nothing, a null pointer.
unfoldable pub parse_data : List ℕ → Block → ℕ → Exec Stream (Option (CmdData CmdArgs))
unfolding first_read
parse_data request_stack block_stack fd s = first_read s.reads request_stack block_stack fd s

-- The manager's calls: Read fills a block, Write takes one.
pub record Manager (M : Type 0) : Type 0 where
  pub read : ℕ → Block → M → Block × M
  pub write : ℕ → Block → M → M

module _ {M : Type 0} (manager : Manager M) where
  with_manager : M → Outcome (Unit {0} × Stream) → Outcome (Stream × M)
  with_manager m o = and_then o λ result. ok (result.1, m)

  -- ReadCmd::Run
  unfoldable pub read_cmd : CmdArgs → Stream × M → Outcome (Stream × M)
  unfolding with_manager
  read_cmd args (s, m) =
      let (block, m') = manager.read args.key args.block m in
      with_manager m'
        ((write_all args.fd args.reply >>= λ done. write_all args.fd (take 4096 block)) s)

  -- WriteCmd::Run
  unfoldable pub write_cmd : CmdArgs → Stream × M → Outcome (Stream × M)
  unfolding with_manager
  write_cmd args (s, m) =
      with_manager (manager.write args.key args.block m) (write_all args.fd args.reply s)
