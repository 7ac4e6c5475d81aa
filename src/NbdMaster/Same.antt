-- ===== src/NbdMaster/Same.antt =====
-- The older program against the new one, while the socket works and when it does not.
use mathlib.Core.List.{reverse}
use Prim.Native.Nat.{min}
use distributed_disk.Common.{
  ℕ, zero, suc, ◌-◌, ◌<◌, ◌≡◌, refl, ap, ◌∙◌, List, [], ◌∷◌, ◌++◌, arith, All, take, drop, length,
  replicate, nat_eq,
}
use distributed_disk.Common.Exec.{fault, blocked, assert_failed}
use distributed_disk.Protocol.{Block}
use distributed_disk.Nbd.{
  IoResult, moved, io_error, Stream, on_fd, CmdArgs, cmd_args, nbd_request, nbd_cmd_read,
  request_size, after_write, after_read,
}
use distributed_disk.Nbd
use distributed_disk.Nbd.Loops.{Moves}
use distributed_disk.NbdMaster.{write_loop, write_all, read_loop, read_all, read_block}

write_loop_same :
    (results : List IoResult) (fd : ℕ) (behind buf : List ℕ) (written : List (ℕ × ℕ))
    → All Moves results
    → write_loop results fd behind buf written ≡ Nbd.write_loop results fd buf written
unfolding write_loop Nbd.write_loop
write_loop_same results fd behind [] written m = refl
write_loop_same [] fd behind (b ∷ buf) written m = refl
write_loop_same (io_error ∷ rest) fd behind (b ∷ buf) written m = absurd m.0
write_loop_same (moved zero ∷ rest) fd behind (b ∷ buf) written m = absurd (omega arith)
write_loop_same (moved (suc n) ∷ rest) fd behind (b ∷ buf) written m =
    write_loop_same rest fd (reverse (take (suc n) (b ∷ buf)) ++ behind) (drop (suc n) (b ∷ buf))
      (written ++ on_fd fd (take (suc n) (b ∷ buf))) m.1

read_loop_same :
    (results : List IoResult) (incoming : List ℕ) (count : ℕ) (got : List ℕ)
    → All Moves results
    → read_loop results incoming count got ≡ Nbd.read_loop results incoming count got
unfolding read_loop Nbd.read_loop
read_loop_same results incoming zero got m = refl
read_loop_same [] incoming (suc count) got m = refl
read_loop_same (io_error ∷ rest) incoming (suc count) got m = absurd m.0
read_loop_same (moved zero ∷ rest) incoming (suc count) got m = absurd (omega arith)
read_loop_same (moved (suc n) ∷ rest) [] (suc count) got m = refl
read_loop_same (moved (suc n) ∷ rest) (b ∷ incoming) (suc count) got m =
    let cut = min (suc n) (suc count) in
    read_loop_same rest (drop cut (b ∷ incoming)) (suc count - length (take cut (b ∷ incoming)))
      (got ++ take cut (b ∷ incoming)) m.1

-- A stream on which every call moves something.
abbrev pub Works : Stream → Type 0
Works s = All Moves s.reads × All Moves s.writes

pub write_all_same :
    (fd : ℕ) (buf : List ℕ) (s : Stream)
    → All Moves s.writes
    → write_all fd buf s ≡ Nbd.write_all fd buf s
unfolding write_all Nbd.write_all
write_all_same fd buf s m = ap (after_write s) (write_loop_same s.writes fd [] buf s.written m)

pub read_all_same :
    (count : ℕ) (s : Stream) → All Moves s.reads → read_all count s ≡ Nbd.read_all count s
unfolding read_all Nbd.read_all
read_all_same count s m = ap (after_read s) (read_loop_same s.reads s.incoming count [] m)

-- At the end of the stream every call of read gives 0.
ended_reads :
    (k count : ℕ) (got incoming : List ℕ)
    → read_loop (replicate k (moved zero)) incoming (suc count) got ≡ blocked
unfolding read_loop replicate
ended_reads zero count got incoming = refl
ended_reads (suc k) count got incoming = ended_reads k count got incoming

-- read_all and write_all do the same in both programs as long as every call moves something. At
-- the end of the stream (however often read gives 0 there) the older read_all goes on for ever,
-- where the new one aborts.
pub loops_same :
    (fd count : ℕ) (buf : List ℕ) (s : Stream)
    → (All Moves s.writes → write_all fd buf s ≡ Nbd.write_all fd buf s)
      × (All Moves s.reads → read_all count s ≡ Nbd.read_all count s)
      × ((k : ℕ)
          → 0 < count
          → s.reads ≡ replicate (suc k) (moved zero)
          → (read_all count s ≡ blocked) × (Nbd.read_all count s ≡ fault assert_failed))
unfolding read_all Nbd.read_all Nbd.read_loop replicate
loops_same fd count buf s = (
  write_all_same fd buf s,
  read_all_same count s,
  λ k some_left ended. ended_by count k some_left ended,
)
  where
    ended_by :
        (n k : ℕ)
        → 0 < n
        → s.reads ≡ replicate (suc k) (moved zero)
        → (read_all n s ≡ blocked) × (Nbd.read_all n s ≡ fault assert_failed)
    ended_by zero k some_left ended = absurd (omega arith)
    ended_by (suc n) k some_left ended = (
      ap (λ r. after_read s (read_loop r s.incoming (suc n) [])) ended
          ∙ ap (after_read s) (ended_reads (suc k) n [] s.incoming),
      ap (λ r. after_read s (Nbd.read_loop r s.incoming (suc n) [])) ended,
    )

pub read_block_same :
    (len : ℕ) (stack : Block) (s : Stream)
    → All Moves s.reads
    → read_block len stack s ≡ Nbd.read_block len stack s
unfolding read_block Nbd.read_block
read_block_same len stack s m = rw (read_all_same len s m)
