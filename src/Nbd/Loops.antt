-- ===== src/Nbd/Loops.antt =====
-- read_all and write_all move everything, however the socket cuts it up, and abort otherwise.
use Prim.Native.Nat.{min}
use mathlib.Core.List.{append-nil, append_assoc, map-append}
use distributed_disk.Common.{
  ℕ, zero, suc, ◌+◌, ◌-◌, ◌≤◌, ◌<◌, ◌≡◌, ap, sym, ◌∙◌, List, [], ◌∷◌, ◌++◌, arith, take, drop,
  length, All, take-append-drop, length-take, length-drop, take-drop-take, drop-drop,
}
use distributed_disk.Common.Exec.{ok, fault, assert_failed}
use distributed_disk.Nbd.{
  IoResult, moved, io_error, Stream, on_fd, write_loop, write_all, read_loop, read_all,
}

-- Every call moves something.
abbrev pub Moves : IoResult → Type 0
Moves (moved n) = 0 < n
Moves io_error = ⊥

on_fd-cut :
    (fd n : ℕ) (buf : List ℕ) (written : List (ℕ × ℕ))
    → (written ++ on_fd fd (take n buf)) ++ on_fd fd (drop n buf) ≡ written ++ on_fd fd buf
on_fd-cut fd n buf written =
    append_assoc written _ _
    ∙ ap (◌++◌ written)
        (sym (map-append _ (take n buf) (drop n buf)) ∙ ap (on_fd fd) (take-append-drop n buf))

write_loop_total :
    (results : List IoResult) (fd : ℕ) (buf : List ℕ) (written : List (ℕ × ℕ))
    → All Moves results
    → length buf ≤ length results
    → (rest : List IoResult) × (write_loop results fd buf written
        ≡ ok (written ++ on_fd fd buf, rest))
      × All Moves rest
      × (length results ≤ length rest + length buf)
unfolding write_loop
write_loop_total results fd [] written m h = (results, rw (append-nil written), m, omega arith)
write_loop_total [] fd (b ∷ buf) written m h = absurd (omega arith)
write_loop_total (io_error ∷ rest) fd (b ∷ buf) written m h = absurd m.0
write_loop_total (moved zero ∷ rest) fd (b ∷ buf) written m h = absurd (omega arith)
write_loop_total (moved (suc n) ∷ rest) fd (b ∷ buf) written m h =
    let (left, e, k, l) =
      write_loop_total rest fd (drop (suc n) (b ∷ buf))
        (written ++ on_fd fd (take (suc n) (b ∷ buf))) m.1
        (omega (arith, length-drop (suc n) (b ∷ buf))) in
    (
      left,
      e ∙ ap (λ w. ok (w, left)) (on_fd-cut fd (suc n) (b ∷ buf) written),
      k,
      omega (arith, length-drop (suc n) (b ∷ buf)),
    )

-- A chunk and the rest of the count are the whole count.
module _ (cut count : ℕ) (xs : List ℕ) where
  cut_size : cut ≤ count → count ≤ length xs → cut + (count - length (take cut xs)) ≡ count
  cut_size h k = omega (arith, length-take cut xs)

  read_cut :
      (got : List ℕ)
      → cut ≤ count
      → count ≤ length xs
      → (got ++ take cut xs) ++ take (count - length (take cut xs)) (drop cut xs)
        ≡ got ++ take count xs
  read_cut got h k =
      append_assoc got (take cut xs) _
      ∙ ap (◌++◌ got) (take-drop-take cut _ count xs (cut_size h k))

  skip_cut :
      cut ≤ count
      → count ≤ length xs
      → drop (count - length (take cut xs)) (drop cut xs) ≡ drop count xs
  skip_cut h k = drop-drop cut _ count xs (cut_size h k)

read_loop_total :
    (results : List IoResult) (incoming : List ℕ) (count : ℕ) (got : List ℕ)
    → All Moves results
    → count ≤ length results
    → count ≤ length incoming
    → (rest : List IoResult) × (read_loop results incoming count got
        ≡ ok (got ++ take count incoming, drop count incoming, rest))
      × All Moves rest
      × (length results ≤ length rest + count)
unfolding read_loop
read_loop_total results incoming zero got m h k =
    (results, unfold take drop in rw (append-nil got), m, omega arith)
read_loop_total [] incoming (suc count) got m h k = absurd (omega arith)
read_loop_total (io_error ∷ rest) incoming (suc count) got m h k = absurd m.0
read_loop_total (moved zero ∷ rest) incoming (suc count) got m h k = absurd (omega arith)
read_loop_total (moved (suc n) ∷ rest) [] (suc count) got m h k = absurd (omega arith)
read_loop_total (moved (suc n) ∷ rest) (b ∷ incoming) (suc count) got m h k =
    let xs = b ∷ incoming in
    let cut = min (suc n) (suc count) in
    let size : length (take cut xs) ≡ cut = omega (arith, length-take cut xs) in
    let (left, e, l, o) =
      read_loop_total rest (drop cut xs) (suc count - length (take cut xs)) (got ++ take cut xs) m.1
        (omega arith) (omega (arith, length-drop cut xs)) in
    (
      left,
      e ∙ λ i. ok (
        read_cut cut (suc count) xs got (omega arith) k i,
        skip_cut cut (suc count) xs (omega arith) k i,
        left,
      ),
      l,
      omega arith,
    )

-- Where every call of write moves something, and there are as many calls as bytes, write_all
-- writes the whole buffer, in order, and no more.
pub write_all_total :
    (fd : ℕ) (buf : List ℕ) (s : Stream)
    → All Moves s.writes
    → length buf ≤ length s.writes
    → (rest : List IoResult) × (write_all fd buf s
        ≡ ok (tt, record s { written = s.written ++ on_fd fd buf; writes = rest }))
      × All Moves rest
      × (length s.writes ≤ length rest + length buf)
unfolding write_all
write_all_total fd buf s m h =
    let (rest, e, k, l) = write_loop_total s.writes fd buf s.written m h in (rest, rw e, k, l)

-- Where every call of read moves something, and there are as many calls and as many bytes as are
-- asked for, read_all reads exactly the next `count` bytes of the stream, however they are cut up.
pub read_all_total :
    (count : ℕ) (s : Stream)
    → All Moves s.reads
    → count ≤ length s.reads
    → count ≤ length s.incoming
    → (rest : List IoResult) × (read_all count s
        ≡ ok (take count s.incoming, record s { incoming = drop count s.incoming; reads = rest }))
unfolding read_all
read_all_total count s m h k =
    let (rest, e, l, o) = read_loop_total s.reads s.incoming count [] m h k in (rest, rw e)

-- A call that moves nothing while bytes are left aborts the process.
pub write_all_aborts :
    (fd b : ℕ) (buf : List ℕ) (s : Stream) (r : IoResult) (rest : List IoResult)
    → s.writes ≡ r ∷ rest
    → ¬ Moves r
    → write_all fd (b ∷ buf) s ≡ fault assert_failed
unfolding write_all write_loop
write_all_aborts fd b buf s (moved zero) rest e h = rw e
write_all_aborts fd b buf s (moved (suc n)) rest e h = absurd (h (omega arith))
write_all_aborts fd b buf s io_error rest e h = rw e
