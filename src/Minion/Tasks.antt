-- ===== src/Minion/Tasks.antt =====
-- A request of a master in two parts: the reactor's thread parses it, and a thread of the pool runs
-- the task.
use mathlib.Core.Path.{fun_ext}
use mathlib.Core.List.{append-nil, map-append}
use distributed_disk.Common.{
  none, ℕ, ◌≤◌, ◌≡◌, refl, ap, ◌∙◌, inl, inr, Option, Option-cases, some, List, [], ◌∷◌, ◌++◌,
  arith, nat_eq, ◌==◌, if◌then◌else◌, length, take-take, take-length,
}
use distributed_disk.Common.Dict.{lookup}
use distributed_disk.Common.Bytes.{to_le}
use distributed_disk.Common.Exec.{ok, blocked}
use distributed_disk.Net.{SockAddr, Arrival, datagram, server_send, send_to}
use distributed_disk.Protocol.{
  block_size, Request, Reply, reply_header, reply_size, reply_bytes, make_reply, no_error,
}
use distributed_disk.Protocol.Layout.{request_head, reply_head, take-reply_bytes}
use distributed_disk.Storage.{Storage, load_entry}
use distributed_disk.Storage
use distributed_disk.Storage.Ownership.{IsStorage, store-IsStorage}
use distributed_disk.Storage.Contents.{contents, contents-store, deref}
use distributed_disk.Minion.{Minion, parse_data, process_request, do_task}
use distributed_disk.Minion.Steps.{
  heard, answered, read_header, read_nothing, read_payload, min_read_cmd-packed,
  min_write_cmd-packed,
}
use distributed_disk.Minion.Requests.{whole_payload, create_read, create_write}
use distributed_disk.Minion.Abstract.{
  Blocks, IsServed, found_error, updated, error_of, answer_of, datagrams, headers,
}

-- Load tells whether there is a block.
load-found_error :
    (beyond buffer : List ℕ) (key : ℕ) (s : Storage)
    → IsStorage s
    → (Storage.load beyond buffer key s).0 ≡ found_error (contents s key)
unfolding Storage.load contents found_error
load-found_error beyond buffer key s v = elim (Option-cases (lookup key s.map)) [
  | inl e ↦ rw (e, load_entry, deref) refl
  | inr (p, e) ↦ elim (Option-cases (lookup p s.heap)) [
    | inl gone ↦ absurd (v.live key p e gone)
    | inr (b, there) ↦ rw (e, load_entry, deref, there) refl
  ]
]

-- A reply, of which at least the header is sent, is in the list of the answers.
headers-answered :
    (m : Minion) (len : ℕ) (p : Reply)
    → reply_header ≤ len
    → headers (answered m len (reply_bytes p)).link.sent
      ≡ headers m.link.sent ++ (m.link.client, reply_head p) ∷ []
unfolding headers server_send send_to
headers-answered m len p h =
    map-append _ m.link.sent _
    ∙ ap (λ t. headers m.link.sent ++ (m.link.client, t) ∷ [])
        (take-take reply_header len (reply_bytes p) h ∙ take-reply_bytes p)

-- The two types of requests
module _ (r : Request) (from : SockAddr) (blocks : Blocks) where
  datagrams-read : r.type ≡ 1 → datagrams from r ≡ datagram from (request_head r) ∷ []
  unfolding datagrams
  datagrams-read e = ground arith

  datagrams-write :
      r.type ≡ 2 → datagrams from r ≡ datagram from (request_head r) ∷ datagram from r.block ∷ []
  unfolding datagrams
  datagrams-write e = ground arith

  updated-read : r.type ≡ 1 → blocks ≡ updated r blocks
  unfolding updated
  updated-read e = fun_ext λ j. ground arith

  updated-write :
      (j : ℕ) → r.type ≡ 2 → (if r.offset == j then some r.block else blocks j) ≡ updated r blocks j
  unfolding updated
  updated-write j e = ground arith

  answer_of-read :
      (block : Option (List ℕ))
      → r.type ≡ 1
      → reply_head (make_reply r.id 1 (found_error (blocks r.offset)) block) ≡ answer_of r blocks
  unfolding answer_of error_of make_reply reply_head
  answer_of-read block e = ground arith

  answer_of-write :
      (block : Option (List ℕ))
      → r.type ≡ 2
      → reply_head (make_reply r.id 2 no_error block) ≡ answer_of r blocks
  unfolding answer_of error_of make_reply reply_head
  answer_of-write block e = ground arith

-- What a task that is run does, seen from outside
pub record IsRun (r : Request) (m m' : Minion) : Type 0 where
  pub blocks : contents m'.storage ≡ updated r (contents m.storage)
  pub valid : IsStorage m'.storage
  pub same_arrivals : m'.link.arrivals ≡ m.link.arrivals
  pub same_client : m'.link.client ≡ m.link.client
  pub answer :
      headers m'.link.sent
      ≡ headers m.link.sent ++ (m.link.client, answer_of r (contents m.storage)) ∷ []

module _ (r : Request) (m : Minion) (s : IsServed r) (valid : IsStorage m.storage) where
  do_task-IsRun_read :
      r.type ≡ 1 → (m' : Minion) × (do_task (process_request r) m ≡ ok (tt, m')) × IsRun r m m'
  unfolding do_task process_request server_send send_to
  do_task-IsRun_read is_read =
      let blocks = contents m.storage in
      let l = Storage.load m.beyond m.stack r.offset m.storage in
      let p = make_reply r.id 1 l.0 (some l.1) in
      let same = load-found_error m.beyond m.stack r.offset m.storage valid in
      (
        answered m reply_size (reply_bytes p),
        rw (is_read, create_read, ← append-nil (to_le 8 r.offset))
            (min_read_cmd-packed r.id r.offset m s.valid.id_fits s.valid.offset_fits),
        record {
          blocks = updated-read r m.link.client blocks is_read;
          valid = valid;
          same_arrivals = refl;
          same_client = refl;
          answer =
              headers-answered m reply_size p (omega arith)
              ∙ ap (λ t. headers m.link.sent ++ (m.link.client, t) ∷ [])
                  (ap (λ e. reply_head (make_reply r.id 1 e (some l.1))) same
                    ∙ answer_of-read r m.link.client blocks (some l.1) is_read);
        },
      )

  do_task-IsRun_write :
      r.type ≡ 2 → (m' : Minion) × (do_task (process_request r) m ≡ ok (tt, m')) × IsRun r m m'
  unfolding do_task process_request server_send send_to
  do_task-IsRun_write is_write =
      let blocks = contents m.storage in
      let fits = s.valid.block_fits in
      let p = make_reply r.id 2 no_error (some m.stack) in
      let kept = record m { storage = (Storage.store r.block r.offset m.storage).1 } in
      (
        answered kept reply_header (reply_bytes p),
        rw (is_write, create_write, take-length block_size r.block (omega arith))
            (min_write_cmd-packed r.id r.offset r.block m s.valid.id_fits s.valid.offset_fits fits),
        record {
          blocks = fun_ext λ j.
              contents-store r.block r.offset m.storage j valid fits
              ∙ updated-write r m.link.client blocks j is_write;
          valid = store-IsStorage r.block r.offset m.storage valid fits;
          same_arrivals = refl;
          same_client = refl;
          answer =
              headers-answered m reply_header p (omega arith)
              ∙ ap (λ t. headers m.link.sent ++ (m.link.client, t) ∷ [])
                  (answer_of-write r m.link.client blocks (some m.stack) is_write);
        },
      )

  pub do_task-IsRun : (m' : Minion) × (do_task (process_request r) m ≡ ok (tt, m')) × IsRun r m m'
  do_task-IsRun = elim s.known [
    | inl is_read ↦ do_task-IsRun_read is_read
    | inr is_write ↦ do_task-IsRun_write is_write
  ]

module _ (r junk : Request) (m : Minion) (from : SockAddr) (rest : List Arrival) (s : IsServed r)
    (fits : length junk.block ≡ block_size)
    (arrived : m.link.arrivals ≡ datagrams from r ++ rest) where
  process_request-read :
      r.type ≡ 1 → process_request (record r { block = junk.block }) ≡ process_request r
  unfolding process_request
  process_request-read e = rw e refl

  -- Parsing takes the datagrams of the request and makes its task.
  pub parse_data-served : parse_data junk m ≡ ok (process_request r, heard m from rest)
  unfolding parse_data
  parse_data-served = elim s.known [
    | inl e ↦
        rw
          (
            read_header r junk m from rest s.valid
                (arrived ∙ ap (λ t. t ++ rest) (datagrams-read r from (λ j. none) e)) (omega arith),
            process_request-read e,
          )
          refl
    | inr e ↦
        rw
          (
            read_payload r junk m from (datagram from r.block ∷ rest) s.valid
                (arrived ∙ ap (λ t. t ++ rest) (datagrams-write r from (λ j. none) e)) from r.block
                rest e refl,
            whole_payload r.block junk.block s.valid.block_fits fits,
          )
          refl
  ]

pub parse_data_nothing :
    (junk : Request) (m : Minion) → m.link.arrivals ≡ [] → parse_data junk m ≡ blocked
unfolding parse_data
parse_data_nothing junk m e = rw (read_nothing junk m e) refl
