-- ===== src/Minion/Requests.antt =====
-- What a minion does with the datagrams of a request.
use mathlib.Core.List.{append-nil}
use distributed_disk.Common.{
  ℕ, ◌≡◌, ◌≢◌, refl, ap, ◌∙◌, some, List, [], ◌∷◌, ◌++◌, arith, nat_eq, length, take, drop,
  take-length, length-append, length-drop, string_eq, drop-length, nat_eqb-ne, if◌then◌else◌, ◌==◌,
}
use distributed_disk.Common.Dict.{lookup, insert, beq_refl}
use distributed_disk.Common.Bytes.{to_le, overlay}
use distributed_disk.Common.Exec.{ok, fault, blocked, wrong_key}
use distributed_disk.Net.{SockAddr, Arrival, datagram}
use distributed_disk.Protocol.{
  block_size, Request, IsRequest, request_header, reply_header, reply_size, reply_bytes, make_reply,
  no_error,
}
use distributed_disk.Protocol.Layout.{request_head, length-request_head}
use distributed_disk.Storage.{Storage}
use distributed_disk.Storage
use distributed_disk.Storage.Ownership.{IsStorage, store-IsStorage}
use distributed_disk.Storage.Contents.{contents, contents-store}
use distributed_disk.Factory
use distributed_disk.Minion.{
  Minion, process_request, parse_data, min_read_cmd, min_write_cmd, min_register, min_w_register,
  commands, serve,
}
use distributed_disk.Minion.Steps.{
  heard, answered, read_header, read_payload, read_waits, min_read_cmd-packed, min_write_cmd-packed,
}

-- The registered commands.
pub create_read :
    (args : List ℕ) → Factory.create "MinReadCmd" args commands ≡ ok (min_read_cmd args)
unfolding commands min_register min_w_register Factory.create Factory.add lookup insert
create_read args = refl

pub create_write :
    (args : List ℕ) → Factory.create "MinWriteCmd" args commands ≡ ok (min_write_cmd args)
unfolding commands min_register min_w_register Factory.create Factory.add lookup insert
create_write args = refl

create_unknown : (args : List ℕ) → Factory.create "" args commands ≡ fault wrong_key
unfolding commands min_register min_w_register Factory.create Factory.add lookup insert
create_unknown args = refl

pub whole_payload :
    (bytes buffer : List ℕ)
    → length bytes ≡ block_size
    → length buffer ≡ block_size
    → overlay (take block_size bytes) buffer ≡ bytes
unfolding overlay
whole_payload bytes buffer fits room =
    rw (take-length block_size bytes (omega arith), drop-length (length bytes) buffer (omega arith))
      (append-nil bytes)

head_payload :
    (r : Request) (buffer : List ℕ)
    → overlay (take block_size (request_head r)) buffer
      ≡ request_head r ++ drop request_header buffer
unfolding overlay
head_payload r buffer = rw (
  take-length block_size (request_head r) (omega (arith, length-request_head r)),
  length-request_head r,
)

length-head_payload :
    (r : Request) (buffer : List ℕ)
    → length buffer ≡ block_size
    → length (request_head r ++ drop request_header buffer) ≡ block_size
length-head_payload r buffer room = omega (
  arith,
  length-append (request_head r) (drop request_header buffer),
  length-drop request_header buffer,
  length-request_head r,
)

module _ (r junk : Request) (m : Minion) (from : SockAddr) (rest : List Arrival) (v : IsRequest r)
    (arrived : m.link.arrivals ≡ datagram from (request_head r) ∷ rest) where
  -- A read request (its header is the whole datagram) is answered with what the storage loads at
  -- its offset, under its id, to its sender; the storage is left as it is.
  pub serve_read :
      r.type ≡ 1
      → serve junk m ≡ (
          let l = Storage.load m.beyond m.stack r.offset m.storage in
          ok (
            tt,
            answered
                (heard m from rest)
                reply_size
                (reply_bytes (make_reply r.id 1 l.0 (some l.1))),
          ))
  unfolding serve parse_data process_request
  serve_read is_read =
      rw
        (
          read_header r junk m from rest v arrived (omega arith),
          is_read,
          create_read,
          ← append-nil (to_le 8 r.offset),
        )
        (min_read_cmd-packed r.id r.offset (heard m from rest) v.id_fits v.offset_fits)

  -- A write request takes the next datagram for the block: it is copied over the uninitialised
  -- block and stored, and the header of a reply goes to the sender of that datagram.
  pub serve_write :
      (by : SockAddr) (bytes : List ℕ) (later : List Arrival)
      → r.type ≡ 2
      → rest ≡ datagram by bytes ∷ later
      → length (overlay (take block_size bytes) junk.block) ≡ block_size
      → serve junk m
        ≡ ok (
          tt,
          answered
              (record (heard m by later) {
                storage =
                    (Storage.store
                      (overlay (take block_size bytes) junk.block)
                      r.offset
                      m.storage).1;
              })
              reply_header
              (reply_bytes (make_reply r.id 2 no_error (some m.stack))),
        )
  unfolding serve parse_data process_request
  serve_write by bytes later is_write more fits =
      rw
        (
          read_payload r junk m from rest v arrived by bytes later is_write more,
          is_write,
          create_write,
          take-length block_size (overlay (take block_size bytes) junk.block) (omega arith),
        )
        (min_write_cmd-packed r.id r.offset _ (heard m by later) v.id_fits v.offset_fits fits)

  -- With the header alone a write request is not served: the minion waits for a second datagram.
  pub serve_waits : r.type ≡ 2 → rest ≡ [] → serve junk m ≡ blocked
  unfolding serve parse_data
  serve_waits is_write more = rw (read_waits r junk m from rest v arrived is_write more)

  -- Any other type is given an empty key, for which the factory throws.
  pub serve_unknown : r.type ≢ 1 → r.type ≢ 2 → serve junk m ≡ fault wrong_key
  unfolding serve parse_data process_request
  serve_unknown not_read not_write = rw (
    read_header r junk m from rest v arrived not_write,
    nat_eqb-ne r.type 1 not_read,
    nat_eqb-ne r.type 2 not_write,
    create_unknown,
  )

  module _ (by : SockAddr) (bytes : List ℕ) (later : List Arrival) (is_write : r.type ≡ 2)
      (more : rest ≡ datagram by bytes ∷ later) (valid : IsStorage m.storage)
      (junk_fits : length junk.block ≡ block_size) where
    -- A block of 4096 bytes that follows the header of a write request is stored at the offset of
    -- the request and nowhere else, and the storage stays well formed.
    pub serve_write-contents :
        length bytes ≡ block_size
        → (m' : Minion) × (serve junk m ≡ ok (tt, m'))
          × ((j : ℕ)
              → contents m'.storage j
                ≡ (if r.offset == j then some bytes else contents m.storage j))
          × IsStorage m'.storage
    serve_write-contents fits =
        let whole = whole_payload bytes junk.block fits junk_fits in
        (
          _,
          serve_write by bytes later is_write more (ap length whole ∙ fits),
          (λ j. rw whole (contents-store bytes r.offset m.storage j valid fits)),
          rw whole (store-IsStorage bytes r.offset m.storage valid fits),
        )

    -- Where a header is sent again instead of a block, as CommunicateMinion does when the answer is
    -- late, its bytes are stored as the beginning of the block.
    pub serve_write_resent :
        bytes ≡ request_head r
        → (m' : Minion) × (serve junk m ≡ ok (tt, m'))
          × (contents m'.storage r.offset ≡ some (request_head r ++ drop request_header junk.block))
    serve_write_resent resent =
        let same =
          ap (λ t. overlay (take block_size t) junk.block) resent ∙ head_payload r junk.block in
        let fits = length-head_payload r junk.block junk_fits in
        (
          _,
          serve_write by bytes later is_write more (ap length same ∙ fits),
          rw (same, contents-store _ r.offset m.storage r.offset valid fits, beq_refl r.offset),
        )
