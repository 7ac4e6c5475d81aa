-- ===== src/Minion/Steps.antt =====
-- The steps of a minion's service: taking datagrams, unpacking arguments, running a command.
use distributed_disk.Common.{
  ℕ, ◌+◌, ◌<◌, ◌≡◌, ◌≢◌, refl, ◌∙◌, some, nat_eqb-ne, List, [], ◌∷◌, ◌++◌, arith, nat_eq, length,
  take, drop, take-length, length-append, ltb, false, true,
}
use distributed_disk.Common.Bytes.{
  to_le, of_le, overlay, of_le-to_le, length-to_le, field_laws, range_of,
}
use distributed_disk.Common.Exec.{ok, blocked}
use distributed_disk.Net.{SockAddr, Arrival, datagram, server_receive, receive_from, server_send}
use distributed_disk.Protocol.{
  Block, block_size, Request, IsRequest, request_header, reply_header, reply_size, request_bytes,
  reply_bytes, make_reply, translate_reply, no_error,
}
use distributed_disk.Protocol.Layout.{request_head, length-request_head, overlay-request_head}
use distributed_disk.Storage.{Storage}
use distributed_disk.Storage
use distributed_disk.Minion.{Minion, receive, read, min_read_cmd, min_write_cmd}

-- The process once a datagram is taken from the socket.
abbrev pub heard : Minion → SockAddr → List Arrival → Minion
heard m from rest = record m { link = record m.link { arrivals = rest; client = from } }

receive_datagram :
    (m : Minion) (len : ℕ) (buffer : List ℕ) (from : SockAddr) (bytes : List ℕ)
    (rest : List Arrival)
    → m.link.arrivals ≡ datagram from bytes ∷ rest
    → receive len buffer m
      ≡ ok (
        record { status = true; again = false; buffer = overlay (take len bytes) buffer },
        heard m from rest,
      )
unfolding receive server_receive receive_from
receive_datagram m len buffer from bytes rest e = ground arith

receive_nothing :
    (m : Minion) (len : ℕ) (buffer : List ℕ) → m.link.arrivals ≡ [] → receive len buffer m ≡ blocked
unfolding receive server_receive receive_from
receive_nothing m len buffer e = ground arith

module _ (r junk : Request) (m : Minion) (from : SockAddr) (rest : List Arrival) (v : IsRequest r)
    (arrived : m.link.arrivals ≡ datagram from (request_head r) ∷ rest) where
  header :
      receive request_header (request_bytes junk) m
      ≡ ok (
        record {
          status = true;
          again = false;
          buffer = overlay (request_head r) (request_bytes junk);
        },
        heard m from rest,
      )
  header =
      receive_datagram m request_header (request_bytes junk) from (request_head r) rest arrived
      ∙ rw (take-length request_header (request_head r) (omega (arith, length-request_head r)))

  pub read_header :
      r.type ≢ 2 → read junk m ≡ ok (record r { block = junk.block }, heard m from rest)
  unfolding read
  read_header no_block = rw (header, overlay-request_head r junk v, nat_eqb-ne r.type 2 no_block)

  pub read_payload :
      (by : SockAddr) (bytes : List ℕ) (later : List Arrival)
      → r.type ≡ 2
      → rest ≡ datagram by bytes ∷ later
      → read junk m
        ≡ ok (record r { block = overlay (take block_size bytes) junk.block }, heard m by later)
  unfolding read
  read_payload by bytes later is_write more = rw (
    header,
    overlay-request_head r junk v,
    is_write,
    receive_datagram (heard m from rest) block_size junk.block by bytes later more,
  )

  pub read_waits : r.type ≡ 2 → rest ≡ [] → read junk m ≡ blocked
  unfolding read
  read_waits is_write more = rw (
    header,
    overlay-request_head r junk v,
    is_write,
    receive_nothing (heard m from rest) block_size junk.block more,
  )

-- With nothing on the socket the minion waits.
pub read_nothing : (junk : Request) (m : Minion) → m.link.arrivals ≡ [] → read junk m ≡ blocked
unfolding read
read_nothing junk m e = rw (receive_nothing m request_header (request_bytes junk) e) refl

-- The arguments of a command, as ProcessRequest packs them and Run unpacks them.
module _ (id offset : ℕ) (tail : List ℕ) where
  abbrev packed : List ℕ
  packed = to_le 8 id ++ (to_le 8 offset ++ tail)

  length-packed : length packed ≡ 16 + length tail
  length-packed = omega (
    arith,
    length-append (to_le 8 id) (to_le 8 offset ++ tail),
    length-append (to_le 8 offset) tail,
    length-to_le 8 id,
    length-to_le 8 offset,
  )

  packed_fields :
      id < range_of 8
      → offset < range_of 8
      → (of_le (take 8 packed) ≡ id)
        × (of_le (take 8 (drop 8 packed)) ≡ offset)
        × (drop 8 (drop 8 packed) ≡ tail)
  packed_fields h k = (
    simp (field_laws, of_le-to_le 8 id h),
    simp (field_laws, of_le-to_le 8 offset k),
    simp field_laws,
  )

abbrev pub answered : Minion → ℕ → List ℕ → Minion
answered m len bytes = record m { link = server_send len bytes m.link }

pub min_read_cmd-packed :
    (id offset : ℕ) (m : Minion)
    → id < range_of 8
    → offset < range_of 8
    → min_read_cmd (to_le 8 id ++ (to_le 8 offset ++ [])) m ≡ (
        let l = Storage.load m.beyond m.stack offset m.storage in
        ok (tt, answered m reply_size (reply_bytes (make_reply id 1 l.0 (some l.1)))))
unfolding min_read_cmd translate_reply make_reply
min_read_cmd-packed id offset m h k =
    let (i, o, t) = packed_fields id offset [] h k in rw (long, i, o)
  where
    long : ltb (length (to_le 8 id ++ (to_le 8 offset ++ []))) 16 ≡ false
    long = ground (arith, length-packed id offset [])

pub min_write_cmd-packed :
    (id offset : ℕ) (block : Block) (m : Minion)
    → id < range_of 8
    → offset < range_of 8
    → length block ≡ block_size
    → min_write_cmd (to_le 8 id ++ (to_le 8 offset ++ block)) m
      ≡ ok (
        tt,
        answered
            (record m { storage = (Storage.store block offset m.storage).1 })
            reply_header
            (reply_bytes (make_reply id 2 no_error (some m.stack))),
      )
unfolding min_write_cmd translate_reply make_reply Storage.store
min_write_cmd-packed id offset block m h k fits =
    let (i, o, t) = packed_fields id offset block h k in rw (long, i, o, t)
  where
    long : ltb (length (to_le 8 id ++ (to_le 8 offset ++ block))) (16 + block_size) ≡ false
    long = ground (arith, length-packed id offset block)
