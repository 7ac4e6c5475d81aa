-- ===== src/Protocol/Wire.antt =====
-- The packed structs and the byte strings of their size.
use mathlib.Core.Equiv.{IsEquiv, iso_to_equiv}
use mathlib.Core.HLevel.{Σ_prop_path}
use native.Mathlib.Bridge.{le_prop}
use distributed_disk.Common.{
  ℕ, ◌<◌, ◌≡◌, refl, List, [], ◌∷◌, ◌++◌, arith, length, drop, length-append, All-append,
}
use distributed_disk.Common.Bytes.{to_le, length-to_le}
use distributed_disk.Protocol.Fields.{
  AreBytes, to_le-AreBytes, field_fits, field_again, rest_long, rest_bytes,
}
use distributed_disk.Protocol.{
  Request, Reply, IsRequest, IsReply, request_bytes, bytes_request, reply_bytes, bytes_reply,
  request_size, reply_size,
}
use distributed_disk.Protocol.Layout.{bytes_request-request_bytes, bytes_reply-reply_bytes}

-- Byte strings of one length, and messages whose fields fit
abbrev pub Wire : ℕ → Type 0
Wire size = (bs : List ℕ) × ((length bs ≡ size) × AreBytes bs)

abbrev pub FittingRequest : Type 0
FittingRequest = (r : Request) × (IsRequest r × AreBytes r.block)

abbrev pub FittingReply : Type 0
FittingReply = (r : Reply) × (IsReply r × AreBytes r.block)

request_bytes-Wire :
    (r : Request)
    → IsRequest r
    → AreBytes r.block
    → (length (request_bytes r) ≡ request_size) × AreBytes (request_bytes r)
unfolding request_bytes
request_bytes-Wire r v all = (
  omega (
    arith,
    length-append (to_le 8 r.id) (to_le 1 r.type ++ (to_le 8 r.offset ++ r.block)),
    length-append (to_le 1 r.type) (to_le 8 r.offset ++ r.block),
    length-append (to_le 8 r.offset) r.block,
    length-to_le 8 r.id,
    length-to_le 1 r.type,
    length-to_le 8 r.offset,
    v.block_fits,
  ),
  All-append _ (to_le 8 r.id) _ (to_le-AreBytes 8 r.id) (
      All-append _ (to_le 1 r.type) _ (to_le-AreBytes 1 r.type)
        (All-append _ (to_le 8 r.offset) _ (to_le-AreBytes 8 r.offset) all)),
)

reply_bytes-Wire :
    (r : Reply)
    → IsReply r
    → AreBytes r.block
    → (length (reply_bytes r) ≡ reply_size) × AreBytes (reply_bytes r)
unfolding reply_bytes
reply_bytes-Wire r v all = (
  omega (
    arith,
    length-append (to_le 8 r.id) (to_le 1 r.type ++ (to_le 4 r.error ++ r.block)),
    length-append (to_le 1 r.type) (to_le 4 r.error ++ r.block),
    length-append (to_le 4 r.error) r.block,
    length-to_le 8 r.id,
    length-to_le 1 r.type,
    length-to_le 4 r.error,
    v.block_fits,
  ),
  All-append _ (to_le 8 r.id) _ (to_le-AreBytes 8 r.id) (
      All-append _ (to_le 1 r.type) _ (to_le-AreBytes 1 r.type)
        (All-append _ (to_le 4 r.error) _ (to_le-AreBytes 4 r.error) all)),
)

-- A byte string read as a message: its fields fit, and its bytes are the string.
module _ (bs : List ℕ) (all : AreBytes bs) where
  bytes_request-fits :
      length bs ≡ request_size
      → IsRequest (bytes_request bs)
        × AreBytes (bytes_request bs).block
        × (request_bytes (bytes_request bs) ≡ bs)
  unfolding bytes_request request_bytes
  bytes_request-fits size =
      let long = rest_long 8 bs all (omega arith) in
      let bs1 = drop 8 bs in
      let all1 = rest_bytes 8 bs all (omega arith) in
      let long1 = rest_long 1 bs1 all1 (omega arith) in
      let bs2 = drop 1 bs1 in
      let all2 = rest_bytes 1 bs1 all1 (omega arith) in
      let long2 = rest_long 8 bs2 all2 (omega arith) in
      (
        record {
          id_fits = field_fits 8 bs all (omega arith);
          type_fits = field_fits 1 bs1 all1 (omega arith);
          offset_fits = field_fits 8 bs2 all2 (omega arith);
          block_fits = omega arith;
        },
        rest_bytes 8 bs2 all2 (omega arith),
        rw
            (
              field_again 8 bs2 all2 (omega arith),
              field_again 1 bs1 all1 (omega arith),
              field_again 8 bs all (omega arith),
            )
            refl,
      )

  bytes_reply-fits :
      length bs ≡ reply_size
      → IsReply (bytes_reply bs)
        × AreBytes (bytes_reply bs).block
        × (reply_bytes (bytes_reply bs) ≡ bs)
  unfolding bytes_reply reply_bytes
  bytes_reply-fits size =
      let long = rest_long 8 bs all (omega arith) in
      let bs1 = drop 8 bs in
      let all1 = rest_bytes 8 bs all (omega arith) in
      let long1 = rest_long 1 bs1 all1 (omega arith) in
      let bs2 = drop 1 bs1 in
      let all2 = rest_bytes 1 bs1 all1 (omega arith) in
      let long2 = rest_long 4 bs2 all2 (omega arith) in
      (
        record {
          id_fits = field_fits 8 bs all (omega arith);
          type_fits = field_fits 1 bs1 all1 (omega arith);
          error_fits = field_fits 4 bs2 all2 (omega arith);
          block_fits = omega arith;
        },
        rest_bytes 4 bs2 all2 (omega arith),
        rw
            (
              field_again 4 bs2 all2 (omega arith),
              field_again 1 bs1 all1 (omega arith),
              field_again 8 bs all (omega arith),
            )
            refl,
      )

byte_prop : (b n : ℕ) → IsProp (b < n)
byte_prop b n = le_prop

AreBytes-prop : (bs : List ℕ) → IsProp (AreBytes bs)
AreBytes-prop [] = hlevel
AreBytes-prop (b ∷ bs) = hlevel (byte_prop b 256, AreBytes-prop bs)

IsRequest-prop : (r : Request) → IsProp (IsRequest r)
IsRequest-prop r = hlevel byte_prop

IsReply-prop : (r : Reply) → IsProp (IsReply r)
IsReply-prop r = hlevel byte_prop

Wire_prop : (size : ℕ) (bs : List ℕ) → IsProp ((length bs ≡ size) × AreBytes bs)
Wire_prop size bs = hlevel AreBytes-prop

FittingRequest_prop : (r : Request) → IsProp (IsRequest r × AreBytes r.block)
FittingRequest_prop r = hlevel (IsRequest-prop, AreBytes-prop)

FittingReply_prop : (r : Reply) → IsProp (IsReply r × AreBytes r.block)
FittingReply_prop r = hlevel (IsReply-prop, AreBytes-prop)

pub request_wire : FittingRequest → Wire request_size
request_wire m = (request_bytes m.0, request_bytes-Wire m.0 m.1.0 m.1.1)

wire_request : Wire request_size → FittingRequest
wire_request w =
    let (fits, bytes, again) = bytes_request-fits w.0 w.1.1 w.1.0 in
    (bytes_request w.0, (fits, bytes))

pub reply_wire : FittingReply → Wire reply_size
reply_wire m = (reply_bytes m.0, reply_bytes-Wire m.0 m.1.0 m.1.1)

wire_reply : Wire reply_size → FittingReply
wire_reply w =
    let (fits, bytes, again) = bytes_reply-fits w.0 w.1.1 w.1.0 in (bytes_reply w.0, (fits, bytes))

-- The packed structs as memory: writing out the fields is an equivalence between the requests, or
-- the replies, whose fields fit their widths and whose block is 4096 bytes, and the byte strings of
-- sizeof(Request_t), or sizeof(Reply_t). So every such string is exactly one message.
pub messages-IsEquiv : IsEquiv request_wire × IsEquiv reply_wire
unfolding request_wire wire_request reply_wire wire_reply
messages-IsEquiv = (
  (iso_to_equiv (record {
    fun = request_wire;
    inv = wire_request;
    rinv = λ w.
        Σ_prop_path (Wire_prop request_size) {u = request_wire (wire_request w)} {v = w}
          (bytes_request-fits w.0 w.1.1 w.1.0).2;
    linv = λ m.
        Σ_prop_path FittingRequest_prop {u = wire_request (request_wire m)} {v = m}
          (bytes_request-request_bytes m.0 m.1.0);
  })).1,
  (iso_to_equiv (record {
    fun = reply_wire;
    inv = wire_reply;
    rinv = λ w.
        Σ_prop_path (Wire_prop reply_size) {u = reply_wire (wire_reply w)} {v = w}
          (bytes_reply-fits w.0 w.1.1 w.1.0).2;
    linv = λ m.
        Σ_prop_path FittingReply_prop {u = wire_reply (reply_wire m)} {v = m}
          (bytes_reply-reply_bytes m.0 m.1.0);
  })).1,
)
