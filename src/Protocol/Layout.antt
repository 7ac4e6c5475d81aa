-- ===== src/Protocol/Layout.antt =====
-- The struct layouts: a message is read back from its bytes, also when only the header arrives.
use distributed_disk.Common.{
  ℕ, ◌≡◌, ap, ◌∙◌, List, ◌++◌, arith, length, take, length-append, take-append, drop-append,
  drop-length,
}
use distributed_disk.Common.Bytes.{to_le, overlay, of_le-to_le, length-to_le, field_laws}
use distributed_disk.Protocol.{
  Request, Reply, IsRequest, IsReply, request_header, reply_header, request_bytes, bytes_request,
  reply_bytes, bytes_reply, reply_size,
}
use mathlib.Core.List.{append_assoc, append-nil}

-- A header followed by anything, read as a request.
pub bytes_request-header :
    (r : Request) (rest : List ℕ)
    → IsRequest r
    → bytes_request (to_le 8 r.id ++ (to_le 1 r.type ++ (to_le 8 r.offset ++ rest)))
      ≡ record r { block = rest }
unfolding bytes_request
bytes_request-header r rest v = simp (
  field_laws,
  of_le-to_le 8 r.id v.id_fits,
  of_le-to_le 1 r.type v.type_fits,
  of_le-to_le 8 r.offset v.offset_fits,
)

pub bytes_request-request_bytes : (r : Request) → IsRequest r → bytes_request (request_bytes r) ≡ r
unfolding request_bytes
bytes_request-request_bytes r v = bytes_request-header r r.block v

pub bytes_reply-header :
    (r : Reply) (rest : List ℕ)
    → IsReply r
    → bytes_reply (to_le 8 r.id ++ (to_le 1 r.type ++ (to_le 4 r.error ++ rest)))
      ≡ record r { block = rest }
unfolding bytes_reply
bytes_reply-header r rest v = simp (
  field_laws,
  of_le-to_le 8 r.id v.id_fits,
  of_le-to_le 1 r.type v.type_fits,
  of_le-to_le 4 r.error v.error_fits,
)

-- The bytes of a reply whose fields fit, read as a reply, are that reply.
pub bytes_reply-reply_bytes : (r : Reply) → IsReply r → bytes_reply (reply_bytes r) ≡ r
unfolding reply_bytes
bytes_reply-reply_bytes r v = bytes_reply-header r r.block v

-- The bytes in front of the block.
unfoldable pub request_head : Request → List ℕ
request_head r = to_le 8 r.id ++ (to_le 1 r.type ++ to_le 8 r.offset)

unfoldable pub reply_head : Reply → List ℕ
reply_head r = to_le 8 r.id ++ (to_le 1 r.type ++ to_le 4 r.error)

pub length-request_head : (r : Request) → length (request_head r) ≡ request_header
unfolding request_head
length-request_head r = omega (
  arith,
  length-append (to_le 8 r.id) (to_le 1 r.type ++ to_le 8 r.offset),
  length-append (to_le 1 r.type) (to_le 8 r.offset),
  length-to_le 8 r.id,
  length-to_le 1 r.type,
  length-to_le 8 r.offset,
)

pub length-reply_head : (r : Reply) → length (reply_head r) ≡ reply_header
unfolding reply_head
length-reply_head r = omega (
  arith,
  length-append (to_le 8 r.id) (to_le 1 r.type ++ to_le 4 r.error),
  length-append (to_le 1 r.type) (to_le 4 r.error),
  length-to_le 8 r.id,
  length-to_le 1 r.type,
  length-to_le 4 r.error,
)

pub request_bytes-head : (r : Request) → request_bytes r ≡ request_head r ++ r.block
unfolding request_bytes request_head
request_bytes-head r = simp append_assoc

pub reply_bytes-head : (r : Reply) → reply_bytes r ≡ reply_head r ++ r.block
unfolding reply_bytes reply_head
reply_bytes-head r = simp append_assoc

request_head-append :
    (r : Request) (rest : List ℕ)
    → request_head r ++ rest ≡ to_le 8 r.id ++ (to_le 1 r.type ++ (to_le 8 r.offset ++ rest))
unfolding request_head
request_head-append r rest = simp append_assoc

reply_head-append :
    (r : Reply) (rest : List ℕ)
    → reply_head r ++ rest ≡ to_le 8 r.id ++ (to_le 1 r.type ++ (to_le 4 r.error ++ rest))
unfolding reply_head
reply_head-append r rest = simp append_assoc

-- What Send passes on when it is given the header's length.
pub take-request_bytes : (r : Request) → take request_header (request_bytes r) ≡ request_head r
take-request_bytes r =
    rw (request_bytes-head r) (take-append request_header _ _ (length-request_head r))

pub take-reply_bytes : (r : Reply) → take reply_header (reply_bytes r) ≡ reply_head r
take-reply_bytes r = rw (reply_bytes-head r) (take-append reply_header _ _ (length-reply_head r))

-- A header that arrives over a message in memory: its fields, and the block that was there.
pub overlay-request_head :
    (r junk : Request)
    → IsRequest r
    → bytes_request (overlay (request_head r) (request_bytes junk))
      ≡ record r { block = junk.block }
unfolding overlay
overlay-request_head r junk v =
    rw
      (
        length-request_head r,
        request_bytes-head junk,
        drop-append request_header (request_head junk) junk.block (length-request_head junk),
      )
      (ap bytes_request (request_head-append r junk.block) ∙ bytes_request-header r junk.block v)

pub overlay-reply_head :
    (r junk : Reply)
    → IsReply r
    → bytes_reply (overlay (reply_head r) (reply_bytes junk)) ≡ record r { block = junk.block }
unfolding overlay
overlay-reply_head r junk v =
    rw
      (
        length-reply_head r,
        reply_bytes-head junk,
        drop-append reply_header (reply_head junk) junk.block (length-reply_head junk),
      )
      (ap bytes_reply (reply_head-append r junk.block) ∙ bytes_reply-header r junk.block v)

pub length-reply_bytes : (r : Reply) → IsReply r → length (reply_bytes r) ≡ reply_size
length-reply_bytes r v =
    rw (reply_bytes-head r)
      (omega (arith, length-append (reply_head r) r.block, length-reply_head r, v.block_fits))

-- A whole reply replaces the message in memory.
pub overlay-reply_bytes :
    (r junk : Reply)
    → IsReply r
    → IsReply junk
    → bytes_reply (overlay (reply_bytes r) (reply_bytes junk)) ≡ r
unfolding overlay
overlay-reply_bytes r junk v w =
    rw
      (
        length-reply_bytes r v,
        drop-length reply_size (reply_bytes junk) (omega (arith, length-reply_bytes junk w)),
        append-nil,
      )
      (bytes_reply-reply_bytes r v)
