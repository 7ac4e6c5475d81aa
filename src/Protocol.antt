-- ===== src/Protocol.antt =====
-- The messages between master and minions (app_protocol/app_protocol.hpp, app_protocol.cpp) and
-- protocol_translator/protocol_translator.cpp. A message in memory is its fields; its bytes are
-- those of the packed struct.
pub mod Layout
pub mod Fields
pub mod Wire
use distributed_disk.Common.{
  ℕ, ◌+◌, ◌%◌, ◌^◌, ◌<◌, ◌≡◌, Option, none, some, List, ◌++◌, length, take, drop, replicate,
}
use distributed_disk.Common.Bytes.{to_le, of_le, range_of}

abbrev pub block_size : ℕ
block_size = 4096

abbrev pub Block : Type 0
Block = List ℕ

-- error_t
pub data ErrorCode : Type 0 where
  no_error not_enough_space corruption block_not_founed : ErrorCode

abbrev pub code_of : ErrorCode → ℕ
code_of no_error = 0
code_of not_enough_space = 1
code_of corruption = 2
code_of block_not_founed = 3

pub record Request : Type 0 where
  pub id : ℕ
  pub type : ℕ
  pub offset : ℕ
  pub block : Block

-- The error is kept as the number in memory, which an uninitialised reply leaves arbitrary.
pub record Reply : Type 0 where
  pub id : ℕ
  pub type : ℕ
  pub error : ℕ
  pub block : Block

-- `m_block()` is zeroed, then memcpy copies a block if one is given.
unfoldable pub init_block : Option Block → Block
init_block none = replicate block_size 0
init_block (some b) = take block_size b

unfoldable pub make_request : ℕ → ℕ → ℕ → Option Block → Request
make_request id type offset block = record {
  id = id;
  type = type % 256;
  offset = offset;
  block = init_block block;
}

unfoldable pub make_reply : ℕ → ℕ → ErrorCode → Option Block → Reply
make_reply id type error block = record {
  id = id;
  type = type % 256;
  error = code_of error;
  block = init_block block;
}

-- offsetof(Request_t, m_block), sizeof(Request_t), offsetof(Reply_t, m_block), sizeof(Reply_t)
abbrev pub request_header : ℕ
request_header = 17

abbrev pub request_size : ℕ
request_size = 4113

abbrev pub reply_header : ℕ
reply_header = 13

abbrev pub reply_size : ℕ
reply_size = 4109

-- The packed structs as bytes, and bytes read through a pointer to the struct.
unfoldable pub request_bytes : Request → List ℕ
request_bytes r = to_le 8 r.id ++ (to_le 1 r.type ++ (to_le 8 r.offset ++ r.block))

unfoldable pub bytes_request : List ℕ → Request
bytes_request bs = record {
  id = of_le (take 8 bs);
  type = of_le (take 1 (drop 8 bs));
  offset = of_le (take 8 (drop 1 (drop 8 bs)));
  block = drop 8 (drop 1 (drop 8 bs));
}

unfoldable pub reply_bytes : Reply → List ℕ
reply_bytes r = to_le 8 r.id ++ (to_le 1 r.type ++ (to_le 4 r.error ++ r.block))

unfoldable pub bytes_reply : List ℕ → Reply
bytes_reply bs = record {
  id = of_le (take 8 bs);
  type = of_le (take 1 (drop 8 bs));
  error = of_le (take 4 (drop 1 (drop 8 bs)));
  block = drop 4 (drop 1 (drop 8 bs));
}

-- The static `id_conter` is the state: it comes back incremented.
unfoldable pub translate_request : ℕ → ℕ → ℕ → Option Block → Request × ℕ
translate_request id_conter offset type block =
    let id = (id_conter + 1) % 2 ^ 64 in (make_request id type offset block, id)

unfoldable pub translate_reply : ℕ → ℕ → Block → ErrorCode → Reply
translate_reply id type block error = make_reply id type error (some block)

-- The fields fit their widths.
pub record IsRequest (r : Request) : Type 0 where
  pub id_fits : r.id < range_of 8
  pub type_fits : r.type < range_of 1
  pub offset_fits : r.offset < range_of 8
  pub block_fits : length r.block ≡ block_size

pub record IsReply (r : Reply) : Type 0 where
  pub id_fits : r.id < range_of 8
  pub type_fits : r.type < range_of 1
  pub error_fits : r.error < range_of 4
  pub block_fits : length r.block ≡ block_size
