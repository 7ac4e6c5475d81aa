-- ===== src/Storage.antt =====
-- storage/storage.hpp and storage/storage.cpp: the blocks that a minion keeps. `m_map` maps a key
-- to the address of a block on the heap.
pub mod Ownership
pub mod Contents
pub mod Loads
use Prim.Native.Nat.{max}
use distributed_disk.Common.{ℕ, suc, Option, none, some, List, [], ◌∷◌, ◌++◌, nat_eq, take}
use distributed_disk.Common.Dict.{lookup, insert, erase}
use distributed_disk.Common.Bytes.{to_le, overlay}
use distributed_disk.Protocol.{Block, block_size, ErrorCode, no_error, block_not_founed}

abbrev pub Address : Type 0
Address = ℕ

pub record Storage : Type 0 where
  pub map : List (ℕ × Address)
  pub heap : List (Address × Block)

-- StorageManager::StorageManager
abbrev pub empty : Storage
empty = record { map = []; heap = [] }

-- `operator new` returns an address that is not in use.
unfoldable pub new_address : List (Address × Block) → Address
new_address [] = 1
new_address ((p, b) ∷ heap) = max (suc p) (new_address heap)

-- delete(m_map[key]), if the key is there
unfoldable pub free_old : Option Address → List (Address × Block) → List (Address × Block)
free_old none heap = heap
free_old (some p) heap = erase p heap

unfoldable pub store : Block → ℕ → Storage → ErrorCode × Storage
unfolding free_old
store block key s =
    let heap = free_old (lookup key s.map) s.heap in
    let new_block = new_address heap in
    (
      no_error,
      record {
        map = insert key new_block s.map;
        heap = insert new_block (take block_size block) heap;
      },
    )

-- memcpy(block, &(m_map[key]), 4096): the source of the copy is the entry of the map, which holds
-- the eight bytes of the address; `beyond` is what memory holds behind it.
unfoldable pub load_entry : List ℕ → Block → Option Address → ErrorCode × Block
load_entry beyond block none = (block_not_founed, overlay (0 ∷ []) block)
load_entry beyond block (some p) = (no_error, overlay (take block_size (to_le 8 p ++ beyond)) block)

unfoldable pub load : List ℕ → Block → ℕ → Storage → ErrorCode × Block
unfolding load_entry
load beyond block key s = load_entry beyond block (lookup key s.map)
