-- ===== src/Storage/Loads.antt =====
-- What `load` gives: it tells stored keys from missing ones, and copies from the wrong place.
use distributed_disk.Common.{
  ℕ, ◌+◌, ◌≡◌, ◌≢◌, refl, ap, ◌∙◌, sym, none, some, List, ◌∷◌, ◌++◌, arith, nat_eq, length, take,
  drop, take-append, Option-cases, inl, inr, length-append, take-length, drop-length,
}
use mathlib.Core.List.{append-nil}
use distributed_disk.Common.Dict.{lookup}
use distributed_disk.Common.Bytes.{to_le, overlay, length-to_le}
use distributed_disk.Protocol.{Block, block_size, block_not_founed}
use distributed_disk.Storage.{Address, Storage, load, load_entry}
use distributed_disk.Storage.Ownership.{IsStorage}
use distributed_disk.Storage.Contents.{contents, deref}

module _ (beyond : List ℕ) (buffer : Block) (key : ℕ) (s : Storage) where
  -- Load reports BLOCK_NOT_FOUNED exactly for the keys that hold no block.
  pub load_status :
      IsStorage s
      → ((load beyond buffer key s).0 ≡ block_not_founed → contents s key ≡ none)
        × (contents s key ≡ none → (load beyond buffer key s).0 ≡ block_not_founed)
  unfolding load contents
  load_status v = elim (Option-cases (lookup key s.map)) [
    | inl e ↦ rw (e, load_entry, deref) ((λ _. refl), (λ _. refl))
    | inr (p, e) ↦ rw (e, load_entry, deref) ((λ h. cc), (λ h. absurd (v.live key p e h)))
  ]

  -- For a missing key the first byte of the buffer is cleared and the rest is left as it was.
  pub load_missing :
      contents s key ≡ none → IsStorage s → (load beyond buffer key s).1 ≡ 0 ∷ drop 1 buffer
  unfolding load contents overlay
  load_missing e v = elim (Option-cases (lookup key s.map)) [
    | inl none_there ↦ rw (none_there, load_entry)
    | inr (p, there) ↦ absurd (v.live key p there (rw (there, deref) at e))
  ]

  -- For a stored key Load gives the bytes of the block's address and what memory holds behind the
  -- map's entry, whatever the block is.
  pub load_present :
      (p : Address)
      → lookup key s.map ≡ some p
      → length buffer ≡ block_size
      → 8 + length beyond ≡ block_size
      → (load beyond buffer key s).1 ≡ to_le 8 p ++ beyond
  unfolding load overlay
  load_present p e room rest =
      rw (e, load_entry)
        (copied (to_le 8 p ++ beyond) buffer
          (omega (arith, length-append (to_le 8 p) beyond, length-to_le 8 p)) room)
    where
      copied :
          (xs ys : List ℕ)
          → length xs ≡ block_size
          → length ys ≡ block_size
          → take block_size xs ++ drop (length (take block_size xs)) ys ≡ xs
      copied xs ys h k =
          rw (take-length block_size xs (omega arith), drop-length (length xs) ys (omega arith))
            (append-nil xs)

  -- For a stored key, where the buffer is a block and the memory behind the map's entry fills one,
  -- Load gives back no block that does not begin with the bytes of its own address.
  pub load_wrong :
      (p : Address) (block : Block)
      → lookup key s.map ≡ some p
      → length buffer ≡ block_size
      → 8 + length beyond ≡ block_size
      → take 8 block ≢ to_le 8 p
      → (load beyond buffer key s).1 ≢ block
  load_wrong p block e room rest differs same = differs (
      ap (take 8) (sym same ∙ load_present p e room rest)
      ∙ take-append 8 (to_le 8 p) beyond (length-to_le 8 p))
