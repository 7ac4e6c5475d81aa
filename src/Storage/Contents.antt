-- ===== src/Storage/Contents.antt =====
-- Storage seen as a map from keys to blocks: what the addresses and the heap stand for.
use distributed_disk.Common.{
  ℕ, ◌≡◌, refl, Option, none, some, List, [], ◌∷◌, arith, nat_eq, nat_eqb_iff, length, ◌==◌,
  if◌then◌else◌, take-length, All, ◌∙◌, Bool-cases, inl, inr,
}
use distributed_disk.Common.Dict.{lookup, beq_refl}
use distributed_disk.Protocol.{Block, block_size}
use distributed_disk.Storage.{Address, Storage, empty, store}
use distributed_disk.Storage.Ownership.{
  IsStorage, empty-IsStorage, store-IsStorage, lookup_map-store, lookup_heap-store, kept, target,
}

pub deref : Option Address → List (Address × Block) → Option Block
deref none heap = none
deref (some p) heap = lookup p heap

unfoldable pub contents : Storage → ℕ → Option Block
unfolding deref
contents s key = deref (lookup key s.map) s.heap

deref-eq :
    (o : Option Address) (heap : List (Address × Block)) (p : Address)
    → o ≡ some p
    → deref o heap ≡ lookup p heap
unfolding deref
deref-eq none heap p e = cc
deref-eq (some q) heap p e = ground arith

deref-kept :
    (o : Option Address) (heap heap' : List (Address × Block))
    → ((p : Address) → o ≡ some p → lookup p heap' ≡ lookup p heap)
    → deref o heap' ≡ deref o heap
unfolding deref
deref-kept none heap heap' h = refl
deref-kept (some p) heap heap' h = h p refl

-- After a store the key has the new block and every other key has what it had.
pub contents-store :
    (block : Block) (key : ℕ) (s : Storage) (j : ℕ)
    → IsStorage s
    → length block ≡ block_size
    → contents (store block key s).1 j ≡ (if key == j then some block else contents s j)
unfolding contents
contents-store block key s j v fits = elim (Bool-cases (key == j)) [
  | inl same ↦
      rw
        (
          lookup_map-store block key s j,
          same,
          deref,
          lookup_heap-store block key s,
          beq_refl (target block key s),
        )
        (ground (arith, take-length block_size block))
  | inr other ↦
      rw (lookup_map-store block key s j, other)
        (deref-kept (lookup j s.map) s.heap (store block key s).1.heap
          (λ p e. kept block key s v j p (ground (arith, nat_eqb_iff key j)) e))
]

-- A history of stores, oldest first.
unfoldable pub stores : Storage → List (ℕ × Block) → Storage
stores s [] = s
stores s ((key, block) ∷ rest) = stores (store block key s).1 rest

-- What the history should leave at a key: the block written last.
unfoldable pub last_write : Option Block → ℕ → List (ℕ × Block) → Option Block
last_write old j [] = old
last_write old j ((key, block) ∷ rest) = last_write (if key == j then some block else old) j rest

abbrev pub AreBlocks : List (ℕ × Block) → Type 0
AreBlocks = All (λ w. length w.1 ≡ block_size)

pub stores-IsStorage :
    (s : Storage) (history : List (ℕ × Block))
    → IsStorage s
    → AreBlocks history
    → IsStorage (stores s history)
unfolding stores
stores-IsStorage s [] v fits = v
stores-IsStorage s ((key, block) ∷ rest) v fits =
    stores-IsStorage (store block key s).1 rest (store-IsStorage block key s v fits.0) fits.1

contents-stores_from :
    (s : Storage) (history : List (ℕ × Block)) (j : ℕ)
    → IsStorage s
    → AreBlocks history
    → contents (stores s history) j ≡ last_write (contents s j) j history
unfolding stores last_write
contents-stores_from s [] j v fits = refl
contents-stores_from s ((key, block) ∷ rest) j v fits =
    contents-stores_from (store block key s).1 rest j (store-IsStorage block key s v fits.0) fits.1
    ∙ rw (contents-store block key s j v fits.0)

-- Any history of stores of blocks of 4096 bytes, from the empty storage, leaves at each key the
-- block written last there, and no dangling pointer, shared block or leak.
pub contents-stores :
    (history : List (ℕ × Block)) (j : ℕ)
    → AreBlocks history
    → (contents (stores empty history) j ≡ last_write none j history)
      × IsStorage (stores empty history)
unfolding contents lookup deref
contents-stores history j fits = (
  contents-stores_from empty history j empty-IsStorage fits,
  stores-IsStorage empty history empty-IsStorage fits,
)
