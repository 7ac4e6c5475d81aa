-- ===== src/Storage/Ownership.antt =====
-- Keys own the blocks on the heap, one each: no dangling pointer, no sharing, no leak.
use distributed_disk.Common.{
  ℕ, ◌≤◌, ◌≡◌, ◌≢◌, refl, Option, none, some, List, [], ◌∷◌, arith, nat_eq, nat_eqb_iff, length,
  ◌==◌, if◌then◌else◌, length-take, inl, inr, Bool-cases, take, sym, ◌∙◌,
}
use distributed_disk.Common.Dict.{lookup, lookup-insert, lookup-erase}
use distributed_disk.Protocol.{Block, block_size}
use distributed_disk.Storage.{Address, Storage, empty, new_address, free_old, store}

-- An address at or above `new_address` is not in use.
fresh_above : (heap : List (Address × Block)) (p : ℕ) → new_address heap ≤ p → lookup p heap ≡ none
unfolding new_address lookup
fresh_above [] p h = refl
fresh_above ((q, b) ∷ heap) p h = ground (arith, fresh_above heap p)

pub lookup-new_address : (heap : List (Address × Block)) → lookup (new_address heap) heap ≡ none
lookup-new_address heap = fresh_above heap (new_address heap) (omega arith)

pub record IsStorage (s : Storage) : Type 0 where
  pub live : (k p : ℕ) → lookup k s.map ≡ some p → lookup p s.heap ≢ none
  pub distinct : (k j p : ℕ) → lookup k s.map ≡ some p → lookup j s.map ≡ some p → k ≡ j
  pub owned : (p : ℕ) → lookup p s.heap ≢ none → (k : ℕ) × (lookup k s.map ≡ some p)
  pub sized : (p : ℕ) (b : Block) → lookup p s.heap ≡ some b → length b ≡ block_size

pub empty-IsStorage : IsStorage empty
unfolding lookup
empty-IsStorage = record {
  live = λ k p e. cc;
  distinct = λ k j p e. cc;
  owned = λ p h. absurd (h refl);
  sized = λ p b e. cc;
}

-- The heap between `delete` and `new`.
pub lookup-free_old :
    (o : Option Address) (heap : List (Address × Block)) (p : ℕ)
    → (o ≡ some p → ⊥)
    → lookup p (free_old o heap) ≡ lookup p heap
unfolding free_old
lookup-free_old none heap p h = refl
lookup-free_old (some q) heap p h = rw lookup-erase (ground (arith, nat_eqb_iff q p))

-- What `delete` frees is gone, and nothing appears.
lookup-free_old_self :
    (o : Option Address) (p : Address) (heap : List (Address × Block))
    → o ≡ some p
    → lookup p (free_old o heap) ≡ none
unfolding free_old
lookup-free_old_self none p heap e = cc
lookup-free_old_self (some q) p heap e = rw lookup-erase (ground (arith, nat_eqb_iff q p))

free_old-none :
    (o : Option Address) (p : Address) (heap : List (Address × Block))
    → lookup p heap ≡ none
    → lookup p (free_old o heap) ≡ none
unfolding free_old
free_old-none none p heap e = e
free_old-none (some q) p heap e = rw lookup-erase (ground arith)

free_old-le :
    (o : Option Address) (p : Address) (heap : List (Address × Block)) (b : Block)
    → lookup p (free_old o heap) ≡ some b
    → lookup p heap ≡ some b
unfolding free_old
free_old-le none p heap b e = e
free_old-le (some q) p heap b e = ground (arith, lookup-erase q p heap)

module _ (block : Block) (key : ℕ) (s : Storage) where
  -- The address that `store` takes.
  pub target : Address
  target = new_address (free_old (lookup key s.map) s.heap)

  pub lookup_map-store :
      (j : ℕ)
      → lookup j (store block key s).1.map ≡ (if key == j then some target else lookup j s.map)
  unfolding store target
  lookup_map-store j = lookup-insert key j _ s.map

  pub lookup_heap-store :
      (q : Address)
      → lookup q (store block key s).1.heap ≡ (
          if target == q
          then some (take block_size block)
          else lookup q (free_old (lookup key s.map) s.heap))
  unfolding store target
  lookup_heap-store q = lookup-insert target q _ _

  pub target-unused : lookup target (free_old (lookup key s.map) s.heap) ≡ none
  unfolding target
  target-unused = lookup-new_address _

  module _ (v : IsStorage s) where
    -- No key but the one that is stored owns the address.
    pub target-ne : (j : ℕ) (p : Address) → key ≢ j → lookup j s.map ≡ some p → target ≢ p
    target-ne j p other e same = v.live j p e (
        sym (lookup-free_old (lookup key s.map) s.heap p (λ f. other (v.distinct key j p f e)))
        ∙ rw same at target-unused)

    -- The other keys' blocks are where they were.
    pub kept :
        (j : ℕ) (p : Address)
        → key ≢ j
        → lookup j s.map ≡ some p
        → lookup p (store block key s).1.heap ≡ lookup p s.heap
    kept j p other e = rw (lookup_heap-store p) (
        ground (
          arith,
          nat_eqb_iff target p,
          target-ne j p other e,
          lookup-free_old (lookup key s.map) s.heap p,
          v.distinct key j p,
        ))

    store-live :
        (j p : ℕ)
        → lookup j (store block key s).1.map ≡ some p
        → lookup p (store block key s).1.heap ≢ none
    store-live j p e gone = ground (
      arith,
      lookup_map-store j,
      lookup_heap-store p,
      nat_eqb_iff key j,
      nat_eqb_iff target p,
      kept j p,
      v.live j p,
    )

    store-distinct :
        (i j p : ℕ)
        → lookup i (store block key s).1.map ≡ some p
        → lookup j (store block key s).1.map ≡ some p
        → i ≡ j
    store-distinct i j p e f = ground (
      arith,
      lookup_map-store i,
      lookup_map-store j,
      nat_eqb_iff key i,
      nat_eqb_iff key j,
      target-ne i p,
      target-ne j p,
      v.distinct i j p,
    )

    store-owned :
        (p : ℕ)
        → lookup p (store block key s).1.heap ≢ none
        → (j : ℕ) × (lookup j (store block key s).1.map ≡ some p)
    store-owned p h = elim (Bool-cases (target == p)) [
      | inl same ↦
          (key, ground (arith, lookup_map-store key, nat_eqb_iff key key, nat_eqb_iff target p))
      | inr other ↦
          let old = v.owned p (λ e.
            h (rw (lookup_heap-store p, other) (free_old-none (lookup key s.map) p s.heap e))) in
          (
            old.0,
            ground (
              arith,
              lookup_map-store old.0,
              lookup_heap-store p,
              nat_eqb_iff key old.0,
              lookup-free_old_self (lookup key s.map) p s.heap,
              old.1,
              other,
            ),
          )
    ]

    store-sized :
        (p : ℕ) (b : Block)
        → length block ≡ block_size
        → lookup p (store block key s).1.heap ≡ some b
        → length b ≡ block_size
    store-sized p b fits e = ground (
      arith,
      lookup_heap-store p,
      length-take block_size block,
      free_old-le (lookup key s.map) p s.heap b,
      v.sized p b,
    )

    -- Storing a block of 4096 bytes keeps the ownership.
    pub store-IsStorage : length block ≡ block_size → IsStorage (store block key s).1
    store-IsStorage fits = record {
      live = store-live;
      distinct = store-distinct;
      owned = store-owned;
      sized = λ p b e. store-sized p b fits e;
    }
