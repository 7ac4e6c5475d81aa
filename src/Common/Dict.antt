-- ===== src/Common/Dict.antt =====
-- std::map and boost::unordered_map: an association list, in the order in which a walk meets the
-- entries. `insert` is `m[k] = v`, `erase` drops a key.
use distributed_disk.Common.{
  ◌≡◌, refl, true, Option, none, some, List, [], ◌∷◌, arith, Eq, ◌==◌, if◌then◌else◌,
}

module _ {ℓ κ} {K : Type ℓ} {V : Type κ} ⦃e : Eq K⦄ where
  unfoldable pub lookup : K → List (K × V) → Option V
  lookup key [] = none
  lookup key ((probe, value) ∷ entries) = if probe == key then some value else lookup key entries

  unfoldable pub insert : K → V → List (K × V) → List (K × V)
  insert key value [] = (key, value) ∷ []
  insert key value ((probe, old) ∷ entries) =
      if probe == key then (key, value) ∷ entries else (probe, old) ∷ insert key value entries

  unfoldable pub erase : K → List (K × V) → List (K × V)
  erase key [] = []
  erase key ((probe, old) ∷ entries) =
      let rest = erase key entries in if probe == key then rest else (probe, old) ∷ rest

  pub lookup-insert :
      (key probe : K) (value : V) (entries : List (K × V))
      → lookup probe (insert key value entries)
        ≡ (if key == probe then some value else lookup probe entries)
  unfolding lookup insert
  lookup-insert key probe value [] = refl
  lookup-insert key probe value ((first, old) ∷ entries) = ground (
    arith,
    e.beq_iff key probe,
    e.beq_iff first key,
    e.beq_iff first probe,
    lookup-insert key probe value entries,
  )

  pub lookup-erase :
      (key probe : K) (entries : List (K × V))
      → lookup probe (erase key entries) ≡ (if key == probe then none else lookup probe entries)
  unfolding lookup erase
  lookup-erase key probe [] = ground arith
  lookup-erase key probe ((first, old) ∷ entries) = ground (
    arith,
    e.beq_iff key probe,
    e.beq_iff first key,
    e.beq_iff first probe,
    lookup-erase key probe entries,
  )

pub beq_refl {ℓ} : {K : Type ℓ} ⦃e : Eq K⦄ (key : K) → (key == key) ≡ true
beq_refl ⦃e⦄ key = (e.beq_iff key key).1 refl

pub lookup-insert_self {ℓ κ} :
    {K : Type ℓ} {V : Type κ} ⦃e : Eq K⦄ (key : K) (value : V) (entries : List (K × V))
    → lookup key (insert key value entries) ≡ some value
lookup-insert_self key value entries = rw (lookup-insert key key value entries, beq_refl key)
