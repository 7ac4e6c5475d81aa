-- ===== src/ThreadPool/Totals.antt =====
-- Sums over the threads of the pool's map, and what a thread that goes on or ends does to them.
use distributed_disk.Common.{
  ℕ, ◌+◌, ◌≡◌, refl, none, some, List, [], ◌∷◌, arith, length, nat_eq, nat_eqb, nat_eqb_iff,
  Bool-cases, inl, inr,
}
use distributed_disk.Common.Dict.{lookup, insert, erase, lookup-insert, lookup-erase}
use distributed_disk.ThreadPool.{Doing}

abbrev pub total : (Doing → ℕ) → List (ℕ × Doing) → ℕ
total w [] = 0
total w ((t, d) ∷ threads) = w d + total w threads

-- No thread is twice in the map.
abbrev pub IsUnique : List (ℕ × Doing) → Type 0
IsUnique [] = Unit {0}
IsUnique ((t, d) ∷ threads) = (lookup t threads ≡ none) × IsUnique threads

-- A thread that goes on.
module _ (t : ℕ) (d d' : Doing) where
  pub total-insert :
      (w : Doing → ℕ) (threads : List (ℕ × Doing))
      → lookup t threads ≡ some d
      → total w (insert t d' threads) + w d ≡ total w threads + w d'
  unfolding lookup insert
  total-insert w [] h = absurd cc
  total-insert w ((s, e) ∷ threads) h = ground (arith, total-insert w threads)

  pub length-insert :
      (threads : List (ℕ × Doing))
      → lookup t threads ≡ some d
      → length (insert t d' threads) ≡ length threads
  unfolding lookup insert
  length-insert [] h = absurd cc
  length-insert ((s, e) ∷ threads) h = ground (arith, length-insert threads)

pub insert-IsUnique :
    (t : ℕ) (d : Doing) (threads : List (ℕ × Doing))
    → IsUnique threads
    → IsUnique (insert t d threads)
unfolding lookup insert
insert-IsUnique t d [] u = (refl, tt)
insert-IsUnique t d ((s, e) ∷ threads) u = elim (Bool-cases (nat_eqb s t)) [
  | inl same ↦ rw same (ground (arith, nat_eqb_iff s t, u.0), u.1)
  | inr other ↦ rw other (
    ground (arith, nat_eqb_iff s t, nat_eqb_iff t s, lookup-insert t s d threads, u.0),
    insert-IsUnique t d threads u.1,
  )
]

-- A thread that ends.
erase-absent :
    (t : ℕ) (threads : List (ℕ × Doing)) → lookup t threads ≡ none → erase t threads ≡ threads
unfolding lookup erase
erase-absent t [] h = refl
erase-absent t ((s, e) ∷ threads) h = ground (arith, erase-absent t threads)

pub erase-IsUnique :
    (t : ℕ) (threads : List (ℕ × Doing)) → IsUnique threads → IsUnique (erase t threads)
unfolding lookup erase
erase-IsUnique t [] u = tt
erase-IsUnique t ((s, e) ∷ threads) u = elim (Bool-cases (nat_eqb s t)) [
  | inl same ↦ rw same (erase-IsUnique t threads u.1)
  | inr other ↦ rw other (
    ground (arith, nat_eqb_iff s t, nat_eqb_iff t s, lookup-erase t s threads, u.0),
    erase-IsUnique t threads u.1,
  )
]

pub total-erase :
    (w : Doing → ℕ) (t : ℕ) (d : Doing) (threads : List (ℕ × Doing))
    → IsUnique threads
    → lookup t threads ≡ some d
    → total w (erase t threads) + w d ≡ total w threads
unfolding lookup erase
total-erase w t d [] u h = absurd cc
total-erase w t d ((s, e) ∷ threads) u h =
    ground (arith, nat_eqb_iff s t, erase-absent t threads, u.0, total-erase w t d threads u.1)

pub length-erase :
    (t : ℕ) (d : Doing) (threads : List (ℕ × Doing))
    → IsUnique threads
    → lookup t threads ≡ some d
    → length (erase t threads) + 1 ≡ length threads
unfolding lookup erase
length-erase t d [] u h = absurd cc
length-erase t d ((s, e) ∷ threads) u h =
    ground (arith, nat_eqb_iff s t, erase-absent t threads, u.0, length-erase t d threads u.1)
