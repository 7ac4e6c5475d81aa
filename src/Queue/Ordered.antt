-- ===== src/Queue/Ordered.antt =====
-- The order in which elements leave the queues.
use mathlib.Core.List.{append-nil, append_assoc}
use distributed_disk.Common.{
  ℕ, zero, suc, ◌≡◌, refl, ap, sym, ◌∙◌, Bool, true, false, none, List, [], ◌∷◌, ◌++◌, arith,
  replicate, All, if◌then◌else◌, Bool-cases, inl, inr,
}
use distributed_disk.Common.Exec.{ok}
use distributed_disk.Queue.{
  fifo, insert_ordered, push, push_all, pop, pop_or, Wake, pop_until, pop_some,
}

module _ {A : Type 0} where
  -- How many elements pass a test.
  unfoldable pub count : (A → Bool) → List A → ℕ
  count test [] = 0
  count test (a ∷ xs) = let rest = count test xs in if test a then suc rest else rest

  pub All-weaken : {P Q : A → Type 0} (xs : List A) → ((a : A) → P a → Q a) → All P xs → All Q xs
  All-weaken [] f all = tt
  All-weaken (a ∷ xs) f (p, all) = (f a p, All-weaken xs f all)

-- A strict order on A, as a test.
pub record IsOrder {A : Type 0} (less : A → A → Bool) : Type 0 where
  pub asym : (a b : A) → less a b ≡ true → less b a ≡ false
  -- not less is transitive
  pub trans : (a b c : A) → less a b ≡ false → less b c ≡ false → less a c ≡ false

module _ {A : Type 0} (less : A → A → Bool) where
  -- Nothing behind an element is greater.
  abbrev pub IsDescending : List A → Type 0
  IsDescending [] = Unit {0}
  IsDescending (a ∷ xs) = All (λ b. less a b ≡ false) xs × IsDescending xs

  All-insert_ordered :
      (P : A → Type 0) (a : A) (q : List A) → P a → All P q → All P (insert_ordered less a q)
  unfolding insert_ordered
  All-insert_ordered P a [] p all = (p, tt)
  All-insert_ordered P a (b ∷ q) p (h, all) = elim (Bool-cases (less b a)) [
    | inl up ↦ rw up (p, (h, all))
    | inr down ↦ rw down (h, All-insert_ordered P a q p all)
  ]

  -- A push keeps the queue descending, and the elements are those of the queue and the new one.
  pub insert_ordered-IsDescending :
      (a : A) (q : List A)
      → IsOrder less
      → IsDescending q
      → IsDescending (insert_ordered less a q)
        × ((test : A → Bool) → count test (insert_ordered less a q) ≡ count test (a ∷ q))
  unfolding insert_ordered count
  insert_ordered-IsDescending a [] o d = ((tt, tt), λ test. refl)
  insert_ordered-IsDescending a (b ∷ q) o d = elim (Bool-cases (less b a)) [
    | inl up ↦ rw up (
      ((o.asym b a up, All-weaken q (λ c h. o.trans a b c (o.asym b a up) h) d.0), d),
      λ test. refl,
    )
    | inr down ↦
        let (sorted, counted) = insert_ordered-IsDescending a q o d.1 in
        rw down (
          (All-insert_ordered (λ c. less b c ≡ false) a q down d.0, sorted),
          λ test. ground (arith, counted test),
        )
  ]

push_all-append : {A : Type 0} (q xs : List A) → push_all fifo xs q ≡ q ++ xs
unfolding push_all push
push_all-append q [] = sym (append-nil q)
push_all-append q (a ∷ xs) = push_all-append (q ++ a ∷ []) xs ∙ append_assoc q (a ∷ []) xs

pop-cons :
    {A : Type 0} (a : A) (q : List A) (wakes : List (List A)) → pop fifo wakes (a ∷ q) ≡ ok (a, q)
unfolding pop pop_or
pop-cons a q [] = refl
pop-cons a q (w ∷ wakes) = refl

-- Pop on an empty std::queue sleeps through any number of wake-ups with nothing pushed, takes the
-- first element that is pushed then, and leaves the ones behind it in their order.
pub pop_waits :
    {A : Type 0} (k : ℕ) (a : A) (more : List A) (later : List (List A))
    → pop fifo (replicate k [] ++ (a ∷ more) ∷ later) [] ≡ ok (a, more)
unfolding pop push_all push pop_or replicate
pop_waits zero a more later =
    ap (pop fifo later) (push_all-append (a ∷ []) more) ∙ pop-cons a more later
pop_waits (suc k) a more later = pop_waits k a more later

-- Pop with a time-out gives up only at a time-out, and leaves in the queue what was pushed while it
-- waited.
pub pop_until_gives_up :
    {A : Type 0} (k : ℕ) (last : List A) (later : List (Wake A))
    → pop_until fifo
        (replicate k (record { pushed = []; timeout = false })
          ++ (record { pushed = last; timeout = true }) ∷ later)
        []
      ≡ ok (none, last)
unfolding pop_until push_all push pop_some replicate
pop_until_gives_up zero last later = ap (λ q. ok (none, q)) (push_all-append [] last)
pop_until_gives_up (suc k) last later = pop_until_gives_up k last later
