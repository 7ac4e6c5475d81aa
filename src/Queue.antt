-- ===== src/Queue.antt =====
-- waitable_queue/waitable_queue.hpp and waitable_queue_impl.hpp over the two containers that the
-- program gives it: std::queue, and PQWrapper (waitable_queue/pq_wrraper.hpp, pq_wrapper_impl.hpp).
-- Each call runs under the queue's mutex, so that a call is one step; the result comes back where
-- the code writes it through a pointer.
pub mod Ordered
use distributed_disk.Common.{
  ℕ, Bool, true, false, Option, none, some, List, [], ◌∷◌, ◌++◌, if◌then◌else◌, ◌||◌, ◌&&◌, ltb,
  nat_eqb,
}
use distributed_disk.Common.Exec.{Outcome, ok, blocked}

-- What WaitableQueue asks of its CONTAINER: `front` and `pop` in one, and `push`.
pub record Container (Q A : Type 0) : Type 0 where
  pub pop : Q → Option (A × Q)
  pub push : A → Q → Q

-- std::queue
abbrev pop_first : {A : Type 0} → List A → Option (A × List A)
pop_first [] = none
pop_first (a ∷ xs) = some (a, xs)

abbrev pub fifo : {A : Type 0} → Container (List A) A
fifo = record { pop = pop_first; push = λ a q. q ++ a ∷ [] }

-- std::priority_queue with std::less: the greatest element is in front. A list in descending order
-- stands for the heap.
module _ {A : Type 0} (less : A → A → Bool) where
  unfoldable pub insert_ordered : A → List A → List A
  insert_ordered a [] = a ∷ []
  insert_ordered a (b ∷ q) =
      let rest = insert_ordered a q in if less b a then a ∷ b ∷ q else b ∷ rest

  abbrev pub pq_wrapper : Container (List A) A
  pq_wrapper = record { pop = pop_first; push = insert_ordered }

-- What happens while a call waits: what other threads push in the meantime, and whether the wait
-- ended because its time was over.
pub record Wake (A : Type 0) : Type 0 where
  pub pushed : List A
  pub timeout : Bool

module _ {Q A : Type 0} (c : Container Q A) where
  -- WaitableQueue::IsEmpty
  no_element : Option (A × Q) → Bool
  no_element none = true
  no_element (some x) = false

  unfoldable pub is_empty : Q → Bool
  unfolding no_element
  is_empty q = no_element (c.pop q)

  -- WaitableQueue::Push
  unfoldable pub push : A → Q → Q
  push a q = c.push a q

  unfoldable pub push_all : List A → Q → Q
  unfolding push
  push_all [] q = q
  push_all (a ∷ xs) q = push_all xs (push a q)

  -- WaitableQueue::Pop, over what wakes it up: the loop looks at the queue again each time.
  unfoldable pub pop_or : Option (A × Q) → Outcome (A × Q) → Outcome (A × Q)
  pop_or none wait = wait
  pop_or (some x) wait = ok x

  unfoldable pub pop : List (List A) → Q → Outcome (A × Q)
  unfolding pop_or push_all
  pop [] q = pop_or (c.pop q) blocked
  pop (pushed ∷ wakes) q = let waited = pop wakes (push_all pushed q) in pop_or (c.pop q) waited

  -- WaitableQueue::Pop with a time-out: the boolean, with the element where there is one.
  unfoldable pub pop_some : Option (A × Q) → Outcome (Option A × Q) → Outcome (Option A × Q)
  pop_some none wait = wait
  pop_some (some (a, q)) wait = ok (some a, q)

  unfoldable pub pop_until : List (Wake A) → Q → Outcome (Option A × Q)
  unfolding pop_some push_all
  pop_until [] q = pop_some (c.pop q) blocked
  pop_until (wake ∷ wakes) q =
      let q' = push_all wake.pushed q in
      let waited = pop_until wakes q' in
      pop_some (c.pop q) (if wake.timeout then ok (none, q') else waited)
