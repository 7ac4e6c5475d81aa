-- ===== src/ThreadPool/Pausing.antt =====
-- Pause and Run: the special tasks go ahead of the user's, and a thread can sleep through Run.
use distributed_disk.Common.{
  ℕ, zero, suc, ◌+◌, ◌<◌, ◌≡◌, ◌≢◌, ◌⊎◌, refl, ap, ◌∙◌, some, List, [], ◌∷◌, ◌++◌, arith, length,
  nat_eq, nat_eqb, nat_eqb_iff, Bool-cases, inl, inr, All,
}
use distributed_disk.Common.Dict.{lookup, insert, erase, lookup-insert, lookup-erase, beq_refl}
use distributed_disk.Queue.{insert_ordered}
use distributed_disk.Queue.Ordered.{IsOrder}
use distributed_disk.ThreadPool.Counts.{insert_special-apples}
use distributed_disk.ThreadPool.{
  critical, priority_number, sleeping_peel, Pair, less_pair, Doing, doing, about_to_wait, waiting,
  run_flag, pause_flag, ThreadPool, add, insert_special, notify_all, wake, run, pause, moved, Step,
  begin_wait, see_no_pause, see_pause, take_task, begin_task, taken, finish_task, eat_apple,
  wake_up, end_thread, user_task, poison_apple, idle, dying, call_add, call_run, call_pause,
}

pub less_pair-IsOrder : IsOrder less_pair
less_pair-IsOrder = record { asym = λ a b h. ground (arith); trans = λ a b c h k. ground (arith) }

-- Below the priority of the pool's own tasks.
abbrev pub IsUsers : Pair → Type 0
IsUsers pair = priority_number pair.priority < 4

abbrev pub IsPeel : Pair → Type 0
IsPeel pair = (pair.priority ≡ critical) × (pair.task ≡ sleeping_peel)

-- A critical pair goes among those in front.
insert_ordered-front :
    (pair : Pair) (peels tasks : List Pair)
    → pair.priority ≡ critical
    → All IsUsers tasks
    → insert_ordered less_pair pair (peels ++ tasks) ≡ insert_ordered less_pair pair peels ++ tasks
unfolding insert_ordered
insert_ordered-front pair [] [] top users = refl
insert_ordered-front pair [] (q ∷ tasks) top users =
    let number = ap priority_number top in let below = users.0 in ground arith
insert_ordered-front pair (q ∷ peels) tasks top users =
    let rest = insert_ordered-front pair peels tasks top users in ground arith

insert_ordered-peels :
    (pair : Pair) (peels : List Pair)
    → IsPeel pair
    → All IsPeel peels
    → All IsPeel (insert_ordered less_pair pair peels)
      × (length (insert_ordered less_pair pair peels) ≡ suc (length peels))
unfolding insert_ordered
insert_ordered-peels pair [] own all = ((own, tt), refl)
insert_ordered-peels pair (q ∷ peels) own all = elim (Bool-cases (less_pair q pair)) [
  | inl up ↦ rw up ((own, all), refl)
  | inr down ↦
      let (rest, long) = insert_ordered-peels pair peels own all.1 in
      rw down ((all.0, rest), ap suc long)
]

pub insert_special-front :
    (n : ℕ) (p : ThreadPool) (peels tasks : List Pair)
    → All IsPeel peels
    → All IsUsers tasks
    → p.tasks ≡ peels ++ tasks
    → (more : List Pair) × ((insert_special sleeping_peel n p).tasks ≡ more ++ tasks)
      × All IsPeel more
      × (length more ≡ n + length peels)
      × ((insert_special sleeping_peel n p).flag ≡ p.flag)
unfolding insert_special add
insert_special-front zero p peels tasks all users e = (peels, e, all, omega arith, refl)
insert_special-front (suc n) p peels tasks all users e =
    let pair : Pair = record {
      priority = critical;
      address = p.next_address;
      task = sleeping_peel;
    } in
    let (every, long) = insert_ordered-peels pair peels (refl, refl) all in
    let (more, same, still, count, flag) =
      insert_special-front n (add sleeping_peel critical p) (insert_ordered less_pair pair peels)
        tasks every users
        (ap (insert_ordered less_pair pair) e ∙ insert_ordered-front pair peels tasks refl users) in
    (more, same, still, omega (arith, count, long), flag)

-- Pause puts one sleeping peel for each thread ahead of all of the user's tasks, and leaves those
-- in their order.
pub pause_first :
    (p : ThreadPool)
    → All IsUsers p.tasks
    → (peels : List Pair) × ((pause p).tasks ≡ peels ++ p.tasks)
      × All IsPeel peels
      × (length peels ≡ length p.threads)
      × ((pause p).flag ≡ pause_flag)
unfolding pause
pause_first p users =
    let (peels, same, all, count, flag) =
      insert_special-front (length p.threads) (record p { flag = pause_flag }) [] p.tasks tt users
        refl in
    (peels, same, all, omega (arith, count), flag)

wake-about_to_wait :
    (t : ℕ) (threads : List (ℕ × Doing))
    → lookup t threads ≡ some about_to_wait
    → lookup t (notify_all threads) ≡ some about_to_wait
unfolding lookup notify_all wake
wake-about_to_wait t [] h = absurd cc
wake-about_to_wait t ((s, d) ∷ threads) h = ground (arith, wake-about_to_wait t threads)

other_moves :
    (s t : ℕ) (d d' : Doing) (threads : List (ℕ × Doing))
    → lookup t threads ≡ some waiting
    → lookup s threads ≡ some d
    → d ≢ waiting
    → lookup t (insert s d' threads) ≡ some waiting
other_moves s t d d' threads h here other =
    ground (arith, nat_eqb_iff s t, lookup-insert s t d' threads)

other_ends :
    (s t : ℕ) (threads : List (ℕ × Doing))
    → lookup t threads ≡ some waiting
    → lookup s threads ≡ some dying
    → lookup t (erase s threads) ≡ some waiting
other_ends s t threads h here = ground (arith, nat_eqb_iff s t, lookup-erase s t threads)

-- A waiting thread stays where it is in every step but its own waking up and a call of Run.
waiting_stays :
    (p q : ThreadPool) (t : ℕ)
    → lookup t p.threads ≡ some waiting
    → Step p q
    → (lookup t q.threads ≡ some waiting) ⊎ (q ≡ moved t (doing sleeping_peel) p) ⊎ (q ≡ run p)
unfolding add pause
waiting_stays p q t h (take_task _ s pair rest here front) =
    inl (other_moves s t idle (taken pair.task) p.threads h here (λ e. cc))
waiting_stays p q t h (begin_task _ s task here) =
    inl (other_moves s t (taken task) (doing task) p.threads h here (λ e. cc))
waiting_stays p q t h (finish_task _ s k here) =
    inl (other_moves s t (doing (user_task k)) idle p.threads h here (λ e. cc))
waiting_stays p q t h (eat_apple _ s here) =
    inl (other_moves s t (doing poison_apple) dying p.threads h here (λ e. cc))
waiting_stays p q t h (see_pause _ s here on) =
    inl (other_moves s t (doing sleeping_peel) about_to_wait p.threads h here (λ e. cc))
waiting_stays p q t h (see_no_pause _ s here off) =
    inl (other_moves s t (doing sleeping_peel) idle p.threads h here (λ e. cc))
waiting_stays p q t h (begin_wait _ s here) =
    inl (other_moves s t about_to_wait waiting p.threads h here (λ e. cc))
waiting_stays p q t h (wake_up _ s here) = elim (Bool-cases (nat_eqb s t)) [
  | inl same ↦ inr (inl (ap (λ k. moved k (doing sleeping_peel) p) ((nat_eqb_iff s t).0 same)))
  | inr other ↦ inl (ground (arith, lookup-insert s t (doing sleeping_peel) p.threads))
]
waiting_stays p q t h (end_thread _ s rest dead here) = inl (other_ends s t p.threads h here)
waiting_stays p q t h (call_add _ k priority) = inl h
waiting_stays p q t h (call_run _) = inr (inr refl)
waiting_stays p q t h (call_pause _) =
    let (counted, same) =
      insert_special-apples (length p.threads) sleeping_peel (record p { flag = pause_flag }) in
    inl (rw same h)

-- A thread that has read PAUSE when Run is called, and only then begins to wait, has missed the
-- notification: it waits although the pool runs, and no step of the pool but a wake-up without a
-- notification or a further call of Run takes it out of the wait.
pub run_missed :
    (p : ThreadPool) (t : ℕ)
    → lookup t p.threads ≡ some about_to_wait
    → (q : ThreadPool) × Step (run p) q
      × (q.flag ≡ run_flag)
      × (lookup t q.threads ≡ some waiting)
      × ((r : ThreadPool)
          → Step q r
          → (lookup t r.threads ≡ some waiting)
            ⊎ (r ≡ moved t (doing sleeping_peel) q)
            ⊎ (r ≡ run q))
unfolding run
run_missed p t h =
    let there = wake-about_to_wait t p.threads h in
    let waits : lookup t (insert t waiting (notify_all p.threads)) ≡ some waiting =
      rw (lookup-insert t t waiting (notify_all p.threads), beq_refl t) in
    (
      moved t waiting (run p),
      begin_wait (run p) t there,
      refl,
      waits,
      λ r s. waiting_stays (moved t waiting (run p)) r t waits s,
    )
