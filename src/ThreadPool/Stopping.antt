-- ===== src/ThreadPool/Stopping.antt =====
-- Stop: its invariant, that it ends, and what becomes of the threads and the tasks.
use distributed_disk.Common.{
  ℕ, ◌≡◌, ◌≢◌, ◌⊎◌, inl, inr, refl, ◌∙◌, true, none, some, List, [], ◌∷◌, arith, nat_eq,
  nat_eqb_iff, is_in, Option-cases,
}
use distributed_disk.Common.Dict.{lookup, lookup-insert, lookup-erase}
use distributed_disk.ThreadPool.{
  user_task, poison_apple, sleeping_peel, Doing, idle, taken, doing, about_to_wait, waiting, dying,
  stop_flag, ThreadPool, add, moved, Step, take_task, begin_task, finish_task, eat_apple, see_pause,
  see_no_pause, begin_wait, wake_up, end_thread, call_add, call_run, call_pause,
}
use distributed_disk.ThreadPool.Totals.{IsUnique, insert-IsUnique, erase-IsUnique}
use distributed_disk.ThreadPool.Stop.{
  Caller, joining_angel, interrupting, joining, returned, Stopping, actor, Goes, stop, ids, ended,
  StopStep, goes_on, ends_idle, ends_interrupted, angel_ends, interrupt, all_interrupted, join,
  return_, StopSteps, done, step,
}

-- A thread that has not ended is ahead of the caller: it will be interrupted and joined.
abbrev pub Covered : ℕ → Caller → List ℕ → Type 0
Covered t joining_angel marked = Unit {0}
Covered t (interrupting rest all) marked =
    (is_in t all ≡ true) × ((is_in t marked ≡ true) ⊎ (is_in t rest ≡ true))
Covered t (joining rest) marked = (is_in t rest ≡ true) × (is_in t marked ≡ true)
Covered t returned marked = ⊥

pub record IsStopping (s : Stopping) : Type 0 where
  pub halted : s.pool.flag ≡ stop_flag
  pub unique : IsUnique s.pool.threads
  pub covered : (t : ℕ) → lookup t s.pool.threads ≢ none → Covered t s.caller s.interrupted

-- What a step of the pool keeps, where nobody runs or pauses it.
record Keeps (p q : ThreadPool) : Type 0 where
  same_flag : q.flag ≡ p.flag
  unique : IsUnique q.threads
  no_more : (t : ℕ) → lookup t q.threads ≢ none → lookup t p.threads ≢ none

-- The thread t goes on, or ends.
module _ (t : ℕ) (d : Doing) (p : ThreadPool) (u : IsUnique p.threads) where
  moved-Keeps : (e : Doing) → lookup t p.threads ≡ some e → Keeps p (moved t d p)
  moved-Keeps e here = record {
    same_flag = refl;
    unique = insert-IsUnique t d p.threads u;
    no_more = λ k there. ground (arith, lookup-insert t k d p.threads, nat_eqb_iff t k);
  }

ended-Keeps : (t : ℕ) (p : ThreadPool) → IsUnique p.threads → Keeps p (ended t p)
ended-Keeps t p u = record {
  same_flag = refl;
  unique = erase-IsUnique t p.threads u;
  no_more = λ k there. ground (arith, lookup-erase t k p.threads);
}

Step-Keeps :
    (marked : List ℕ) (caller : Caller) (p q : ThreadPool) (first : Step p q)
    → Goes marked caller (actor first)
    → IsUnique p.threads
    → Keeps p q
unfolding add
Step-Keeps m c p q (take_task _ t pair rest here front) goes u =
    let k = moved-Keeps t (taken pair.task) p u idle here in
    record { same_flag = k.same_flag; unique = k.unique; no_more = k.no_more }
Step-Keeps m c p q (begin_task _ t task here) goes u =
    moved-Keeps t (doing task) p u (taken task) here
Step-Keeps m c p q (finish_task _ t k here) goes u =
    let v = moved-Keeps t idle p u (doing (user_task k)) here in
    record { same_flag = v.same_flag; unique = v.unique; no_more = v.no_more }
Step-Keeps m c p q (eat_apple _ t here) goes u =
    let v = moved-Keeps t dying p u (doing poison_apple) here in
    record { same_flag = v.same_flag; unique = v.unique; no_more = v.no_more }
Step-Keeps m c p q (see_pause _ t here on) goes u =
    moved-Keeps t about_to_wait p u (doing sleeping_peel) here
Step-Keeps m c p q (see_no_pause _ t here off) goes u =
    moved-Keeps t idle p u (doing sleeping_peel) here
Step-Keeps m c p q (begin_wait _ t here) goes u = moved-Keeps t waiting p u about_to_wait here
Step-Keeps m c p q (wake_up _ t here) goes u = moved-Keeps t (doing sleeping_peel) p u waiting here
Step-Keeps m c p q (end_thread _ t rest dead here) goes u =
    let v = ended-Keeps t p u in
    record { same_flag = v.same_flag; unique = v.unique; no_more = v.no_more }
Step-Keeps m c p q (call_add _ k priority) goes u = record {
  same_flag = refl;
  unique = u;
  no_more = λ t there. there;
}
Step-Keeps m c p q (call_run _) goes u = absurd goes
Step-Keeps m c p q (call_pause _) goes u = absurd goes

is_in-ids :
    (t : ℕ) (threads : List (ℕ × Doing)) → lookup t threads ≢ none → is_in t (ids threads) ≡ true
unfolding lookup is_in
is_in-ids t [] there = absurd (there refl)
is_in-ids t ((s, d) ∷ threads) there = ground (arith, is_in-ids t threads)

-- A step of a thread, of AngleOfDeathThread or of a call keeps what covers the threads.
Keeps-IsStopping :
    (s : Stopping) (q : ThreadPool)
    → Keeps s.pool q
    → IsStopping s
    → IsStopping (record s { pool = q })
Keeps-IsStopping s q k v = record {
  halted = k.same_flag ∙ v.halted;
  unique = k.unique;
  covered = λ t there. v.covered t (k.no_more t there);
}

-- The caller goes on.
module _ (s : Stopping) (v : IsStopping s) where
  pub cover :
      (c : Caller)
      → s.caller ≡ c
      → (t : ℕ) → lookup t s.pool.threads ≢ none
      → Covered t c s.interrupted
  cover c e t there = rw e at (v.covered t there)

  moves_caller :
      (c : Caller) (marked : List ℕ)
      → ((t : ℕ) → lookup t s.pool.threads ≢ none → Covered t c marked)
      → IsStopping (record s { interrupted = marked; caller = c })
  moves_caller c marked all = record { halted = v.halted; unique = v.unique; covered = all }

pub StopStep-IsStopping : (s u : Stopping) → StopStep s u → IsStopping s → IsStopping u
unfolding is_in
StopStep-IsStopping s u (goes_on _ q first goes) v =
    Keeps-IsStopping s q (Step-Keeps s.interrupted s.caller s.pool q first goes v.unique) v
StopStep-IsStopping s u (ends_idle _ t here marked none_left) v =
    Keeps-IsStopping s (ended t s.pool) (ended-Keeps t s.pool v.unique) v
StopStep-IsStopping s u (ends_interrupted _ t d here marked point) v =
    Keeps-IsStopping s (ended t s.pool) (ended-Keeps t s.pool v.unique) v
StopStep-IsStopping s u (angel_ends _ at) v =
    moves_caller s v (interrupting (ids s.pool.threads) (ids s.pool.threads)) s.interrupted
      λ t there. (is_in-ids t s.pool.threads there, inr (is_in-ids t s.pool.threads there))
StopStep-IsStopping s u (interrupt _ t rest all at) v =
    moves_caller s v (interrupting rest all) (t ∷ s.interrupted) λ k there.
      let (whole, part) = cover s v (interrupting (t ∷ rest) all) at k there in
      (whole, ground arith)
StopStep-IsStopping s u (all_interrupted _ all at) v =
    moves_caller s v (joining all) s.interrupted λ k there.
      let (whole, part) = cover s v (interrupting [] all) at k there in (whole, ground arith)
StopStep-IsStopping s u (join _ t rest at gone) v =
    moves_caller s v (joining rest) s.interrupted λ k there.
      let (ahead, marked) = cover s v (joining (t ∷ rest)) at k there in
      (ground (arith, nat_eqb_iff t k), marked)
StopStep-IsStopping s u (return_ _ at) v =
    moves_caller s v returned s.interrupted
      λ k there. let (ahead, marked) = cover s v (joining []) at k there in cc

pub StopSteps-IsStopping : (s u : Stopping) → StopSteps s u → IsStopping s → IsStopping u
StopSteps-IsStopping s u (done _) v = v
StopSteps-IsStopping s u (step _ t _ first more) v =
    StopSteps-IsStopping t u more (StopStep-IsStopping s t first v)

pub stop-IsStopping : (p : ThreadPool) → IsUnique p.threads → IsStopping (stop p)
unfolding stop
stop-IsStopping p u = record { halted = refl; unique = u; covered = λ t there. tt }

empty_of : (threads : List (ℕ × Doing)) → ((t : ℕ) → lookup t threads ≡ none) → threads ≡ []
unfolding lookup
empty_of [] all = refl
empty_of ((t, d) ∷ threads) all = ground (arith, all t)

-- When Stop has returned no thread of the pool is left, whatever the threads, AngleOfDeathThread
-- and calls of Add did in the meantime.
pub stop_ends_threads :
    (p : ThreadPool) (s : Stopping)
    → IsUnique p.threads
    → StopSteps (stop p) s
    → s.caller ≡ returned
    → s.pool.threads ≡ []
stop_ends_threads p s u steps over =
    let v = StopSteps-IsStopping (stop p) s steps (stop-IsStopping p u) in
    empty_of s.pool.threads λ t. elim (Option-cases (lookup t s.pool.threads)) [
      | inl gone ↦ gone
      | inr (d, here) ↦ absurd (cover s v returned over t (λ gone. cc))
    ]
