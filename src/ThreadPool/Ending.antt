-- ===== src/ThreadPool/Ending.antt =====
-- The end of Stop: once every thread has been interrupted, its steps are counted.
use distributed_disk.Common.{
  ℕ, suc, ◌+◌, ◌≤◌, ◌≡◌, ◌≢◌, refl, ap, Bool, true, false, none, some, List, [], ◌∷◌, arith, length,
  length-append, nat_eq, is_in, if◌then◌else◌,
}
use distributed_disk.Common.Dict.{lookup}
use distributed_disk.ThreadPool.{
  user_task, poison_apple, sleeping_peel, Doing, idle, taken, doing, about_to_wait, waiting, dying,
  stop_flag, ThreadPool, add, Step, take_task, begin_task, finish_task, eat_apple, see_pause,
  see_no_pause, begin_wait, wake_up, end_thread, call_add, call_run, call_pause,
}
use distributed_disk.ThreadPool.Totals.{total, total-insert, total-erase}
use distributed_disk.ThreadPool.Stop.{
  Caller, joining_angel, interrupting, joining, returned, Stopping, Actor, actor, adder, Goes,
  interruptible, ended, StopStep, goes_on, ends_idle, ends_interrupted, angel_ends, interrupt,
  all_interrupted, join, return_, StopSteps, done, step,
}
use distributed_disk.ThreadPool.Stopping.{IsStopping, Covered, StopStep-IsStopping}

-- How many steps a marked thread can still make.
abbrev pub rank : Doing → ℕ
rank idle = 2
rank (doing task) = 3
rank _ = 1

-- One for a task of the user that a thread is doing.
abbrev pub busy : Doing → ℕ
busy (doing (user_task k)) = 1
busy _ = 0

-- The loop that joins, and what follows it.
abbrev pub is_late : Caller → Bool
is_late (joining rest) = true
is_late returned = true
is_late _ = false

abbrev pub turns : Caller → ℕ
turns (joining rest) = suc (length rest)
turns _ = 0

abbrev pub measure : Stopping → ℕ
measure s = total rank s.pool.threads + turns s.caller

abbrev pub adds_task : Actor → Bool
adds_task adder = true
adds_task _ = false

-- A call of Add by another thread
abbrev pub adds : {s u : Stopping} → StopStep s u → Bool
adds (goes_on s q first goes) = adds_task (actor first)
adds _ = false

-- The tasks that are done, and those that are being done
abbrev pub work : ThreadPool → ℕ
work p = length p.finished + total busy p.threads

-- One step of the pool while every thread has a mark: work is finished and not begun, and the rank
-- falls, except where a task is added.
record Winds (p q : ThreadPool) (adding : Bool) : Type 0 where
  same_work : work q ≡ work p
  lower : total rank q.threads + (if adding then 0 else 1) ≤ total rank p.threads

Step-Winds :
    (marked : List ℕ) (caller : Caller) (p q : ThreadPool) (first : Step p q)
    → is_late caller ≡ true
    → p.flag ≡ stop_flag
    → ((t : ℕ) → lookup t p.threads ≢ none → is_in t marked ≡ true)
    → Goes marked caller (actor first)
    → Winds p q (adds_task (actor first))
unfolding add
Step-Winds m c p q (take_task _ t pair rest here front) late halted all goes =
    let higher = total-insert t idle (taken pair.task) rank p.threads here in
    let same = total-insert t idle (taken pair.task) busy p.threads here in
    record { same_work = omega arith; lower = omega arith }
Step-Winds m c p q (begin_task _ t task here) late halted all goes =
    absurd (let mark = all t (λ gone. cc) in cc)
Step-Winds m c p q (finish_task _ t k here) late halted all goes =
    let higher = total-insert t (doing (user_task k)) idle rank p.threads here in
    let same = total-insert t (doing (user_task k)) idle busy p.threads here in
    record { same_work = omega (arith, length-append p.finished (k ∷ [])); lower = omega arith }
Step-Winds m c p q (eat_apple _ t here) late halted all goes =
    let higher = total-insert t (doing poison_apple) dying rank p.threads here in
    let same = total-insert t (doing poison_apple) dying busy p.threads here in
    record { same_work = omega arith; lower = omega arith }
Step-Winds m c p q (see_pause _ t here on) late halted all goes = cc
Step-Winds m c p q (see_no_pause _ t here off) late halted all goes =
    let higher = total-insert t (doing sleeping_peel) idle rank p.threads here in
    let same = total-insert t (doing sleeping_peel) idle busy p.threads here in
    record { same_work = omega arith; lower = omega arith }
Step-Winds m c p q (begin_wait _ t here) late halted all goes =
    absurd (let mark = all t (λ gone. cc) in cc)
Step-Winds m c p q (wake_up _ t here) late halted all goes =
    absurd (let mark = all t (λ gone. cc) in cc)
Step-Winds m (joining l) p q (end_thread _ t rest dead here) late halted all goes = cc
Step-Winds m returned p q (end_thread _ t rest dead here) late halted all goes = cc
Step-Winds m joining_angel p q (end_thread _ t rest dead here) late halted all goes = cc
Step-Winds m (interrupting l k) p q (end_thread _ t rest dead here) late halted all goes = cc
Step-Winds m c p q (call_add _ k priority) late halted all goes = record {
  same_work = refl;
  lower = omega arith;
}
Step-Winds m c p q (call_run _) late halted all goes = absurd goes
Step-Winds m c p q (call_pause _) late halted all goes = absurd goes

-- Behind the loop that interrupts every thread that has not ended has its mark.
pub marked_all :
    (s : Stopping)
    → IsStopping s
    → is_late s.caller ≡ true
    → (t : ℕ) → lookup t s.pool.threads ≢ none
    → is_in t s.interrupted ≡ true
marked_all s v late t there = by_caller s.caller late (v.covered t there)
  where
    by_caller :
        (c : Caller) → is_late c ≡ true → Covered t c s.interrupted → is_in t s.interrupted ≡ true
    by_caller (joining rest) late covered = covered.1
    by_caller returned late covered = absurd covered
    by_caller joining_angel late covered = cc
    by_caller (interrupting rest all) late covered = cc

pub record Ends (s u : Stopping) (adding : Bool) : Type 0 where
  pub same_work : work u.pool ≡ work s.pool
  pub lower : measure u + (if adding then 0 else 1) ≤ measure s
  pub late : is_late u.caller ≡ true

-- A thread that is not busy ends.
ended-Ends :
    (s : Stopping) (t : ℕ) (d : Doing)
    → IsStopping s
    → is_late s.caller ≡ true
    → lookup t s.pool.threads ≡ some d
    → busy d ≡ 0
    → 1 ≤ rank d
    → Ends s (record s { pool = ended t s.pool }) false
ended-Ends s t d v late here rests runs =
    let lower = total-erase rank t d s.pool.threads v.unique here in
    let same = total-erase busy t d s.pool.threads v.unique here in
    record { same_work = omega arith; lower = omega arith; late = late }

interruptible-rank : (d : Doing) → interruptible d ≡ true → (busy d ≡ 0) × (1 ≤ rank d)
interruptible-rank idle e = cc
interruptible-rank (taken task) e = (refl, omega arith)
interruptible-rank (doing task) e = cc
interruptible-rank about_to_wait e = (refl, omega arith)
interruptible-rank waiting e = (refl, omega arith)
interruptible-rank dying e = (refl, omega arith)

pub StopStep-Ends :
    (s u : Stopping) (first : StopStep s u)
    → IsStopping s
    → is_late s.caller ≡ true
    → Ends s u (adds first)
StopStep-Ends s u (goes_on _ q first goes) v late =
    let w =
      Step-Winds s.interrupted s.caller s.pool q first late v.halted (marked_all s v late) goes in
    record { same_work = w.same_work; lower = omega (arith, w.lower); late = late }
StopStep-Ends s u (ends_idle _ t here marked none_left) v late =
    ended-Ends s t idle v late here refl (omega arith)
StopStep-Ends s u (ends_interrupted _ t d here marked point) v late =
    let (rests, runs) = interruptible-rank d point in ended-Ends s t d v late here rests runs
StopStep-Ends s u (angel_ends _ at) v late = absurd (let no_more = ap is_late at in cc)
StopStep-Ends s u (interrupt _ t rest all at) v late = absurd (let no_more = ap is_late at in cc)
StopStep-Ends s u (all_interrupted _ all at) v late = absurd (let no_more = ap is_late at in cc)
StopStep-Ends s u (join _ t rest at gone) v late = record {
  same_work = refl;
  lower = omega (arith, ap turns at);
  late = refl;
}
StopStep-Ends s u (return_ _ at) v late = record {
  same_work = refl;
  lower = omega (arith, ap turns at);
  late = refl;
}

-- The steps that are not calls of Add
abbrev pub own_steps : {s u : Stopping} → StopSteps s u → ℕ
own_steps (done s) = 0
own_steps (step s t u first more) = (if adds first then 0 else 1) + own_steps more

-- Once every thread has been interrupted, Stop comes to an end: there are never more steps, other
-- than calls of Add, than three for each thread, one for each that is left to join, and one.
pub joining_bounded :
    (s u : Stopping) (steps : StopSteps s u)
    → IsStopping s
    → is_late s.caller ≡ true
    → own_steps steps + measure u ≤ measure s
joining_bounded s u (done _) v late = omega arith
joining_bounded s u (step _ t _ first more) v late =
    let e = StopStep-Ends s t first v late in
    omega (arith, e.lower, joining_bounded t u more (StopStep-IsStopping s t first v) e.late)

pub StopSteps-append : (s t u : Stopping) → StopSteps s t → StopSteps t u → StopSteps s u
StopSteps-append s t u (done _) more = more
StopSteps-append s t u (step _ r _ first rest) more =
    step s r u first (StopSteps-append r t u rest more)
