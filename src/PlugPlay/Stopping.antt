-- ===== src/PlugPlay/Stopping.antt =====
-- Stopping the monitor: what is closed, and what the subscribers are told.
use distributed_disk.Common.{
  ℕ, ◌+◌, ◌≤◌, ◌≡◌, ◌≢◌, refl, ap, ◌∙◌, Bool, true, false, none, some, List, [], ◌∷◌, arith, length,
  close, is_in, is_in-close, is_in-close_other, map, ltb, not, ◌||◌, ◌&&◌, if_false, nat_eqb,
  nat_eqb_iff, Bool-cases, inl, inr,
}
use distributed_disk.Common.Exec.{ok, and_then}
use distributed_disk.Dispatcher.{Objects, make_dispatcher}
use distributed_disk.Monitor.{DirEvent, InotifyEvent, Read, broadcast_events, monitor}
use distributed_disk.Monitor
use distributed_disk.PlugPlay.{
  DirMonitor, World, Answers, make_monitor, path_name, create_dir, remove_dir, At, at_test,
  at_events, in_read, rest_of_thread, FileAnswers, stop_monitor,
}

-- Where the thread is not left waiting: read answers with events.
abbrev pub Answered : At → Type 0
Answered at_test = Unit {0}
Answered (at_events events) = Unit {0}
Answered (in_read none) = ⊥
Answered (in_read (some Monitor.Read.read_failed)) = ⊥
Answered (in_read (some (Monitor.Read.events_read events))) = Unit {0}

stopped_events_silent :
    (d : ℕ) (events : List (Bool × InotifyEvent)) (o : Objects DirEvent)
    → broadcast_events d (map (λ (e : Bool × InotifyEvent). (true, e.1)) events) o ≡ ok o
unfolding broadcast_events
stopped_events_silent d [] o = refl
stopped_events_silent d (e ∷ events) o = refl

rest_of_thread_silent :
    (d : ℕ) (at : At) (o : Objects DirEvent) → Answered at → rest_of_thread d at o ≡ ok o
unfolding rest_of_thread monitor broadcast_events
rest_of_thread_silent d at_test o answered = refl
rest_of_thread_silent d (at_events []) o answered = refl
rest_of_thread_silent d (at_events (e ∷ events)) o answered = refl
rest_of_thread_silent d (in_read none) o answered = absurd answered
rest_of_thread_silent d (in_read (some Monitor.Read.read_failed)) o answered = absurd answered
rest_of_thread_silent d (in_read (some (Monitor.Read.events_read []))) o answered = refl
rest_of_thread_silent d (in_read (some (Monitor.Read.events_read (e ∷ events)))) o answered = refl

-- The monitor and the world when a running monitor has been stopped.
abbrev pub monitor_after : DirMonitor → DirMonitor
monitor_after m = record m { stopped = true }

abbrev pub world_after : FileAnswers → DirMonitor → World → World
world_after files m w = record w {
  opened = close m.fd (close m.wfd w.opened);
  dummy = not files.removed && (files.created || w.dummy);
}

-- A path that fits has its name.
path_name_fits : (path : List ℕ) → length path + 10 ≤ 4095 → path_name path ≡ ok tt
unfolding path_name
path_name_fits path fits = if_false (ltb 4095 (length path + 10)) _ _ (ground arith)

create_dir_fits :
    (b : Bool) (path : List ℕ) (w : World)
    → length path + 10 ≤ 4095
    → create_dir b path w ≡ ok (record w { dummy = b || w.dummy })
unfolding create_dir
create_dir_fits b path w fits =
    ap (λ p. and_then p (λ name. ok (record w { dummy = b || w.dummy }))) (path_name_fits path fits)

remove_dir_fits :
    (b : Bool) (path : List ℕ) (w : World)
    → length path + 10 ≤ 4095
    → remove_dir b path w ≡ ok (record w { dummy = not b && w.dummy })
unfolding remove_dir
remove_dir_fits b path w fits =
    ap (λ p. and_then p (λ name. ok (record w { dummy = not b && w.dummy })))
      (path_name_fits path fits)

pub stop_monitor_silent :
    (at : At) (files : FileAnswers) (m : DirMonitor) (w : World)
    → Answered at
    → m.stopped ≡ false
    → length m.path + 10 ≤ 4095
    → (stop_monitor at files m w ≡ ok (monitor_after m, world_after files m w))
      × ((at' : At) (files' : FileAnswers)
          → stop_monitor at' files' (monitor_after m) (world_after files m w)
            ≡ ok (monitor_after m, world_after files m w))
unfolding stop_monitor
stop_monitor_silent at files m w answered runs fits = (
  if_false m.stopped _ _ runs
      ∙ rw (
        create_dir_fits files.created m.path w fits,
        rest_of_thread_silent m.dispatcher at w.objects answered,
        remove_dir_fits files.removed m.path (record w { dummy = files.created || w.dummy }) fits,
      ),
  λ at' files'. refl,
)

is_in-close_both :
    (fd wfd : ℕ) (opened : List ℕ)
    → (is_in fd (close fd (close wfd opened)) ≡ false)
      × (is_in wfd (close fd (close wfd opened)) ≡ false)
is_in-close_both fd wfd opened = (
  is_in-close fd (close wfd opened),
  elim (Bool-cases (nat_eqb fd wfd)) [
    | inl same ↦ rw (← (nat_eqb_iff fd wfd).0 same) (is_in-close fd (close fd opened))
    | inr other ↦
        is_in-close_other wfd fd (close wfd opened) (λ e. ground (arith, nat_eqb_iff fd wfd))
        ∙ is_in-close wfd opened
  ],
)

-- A monitor that is made and stopped closes the descriptor that it has opened, and also whatever
-- descriptor has the number of its watch, which it has not opened; every other one is left as it was.
pub stop_monitor_closes :
    (path : List ℕ) (d fd wfd : ℕ) (at : At) (files : FileAnswers) (w : World)
    → Answered at
    → length path + 10 ≤ 4095
    → let answers : Answers = record { inotify = some fd; watch = some wfd; starts = true } in
      (m m' : DirMonitor) × (w1 w2 : World) × (make_monitor path d answers w ≡ (ok m, w1))
      × (stop_monitor at files m w1 ≡ ok (m', w2))
      × (is_in fd w2.opened ≡ false)
      × (is_in wfd w2.opened ≡ false)
      × ((n : ℕ) → n ≢ fd → n ≢ wfd → is_in n w2.opened ≡ is_in n w.opened)
unfolding make_monitor is_in
stop_monitor_closes path d fd wfd at files w answered fits =
    let m : DirMonitor = record {
      path = path;
      dispatcher = d;
      fd = fd;
      wfd = wfd;
      stopped = false;
    } in
    let w1 : World = record w { objects = make_dispatcher d w.objects; opened = fd ∷ w.opened } in
    let (stops, again) = stop_monitor_silent at files m w1 answered refl fits in
    let (one, other) = is_in-close_both fd wfd (fd ∷ w.opened) in
    (
      m,
      monitor_after m,
      w1,
      world_after files m w1,
      refl,
      stops,
      one,
      other,
      λ n n_fd n_wfd.
          is_in-close_other n fd (close wfd (fd ∷ w.opened)) n_fd
          ∙ is_in-close_other n wfd (fd ∷ w.opened) n_wfd
          ∙ ground (arith, nat_eqb_iff fd n),
    )
