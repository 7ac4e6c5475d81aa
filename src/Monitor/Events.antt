-- ===== src/Monitor/Events.antt =====
-- What the subscribers of a directory's monitor are told.
use mathlib.Core.List.{append_assoc, append-nil}
use distributed_disk.Common.{
  ℕ, ◌≡◌, refl, ap, sym, ◌∙◌, nat_eq, Bool, true, false, some, List, [], ◌∷◌, ◌++◌, map,
}
use distributed_disk.Common.Exec.{ok}
use distributed_disk.Common.Dict.{lookup}
use distributed_disk.Dispatcher.{Objects}
use distributed_disk.Dispatcher.Linked.{IsLinked, broadcast_total}
use distributed_disk.Monitor.{
  DirEvent, InotifyEvent, translate_inotify_to_event, broadcast_events, Read, events_read,
  read_once, monitor,
}

-- The calls that events make: each event to every subscriber, one event after the other.
abbrev pub calls_of : List ℕ → List InotifyEvent → List (ℕ × DirEvent)
calls_of cs [] = []
calls_of cs (event ∷ events) =
    map (λ c. (c, translate_inotify_to_event event)) cs ++ calls_of cs events

abbrev pub running : List InotifyEvent → List (Bool × InotifyEvent)
running = map (λ event. (false, event))

-- The log of calls is no part of the links.
pub logged-IsLinked :
    (w : Objects DirEvent) (calls : List (ℕ × DirEvent))
    → IsLinked w
    → IsLinked (record w { notified = calls })
logged-IsLinked w calls v = record { subscribed = v.subscribed; alive_still = v.alive_still }

pub broadcast_events_total :
    (d : ℕ) (cs : List ℕ) (events : List InotifyEvent) (w : Objects DirEvent)
    → IsLinked w
    → lookup d w.dispatchers ≡ some cs
    → broadcast_events d (running events) w
      ≡ ok (record w { notified = w.notified ++ calls_of cs events })
unfolding broadcast_events
broadcast_events_total d cs [] w v e =
    ap (λ n. ok (record w { notified = n })) (sym (append-nil w.notified))
broadcast_events_total d cs (event ∷ events) w v e =
    let calls = w.notified ++ map (λ c. (c, translate_inotify_to_event event)) cs in
    rw (broadcast_total w v d cs (translate_inotify_to_event event) e) (
      broadcast_events_total d cs events (record w { notified = calls }) (logged-IsLinked w calls v)
        e
      ∙ ap (λ n. ok (record w { notified = n }))
          (append_assoc w.notified (map (λ c. (c, translate_inotify_to_event event)) cs)
            (calls_of cs events)))

-- The answers of read that hold events, then STOP.
abbrev pub until_stop : List (List InotifyEvent) → Read → List (Bool × Read)
until_stop [] last = (true, last) ∷ []
until_stop (events ∷ batches) last = (false, events_read (running events)) ∷ until_stop batches last

abbrev pub flat : List (List InotifyEvent) → List InotifyEvent
flat [] = []
flat (events ∷ batches) = events ++ flat batches

calls_of-append :
    (cs : List ℕ) (xs ys : List InotifyEvent)
    → calls_of cs (xs ++ ys) ≡ calls_of cs xs ++ calls_of cs ys
calls_of-append cs [] ys = refl
calls_of-append cs (x ∷ xs) ys =
    ap (◌++◌ (map (λ c. (c, translate_inotify_to_event x)) cs)) (calls_of-append cs xs ys)
    ∙ sym (
        append_assoc (map (λ c. (c, translate_inotify_to_event x)) cs) (calls_of cs xs)
          (calls_of cs ys))

-- A monitor whose callbacks are linked to its dispatcher returns once it is stopped, and until then
-- has passed every event of every read to every subscriber, in the order of the events.
pub monitor_total :
    (d : ℕ) (cs : List ℕ) (batches : List (List InotifyEvent)) (last : Read) (w : Objects DirEvent)
    → IsLinked w
    → lookup d w.dispatchers ≡ some cs
    → monitor d (until_stop batches last) w
      ≡ ok (record w { notified = w.notified ++ calls_of cs (flat batches) })
unfolding monitor read_once
monitor_total d cs [] last w v e =
    ap (λ n. ok (record w { notified = n })) (sym (append-nil w.notified))
monitor_total d cs (events ∷ batches) last w v e =
    let calls = w.notified ++ calls_of cs events in
    rw (broadcast_events_total d cs events w v e) (
      monitor_total d cs batches last (record w { notified = calls }) (logged-IsLinked w calls v) e
      ∙ ap (λ n. ok (record w { notified = n }))
          (append_assoc w.notified (calls_of cs events) (calls_of cs (flat batches))
            ∙ ap (◌++◌ w.notified) (sym (calls_of-append cs events (flat batches)))))
