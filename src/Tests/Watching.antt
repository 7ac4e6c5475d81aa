-- ===== src/Tests/Watching.antt =====
-- Dispatchers, monitors, loggers and singletons, on examples.
use distributed_disk.Common.{
  ℕ, ◌≤◌, ◌≡◌, ◌≢◌, refl, false, Option, none, some, String, List, [], ◌∷◌, arith, nat_eq, nat_eqb,
  nat_eqb_iff, Bool-cases, inl, inr,
}
use distributed_disk.Common.Exec.{ok, fault, dangling_pointer}
use distributed_disk.Common.Dict.{lookup}
use distributed_disk.Dispatcher.{Objects, subscribe, delete_callback, broadcast}
use distributed_disk.Dispatcher.Linked.{member, IsLinked}
use distributed_disk.Dispatcher.Unsubscribing.{delete_callback-IsLinked}
use distributed_disk.Dispatcher.Twice.{subscribe_twice}
use distributed_disk.Monitor.{DirEvent, InotifyEvent, read_failed, monitor}
use distributed_disk.Monitor
use distributed_disk.Monitor.Events.{calls_of, until_stop, flat, monitor_total}
use distributed_disk.Logger.{Logger, Place, make_logger, log, error_level}
use distributed_disk.Logger
use distributed_disk.Logger.Messages.{Grows, Steps-lines}
use distributed_disk.Singleton.{
  run_exit_funcs, made_objects, Shared, start, at, returned, leaving, want_lock, second_test,
  creating, storing, registering, see_null, lock, see_null_again, create, store, register_exit,
  leave,
}
use distributed_disk.Singleton
use distributed_disk.Singleton.Once.{get_instance_once}

-- Two dispatchers and one callback, which has subscribed to the first.
abbrev objects : List (ℕ × Option ℕ) → List ℕ → Objects DirEvent
objects callbacks subscribers = record {
  callbacks = callbacks;
  dispatchers = (10, subscribers) ∷ (20, []) ∷ [];
  notified = [];
  told_of_death = [];
}

abbrev linked : Objects DirEvent
linked = objects ((1, some 10) ∷ []) (1 ∷ [])

one_there : lookup 1 linked.callbacks ≡ some (some 10)
unfolding lookup
one_there = refl

ten_there : lookup 10 linked.dispatchers ≡ some (1 ∷ [])
unfolding lookup
ten_there = refl

twenty_there : lookup 20 linked.dispatchers ≡ some []
unfolding lookup
twenty_there = refl

ten_ne_twenty : ◌≢◌ {A = ℕ} 10 20
ten_ne_twenty e = omega arith

linked-IsLinked : IsLinked linked
unfolding lookup member
linked-IsLinked = record {
  subscribed = λ d cs h. elim (Bool-cases (nat_eqb 10 d)) [
    | inl ten ↦
        let one : cs ≡ 1 ∷ [] = ground arith in rw one (ground (arith, nat_eqb_iff 10 d), tt)
    | inr other ↦ elim (Bool-cases (nat_eqb 20 d)) [
      | inl twenty ↦ let no_one : cs ≡ [] = ground arith in rw no_one tt
      | inr unknown ↦ absurd (ground arith)
    ]
  ];
  alive_still = λ d c p.
      let ten : 10 ≡ d = ground arith in
      (1 ∷ [], ground (arith, nat_eqb_iff 10 d), ground (arith, nat_eqb_iff 1 c));
}

delete_callback-IsLinked_example :
    (w' : Objects DirEvent) × (delete_callback 1 linked ≡ ok w')
    × IsLinked w'
    × (lookup 1 w'.callbacks ≡ none)
delete_callback-IsLinked_example =
    delete_callback-IsLinked linked linked-IsLinked 1 (some 10) one_there

-- A file is added and a file is removed.
abbrev two_events : List (List InotifyEvent)
two_events =
    (record { mask = 256; name = 97 ∷ [] } ∷ []) ∷ (record { mask = 512; name = 98 ∷ [] } ∷ []) ∷ []

monitor_total_example :
    monitor 10 (until_stop two_events read_failed) linked
    ≡ ok (record linked { notified = calls_of (1 ∷ []) (flat two_events) })
monitor_total_example =
    monitor_total 10 (1 ∷ []) two_events read_failed linked linked-IsLinked ten_there

abbrev an_event : DirEvent
an_event = record { filename = []; event_type = Monitor.remove }

subscribe_twice_example :
    (w1 w2 w3 : Objects DirEvent) × (subscribe 10 1 linked ≡ ok w1)
    × (subscribe 20 1 w1 ≡ ok w2)
    × (delete_callback 1 w2 ≡ ok w3)
    × (broadcast 10 an_event w3 ≡ fault dangling_pointer)
subscribe_twice_example =
    subscribe_twice linked 10 20 1 (1 ∷ []) [] (some 10) an_event ten_ne_twenty ten_there
      twenty_there one_there

-- A logger that has one message, and one that waits for the next.
abbrev logger_of : List String → String → Place → List String → Logger
logger_of message_q holder place log_fd = record {
  message_q = message_q;
  current_level = error_level;
  stop_flag = false;
  log_fd = log_fd;
  holder = holder;
  place = place;
}

abbrev waits : Logger
waits = logger_of ("disk full" ∷ []) "" Logger.popping ("" ∷ [])

writes : Logger.Steps (logger_of ("disk full" ∷ []) "" Logger.testing []) waits
writes =
    Logger.step _ waits waits
      (Logger.write_holder (logger_of ("disk full" ∷ []) "" Logger.testing []) refl refl)
      (Logger.done waits)

Steps-lines_example :
    (more : List String) × Grows (logger_of ("disk full" ∷ []) "" Logger.testing []) waits more
Steps-lines_example =
    Steps-lines (logger_of ("disk full" ∷ []) "" Logger.testing []) waits writes refl

-- Thread 3 calls GetInstance alone.
abbrev alone : Option ℕ → Option ℕ → ℕ → ℕ → (ℕ → Singleton.Place) → Shared
alone instance_ mutex created exit_funcs places = record {
  instance_ = instance_;
  mutex = mutex;
  created = created;
  exit_funcs = exit_funcs;
  places = places;
}

abbrev p0 : ℕ → Singleton.Place
p0 = start.places

abbrev p1 : ℕ → Singleton.Place
p1 = at 3 want_lock p0

abbrev p2 : ℕ → Singleton.Place
p2 = at 3 second_test p1

abbrev p3 : ℕ → Singleton.Place
p3 = at 3 creating p2

abbrev p4 : ℕ → Singleton.Place
p4 = at 3 (storing 1) p3

abbrev p5 : ℕ → Singleton.Place
p5 = at 3 registering p4

abbrev p6 : ℕ → Singleton.Place
p6 = at 3 leaving p5

abbrev first_object : Option ℕ
first_object = some 1

abbrev last_state : Shared
last_state = alone (some 1) none 1 1 (at 3 (returned (some 1)) p6)

calls_once : Singleton.Steps start last_state
calls_once = Singleton.step _ (alone none none 0 0 p1) last_state (see_null start 3 refl refl) (
    Singleton.step _ (alone none (some 3) 0 0 p2) last_state
      (lock (alone none none 0 0 p1) 3 refl refl)
      (Singleton.step _ (alone none (some 3) 0 0 p3) last_state
        (see_null_again (alone none (some 3) 0 0 p2) 3 refl refl)
        (Singleton.step _ (alone none (some 3) 1 0 p4) last_state
          (create (alone none (some 3) 0 0 p3) 3 refl)
          (Singleton.step _ (alone (some 1) (some 3) 1 0 p5) last_state
            (store (alone none (some 3) 1 0 p4) 3 1 refl)
            (Singleton.step _ (alone (some 1) none 1 1 p6) last_state
              (register_exit (alone (some 1) (some 3) 1 0 p5) 3 refl)
              (Singleton.step _ last_state last_state (leave (alone (some 1) none 1 1 p6) 3 refl)
                (Singleton.done last_state)))))))

get_instance_once_example :
    (first_object ≡ some 1)
    × (last_state.instance_ ≡ some 1)
    × (last_state.created ≡ 1)
    × (last_state.exit_funcs ≤ 1)
    × (last_state.mutex ≡ none
        → run_exit_funcs last_state.exit_funcs last_state.instance_
            (made_objects last_state.created)
          ≡ ok [])
get_instance_once_example = get_instance_once last_state 3 first_object calls_once refl
