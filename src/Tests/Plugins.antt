-- ===== src/Tests/Plugins.antt =====
-- A framework that starts, a loader of plug-ins from its beginning to its end, and a future.
use distributed_disk.Common.{
  ℕ, ◌+◌, ◌≡◌, ◌≢◌, refl, Bool, true, false, some, List, [], ◌∷◌, arith, nat_eq, string_eq, is_in,
}
use distributed_disk.Common.Exec.{Outcome, ok, fault, blocked, logic_error}
use distributed_disk.Common.Dict.{lookup}
use distributed_disk.Config.{ConfigMap, get_config, found}
use distributed_disk.Startup.{read_number, atoi}
use distributed_disk.Framework.Start.{Program, assemble, make_framework}
use distributed_disk.Dispatcher.{Objects}
use distributed_disk.Monitor.{DirEvent, InotifyEvent}
use distributed_disk.Monitor
use distributed_disk.PlugPlay.{
  DirMonitor, World, Answers, At, in_read, FileAnswers, make_monitor, stop_monitor,
}
use distributed_disk.PlugPlay.Stopping.{stop_monitor_closes}
use distributed_disk.FutureTask.{
  Promise, FutureTask, make_future_task, get_value, task_is_ready, do_task,
}
use distributed_disk.FutureTask.Values.{IsPromise, get_value_once}

abbrev config : ConfigMap
config =
    ("POLICY", "0") ∷ ("NUM_OF_THREADS", "2") ∷ ("NICENESS", "0") ∷ ("PLUG_PATH", "./plug") ∷ []

-- Proxies, arguments and commands are numbers here.
abbrev Numbers : Type 0
Numbers = Program ℕ ℕ (Unit {0}) ℕ

abbrev started : Numbers
started = assemble tt 0 2 0 "./plug"

starts : make_framework config tt ≡ ok started
unfolding make_framework read_number atoi get_config found lookup
starts = refl

abbrev no_objects : Objects DirEvent
no_objects = record { callbacks = []; dispatchers = []; notified = []; told_of_death = [] }

-- Standard output and another file are open.
abbrev world : World
world = record { objects = no_objects; opened = 1 ∷ 2 ∷ []; dummy = false }

abbrev path : List ℕ
path = b'.' ∷ b'/' ∷ b'p' ∷ []

abbrev file_answers : FileAnswers
file_answers = record { created = true; removed = true }

-- The monitor's thread is woken up by the file.
abbrev woken : At
woken =
    in_read
      (some (Monitor.Read.events_read ((false, record { mask = 256; name = b'd' ∷ [] }) ∷ [])))

abbrev a_monitor : DirMonitor
a_monitor = record { path = path; dispatcher = 10; fd = 3; wfd = 1; stopped = false }

abbrev answers : Answers
answers = record { inotify = some 3; watch = some 1; starts = true }

stop_monitor_closes_example :
    (m m' : DirMonitor) × (w1 w2 : World) × (make_monitor path 10 answers world ≡ (ok m, w1))
    × (stop_monitor woken file_answers m w1 ≡ ok (m', w2))
    × (is_in 3 w2.opened ≡ false)
    × (is_in 1 w2.opened ≡ false)
    × ((n : ℕ) → n ≢ 3 → n ≢ 1 → is_in n w2.opened ≡ is_in n world.opened)
stop_monitor_closes_example =
    stop_monitor_closes path 10 3 1 woken file_answers world tt (omega arith)

abbrev a_file : List InotifyEvent
a_file = record { mask = 256; name = b'x' ∷ [] } ∷ []

-- A promise that is empty, holds a value, or has given it away.
data Slot : Type 0 where
  empty given : Slot
  full : ℕ → Slot

abbrev set_slot : ℕ → Slot → Outcome Slot
set_slot n empty = ok (full n)
set_slot n _ = fault logic_error

abbrev slot_ready : Slot → Bool
slot_ready (full n) = true
slot_ready _ = false

abbrev get_slot : Slot → Outcome (ℕ × Slot)
get_slot empty = blocked
get_slot given = fault logic_error
get_slot (full n) = ok (n, given)

abbrev slots : Promise ℕ
slots = record {
  Shared = Slot;
  fresh = empty;
  set_value = set_slot;
  is_ready = slot_ready;
  get = get_slot;
}

slots-IsPromise : IsPromise slots
slots-IsPromise = record {
  waits = refl;
  not_ready = refl;
  sets = λ t. (full t, given, refl, refl, (λ t'. refl), refl, refl);
}

-- A function that returns the world and adds one to it.
abbrev count : ℕ → Outcome (ℕ × ℕ)
count w = ok (w, w + 1)

slot_is_read_once :
    let task = make_future_task slots ℕ count in
    (ran read : FutureTask slots ℕ) × (get_value slots ℕ task ≡ blocked)
    × (task_is_ready slots ℕ task ≡ false)
    × (do_task slots ℕ task 4 ≡ ok (ran, 5))
    × (task_is_ready slots ℕ ran ≡ true)
    × (get_value slots ℕ ran ≡ ok (4, read))
    × (get_value slots ℕ read ≡ fault logic_error)
    × ((v v' : ℕ) (t' : ℕ) → count v ≡ ok (t', v') → do_task slots ℕ ran v ≡ fault logic_error)
slot_is_read_once = get_value_once slots ℕ slots-IsPromise count 4 5 4 refl
