-- ===== src/Monitor.antt =====
-- dir_monitor_dllloader/dir_monitor.hpp and dir_monitor_impl.cpp: a directory is watched, its events
-- go to the subscribers of a dispatcher, and a loader opens what is added. The kernel's answers are
-- lists; the flag m_flag, which another thread sets, is given with each of its loads.
pub mod Events
use Prim.Native.Nat.{bit_and}
use distributed_disk.Common.{
  ℕ, Bool, true, false, Option, none, some, String, List, [], ◌∷◌, ◌++◌, ◌||◌, not, ◌==◌, nat_eq,
  if◌then◌else◌,
}
use distributed_disk.Common.Exec.{Outcome, ok, fault, blocked, and_then, monitor_fail}
use distributed_disk.Dispatcher.{Objects, broadcast}

-- DirEventType
pub data DirEventType : Type 0 where
  add modified remove : DirEventType

-- DirEvent; the name is its bytes, with the padding that inotify counts in its length.
pub record DirEvent : Type 0 where
  pub filename : List ℕ
  pub event_type : DirEventType

-- struct inotify_event, as far as it is read
pub record InotifyEvent : Type 0 where
  pub mask : ℕ
  pub name : List ℕ

abbrev pub in_modify : ℕ
in_modify = 0x2

abbrev pub in_moved_from : ℕ
in_moved_from = 0x40

abbrev pub in_moved_to : ℕ
in_moved_to = 0x80

abbrev pub in_create : ℕ
in_create = 0x100

abbrev pub in_delete : ℕ
in_delete = 0x200

abbrev pub has_bit : ℕ → ℕ → Bool
has_bit mask bit = not (bit_and mask bit == 0)

-- DirMonitor::TranslateINotifyToEvent
unfoldable pub translate_inotify_to_event : InotifyEvent → DirEvent
translate_inotify_to_event event =
    if has_bit event.mask in_create || has_bit event.mask in_moved_to
    then record { filename = event.name; event_type = add }
    else if has_bit event.mask in_delete || has_bit event.mask in_moved_from
    then record { filename = event.name; event_type = remove }
    else record { filename = event.name; event_type = modified }

-- DirMonitor::check_add_inotify: the two descriptors, or -1.
unfoldable pub check_add_inotify : Option ℕ → Option ℕ → Outcome (ℕ × ℕ)
check_add_inotify none watch = fault monitor_fail
check_add_inotify (some fd) none = fault monitor_fail
check_add_inotify (some fd) (some wfd) = ok (fd, wfd)

-- The inner loop of DirMonitor::Monitor over the events of one read, each with what m_flag was when
-- it was looked at (`true` is STOP).
unfoldable pub broadcast_events :
    ℕ → List (Bool × InotifyEvent) → Objects DirEvent → Outcome (Objects DirEvent)
unfolding translate_inotify_to_event
broadcast_events d [] w = ok w
broadcast_events d ((stopped, event) ∷ events) w =
    if stopped
    then ok w
    else and_then (broadcast d (translate_inotify_to_event event) w)
        (λ v. broadcast_events d events v)

-- One answer of read
pub data Read : Type 0 where
  events_read : List (Bool × InotifyEvent) → Read
  read_failed : Read

read_once : ℕ → Read → Objects DirEvent → Outcome (Objects DirEvent)
unfolding broadcast_events
read_once d read_failed w = fault monitor_fail
read_once d (events_read events) w = broadcast_events d events w

-- DirMonitor::Monitor over the loads of m_flag and the answers of read
unfoldable pub monitor : ℕ → List (Bool × Read) → Objects DirEvent → Outcome (Objects DirEvent)
unfolding read_once
monitor d [] w = blocked
monitor d ((stopped, answer) ∷ reads) w =
    if stopped then ok w else and_then (read_once d answer w) (λ v. monitor d reads v)

-- What DllLoader::Notify does: the libraries it opens, the errors it logs and what it prints.
pub record Loader : Type 0 where
  pub opened : List (List ℕ)
  pub errors : List (List ℕ)
  pub removed : List (List ℕ)
  pub changed : List (List ℕ)

-- DllLoader::Notify; whether dlopen succeeds is a parameter. (Of the three lines logged on an error,
-- the first one, the name, is kept.)
module _ (dlopen : List ℕ → Bool) where
  notify_by : DirEventType → List ℕ → Loader → Loader
  notify_by add name l =
      if dlopen name
      then record l { opened = l.opened ++ name ∷ [] }
      else record l { errors = l.errors ++ name ∷ [] }
  notify_by remove name l = record l { removed = l.removed ++ name ∷ [] }
  notify_by modified name l = record l { changed = l.changed ++ name ∷ [] }

  unfoldable pub notify_loader : DirEvent → Loader → Loader
  unfolding notify_by
  notify_loader event l = notify_by event.event_type event.filename l
