-- ===== src/PlugPlay.antt =====
-- The life of the plug-ins' loader: the constructors, StopMonitor and the destructors of DirMonitor
-- and DllLoader (dir_monitor_dllloader/dir_monitor_impl.cpp), and PlugPlay, which holds one of each
-- (framework/framework.cpp). What the monitor's thread does meanwhile is in Monitor.
pub mod Stopping
pub mod Lifetime
use distributed_disk.Common.{
  ℕ, ◌+◌, Bool, true, false, Option, none, some, List, [], ◌∷◌, ◌++◌, map, not, ◌||◌, ◌&&◌,
  if◌then◌else◌, ltb, length, close,
}
use distributed_disk.Common.Exec.{
  Outcome, Fault, ok, fault, blocked, and_then, monitor_fail, buffer_overflow, no_room,
}
use distributed_disk.Dispatcher.{
  Objects, make_dispatcher, make_callback, subscribe, delete_callback, delete_dispatcher,
}
use distributed_disk.Monitor.{DirEvent, InotifyEvent, Read, broadcast_events, monitor}
use distributed_disk.Monitor

-- The members of DirMonitor; `stopped` is m_flag. m_wfd is the number of a watch, not a descriptor.
pub record DirMonitor : Type 0 where
  pub path : List ℕ
  pub dispatcher : ℕ
  pub fd : ℕ
  pub wfd : ℕ
  pub stopped : Bool

-- The dispatchers and callbacks, the open descriptors, and whether "dummy_die" is in the directory.
pub record World : Type 0 where
  pub objects : Objects DirEvent
  pub opened : List ℕ
  pub dummy : Bool

-- What the calls of the constructor answer: inotify_init and inotify_add_watch (`none` is -1), and
-- whether the thread could be started.
pub record Answers : Type 0 where
  pub inotify : Option ℕ
  pub watch : Option ℕ
  pub starts : Bool

-- DirMonitor::DirMonitor behind inotify_init. Where it throws, the dispatcher dies with the members.
started : List ℕ → ℕ → ℕ → ℕ → Bool → World → Outcome DirMonitor × World
started path d fd wfd false w =
    (fault no_room, record w { opened = close fd (close wfd (fd ∷ w.opened)) })
started path d fd wfd true w = (
  ok (record { path = path; dispatcher = d; fd = fd; wfd = wfd; stopped = false }),
  record w { objects = make_dispatcher d w.objects; opened = fd ∷ w.opened },
)

watched : List ℕ → ℕ → ℕ → Option ℕ → Bool → World → Outcome DirMonitor × World
unfolding started
watched path d fd none starts w =
    (fault monitor_fail, record w { opened = close fd (fd ∷ w.opened) })
watched path d fd (some wfd) starts w = started path d fd wfd starts w

on_inotify : List ℕ → ℕ → Option ℕ → Answers → World → Outcome DirMonitor × World
unfolding watched
on_inotify path d none a w = (fault monitor_fail, w)
on_inotify path d (some fd) a w = watched path d fd a.watch a.starts w

unfoldable pub make_monitor : List ℕ → ℕ → Answers → World → Outcome DirMonitor × World
unfolding on_inotify
make_monitor path d a w = on_inotify path d a.inotify a w

-- The two calls of strcat, "/dummy_die" behind the path, into FILENAME_MAX bytes
unfoldable pub path_name : List ℕ → Outcome (Unit {0})
path_name path = if ltb 4095 (length path + 10) then fault buffer_overflow else ok tt

-- DirMonitor::CreateDir, which makes a file; an error is only logged. DirMonitor::RemoveDir
unfoldable pub create_dir : Bool → List ℕ → World → Outcome World
unfolding path_name
create_dir success path w =
    and_then (path_name path) λ name. ok (record w { dummy = success || w.dummy })

unfoldable pub remove_dir : Bool → List ℕ → World → Outcome World
unfolding path_name
remove_dir success path w =
    and_then (path_name path) λ name. ok (record w { dummy = not success && w.dummy })

-- Where the monitor's thread is when the flag is stored: at the test of its loop, among the events
-- of a read, or in read, with what read answers if it does.
pub data At : Type 0 where
  at_test : At
  at_events : List InotifyEvent → At
  in_read : Option Read → At

-- The flag is found to be STOP from now on.
abbrev pub stopped_events : List InotifyEvent → List (Bool × InotifyEvent)
stopped_events = map (λ event. (true, event))

abbrev pub seen_stopped : Read → Read
seen_stopped (Monitor.Read.events_read events) =
    Monitor.Read.events_read (map (λ (e : Bool × InotifyEvent). (true, e.1)) events)
seen_stopped Monitor.Read.read_failed = Monitor.Read.read_failed

-- What is left of DirMonitor::Monitor: m_mon_thread->join() waits for it.
unfoldable pub rest_of_thread : ℕ → At → Objects DirEvent → Outcome (Objects DirEvent)
unfolding monitor
rest_of_thread d at_test o = monitor d ((true, Monitor.Read.read_failed) ∷ []) o
rest_of_thread d (at_events events) o =
    and_then (broadcast_events d (stopped_events events) o)
      λ v. monitor d ((true, Monitor.Read.read_failed) ∷ []) v
rest_of_thread d (in_read none) o = blocked
rest_of_thread d (in_read (some answer)) o =
    monitor d ((false, seen_stopped answer) ∷ (true, Monitor.Read.read_failed) ∷ []) o

-- What the file calls of StopMonitor answer
pub record FileAnswers : Type 0 where
  pub created : Bool
  pub removed : Bool

stop_running : At → FileAnswers → DirMonitor → World → Outcome (DirMonitor × World)
stop_running at files m w = and_then (create_dir files.created m.path w) λ w'.
    and_then (rest_of_thread m.dispatcher at w'.objects) λ objects.
      and_then (remove_dir files.removed m.path (record w' { objects = objects })) λ w''.
        ok
          (record m { stopped = true }, record w'' { opened = close m.fd (close m.wfd w''.opened) })

-- DirMonitor::StopMonitor
unfoldable pub stop_monitor : At → FileAnswers → DirMonitor → World → Outcome (DirMonitor × World)
unfolding stop_running
stop_monitor at files m w = if m.stopped then ok (m, w) else stop_running at files m w

with_objects : World → Outcome (Objects DirEvent) → Outcome World
with_objects w o = and_then o λ objects. ok (record w { objects = objects })

-- DirMonitor::~DirMonitor, and the end of its member m_dispatcher
unfoldable pub delete_monitor : At → FileAnswers → DirMonitor → World → Outcome World
unfolding with_objects
delete_monitor at files m w =
    and_then (stop_monitor at files m w)
      λ stopped. with_objects stopped.1 (delete_dispatcher m.dispatcher stopped.1.objects)

-- DllLoader::DllLoader: where Subscribe finds no memory, the callback is deleted.
unfoldable pub make_loader : Bool → ℕ → DirMonitor → World → Outcome World
unfolding with_objects
make_loader room c m w =
    let objects = make_callback c w.objects in
    if room
    then with_objects w (subscribe m.dispatcher c objects)
    else and_then (delete_callback c objects) λ o. fault no_room

-- DllLoader::~DllLoader
unfoldable pub delete_loader : ℕ → World → Outcome World
unfolding with_objects
delete_loader c w = with_objects w (delete_callback c w.objects)

-- PlugPlay::PlugPlay, where both constructors succeed or the first one throws
unfoldable pub make_plug_play :
    List ℕ → ℕ → ℕ → Bool → Answers → World → Outcome (DirMonitor × World)
unfolding make_loader
make_plug_play path d c room a w =
    let (made, w') = make_monitor path d a w in
    and_then made λ m. and_then (make_loader room c m w') λ w''. ok (m, w'')

-- The members of PlugPlay die in reverse order: the loader, then the monitor.
unfoldable pub delete_plug_play : At → FileAnswers → ℕ → DirMonitor → World → Outcome World
unfolding delete_loader delete_monitor
delete_plug_play at files c m w = and_then (delete_loader c w) λ w'. delete_monitor at files m w'
