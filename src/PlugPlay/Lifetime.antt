-- ===== src/PlugPlay/Lifetime.antt =====
-- The plug-ins' loader from its constructor to its destructor.
use distributed_disk.Common.{ℕ, ◌≡◌, none, some, List, [], ◌∷◌, nat_eq}
use distributed_disk.Common.Dict.{lookup, insert, erase}
use distributed_disk.Dispatcher.{Objects}
use distributed_disk.Dispatcher.Linked.{IsLinked}
use distributed_disk.Monitor.{DirEvent}

module _ (d c : ℕ) (o : Objects DirEvent) (v : IsLinked o) (new_d : lookup d o.dispatchers ≡ none)
    (new_c : lookup c o.callbacks ≡ none) where
  -- The objects once the loader has subscribed to the monitor's dispatcher.
  abbrev loaded : Objects DirEvent
  loaded = record o {
    dispatchers = insert d (c ∷ []) (insert d [] o.dispatchers);
    callbacks = insert c (some d) (insert c none o.callbacks);
  }

  -- The loader dies, then the dispatcher.
  abbrev unloaded : List (ℕ × DirEvent) → Objects DirEvent
  unloaded calls = record o {
    dispatchers = erase d (insert d [] loaded.dispatchers);
    callbacks = erase c loaded.callbacks;
    notified = calls;
  }
