-- ===== src/Minion/Process.antt =====
-- The threads of a minion's process: the reactor's thread parses requests (Mediator::ReactorHandler),
-- and threads of the pool run their tasks, in any order and as many at a time as there are threads.
-- A task runs undivided here. The environment of the mediator is the minion.
use distributed_disk.Common.{ℕ, ◌≡◌, List, ◌∷◌, ◌++◌, length}
use distributed_disk.Common.Exec.{ok}
use distributed_disk.CmdData.{CmdData}
use distributed_disk.Protocol.{Request, block_size}
use distributed_disk.Reactor.{Reactor}
use distributed_disk.Mediator.{Mediator, State, reactor_handler}
use distributed_disk.Minion.{Minion, parse_data, do_task}

module _ (Proxy : Type 0) where
  abbrev pub Process : Type 0
  Process = State Proxy (List ℕ) Minion

  pub data Step : Process → Process → Type 0 where
    -- The handler of a descriptor returns; `junk` is what the memory of its request holds.
    handle :
        (junk : Request) (fd : ℕ) (s t : Process)
        → length junk.block ≡ block_size
        → reactor_handler (λ proxy fd m. parse_data junk m) fd s ≡ ok t
        → Step s t
    -- A thread has run one of the tasks.
    work :
        (r : Reactor ℕ) (m : Mediator Proxy (List ℕ) Minion)
        (before after : List (CmdData (List ℕ))) (data_ : CmdData (List ℕ)) (minion : Minion)
        → m.tasks ≡ before ++ data_ ∷ after
        → do_task data_ m.env ≡ ok (tt, minion)
        → Step (r, m) (r, record m { tasks = before ++ after; env = minion })

  pub data Steps : Process → Process → Type 0 where
    done : (s : Process) → Steps s s
    step : (s t u : Process) → Step s t → Steps t u → Steps s u
