-- ===== src/Framework/Start.antt =====
-- The constructors of FrameWork (framework/framework.cpp) and Mediator (mediator/mediator.cpp), and
-- the destructor of Mediator. The thread that Mediator starts runs the reactor; the loader of the
-- plug-ins is in PlugPlay. Scheduling policy and niceness are kept as the numbers that were read.
use distributed_disk.Common.{ℕ, ◌+◌, ◌-◌, ◌^◌, String, [], ltb, if◌then◌else◌, string_eq}
use distributed_disk.Common.Exec.{Outcome, ok, and_then}
use distributed_disk.Config.{ConfigMap, get_config}
use distributed_disk.Startup.{read_number}
use distributed_disk.Reactor.{Reactor, make_reactor}
use distributed_disk.Reactor
use distributed_disk.ThreadPool.{ThreadPool, make_pool, run}
use distributed_disk.ThreadPool.Stop.{Stopping}
use distributed_disk.ThreadPool.Stop
use distributed_disk.Mediator.{State}
use distributed_disk.Framework.{FrameWork}

-- An int is converted to size_t: a negative one is a number just below 2^64.
abbrev pub size_of_int : ℕ → ℕ
size_of_int n = if ltb n (2 ^ 31) then n else n + (2 ^ 64 - 2 ^ 32)

-- FrameWork with the pool, and what the pool and the loader of the plug-ins are made with
pub record Program (Proxy Args Env Command : Type 0) : Type 0 where
  pub framework : FrameWork Proxy Args Env Command
  pub pool : ThreadPool
  pub policy : ℕ
  pub niceness : ℕ
  pub plug_path : String

module _ {Proxy Args Env : Type 0} where
  -- Mediator::Mediator: the members, then the pool is run.
  unfoldable pub make_mediator : Env → ThreadPool → State Proxy Args Env × ThreadPool
  unfolding make_reactor run
  make_mediator env pool =
      ((make_reactor, record { proxy_map = []; tasks = []; env = env }), run pool)

  -- Mediator::~Mediator: the pool is stopped, then the reactor, whose thread ends its loop then.
  unfoldable pub delete_mediator : State Proxy Args Env → ThreadPool → Reactor ℕ × Stopping
  unfolding Reactor.stop Stop.stop
  delete_mediator (r, m) pool = (Reactor.stop r, Stop.stop pool)

module _ {Proxy Args Env Command : Type 0} where
  unfoldable pub assemble : Env → ℕ → ℕ → ℕ → String → Program Proxy Args Env Command
  unfolding make_mediator
  assemble env policy threads niceness plug_path =
      let (mediator, pool) = make_mediator env (make_pool (size_of_int threads)) in
      record {
        framework = record { factory = record { map = [] }; mediator = mediator };
        pool = pool;
        policy = policy;
        niceness = niceness;
        plug_path = plug_path;
      }

  -- FrameWork::FrameWork over the configuration
  unfoldable pub make_framework : ConfigMap → Env → Outcome (Program Proxy Args Env Command)
  unfolding assemble
  make_framework config env = and_then (read_number "POLICY" config) λ policy.
      and_then (read_number "NUM_OF_THREADS" config) λ threads.
        and_then (read_number "NICENESS" config) λ niceness.
          and_then (get_config "PLUG_PATH" config)
            λ plug_path. ok (assemble env policy threads niceness plug_path)
