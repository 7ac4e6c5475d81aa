-- ===== src/Framework.antt =====
-- framework/framework.hpp and framework/framework.cpp: the factory of the commands and the mediator,
-- on one reactor. The pool's threads take the tasks of the mediator; the loader of the plug-ins is
-- in Monitor.
pub mod Turns
pub mod Start
pub mod Ready
use distributed_disk.Common.{ℕ, String, Option, string_eq}
use distributed_disk.Common.Exec.{Outcome}
use distributed_disk.CmdData.{CmdData}
use distributed_disk.Factory.{Factory}
use distributed_disk.Factory
use distributed_disk.Mediator.{State}
use distributed_disk.Mediator

-- m_factory, and the state of m_mediator with its reactor
pub record FrameWork (Proxy Args Env Command : Type 0) : Type 0 where
  pub factory : Factory Command Args String
  pub mediator : State Proxy Args Env

module _ {Proxy Args Env Command : Type 0} where
  -- FrameWork::RegisterProxy
  unfoldable pub register_proxy :
      ℕ → Option Proxy → FrameWork Proxy Args Env Command → FrameWork Proxy Args Env Command
  register_proxy fd proxy fw = record fw { mediator = Mediator.register_proxy fd proxy fw.mediator }

  -- FrameWork::RegisterCmd
  unfoldable pub register_cmd :
      String
      → (Args → Command)
      → FrameWork Proxy Args Env Command
      → FrameWork Proxy Args Env Command
  register_cmd id func fw = record fw { factory = Factory.add id func fw.factory }

  -- The command of a task: `m_create_func` is the factory's Create.
  unfoldable pub command_of : CmdData Args → FrameWork Proxy Args Env Command → Outcome Command
  command_of data_ fw = Factory.create data_.key data_.args fw.factory
