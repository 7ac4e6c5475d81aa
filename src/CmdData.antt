-- ===== src/CmdData.antt =====
-- CmdData of mediator/mediator.hpp: the key of a command and its arguments. `m_args` holds the
-- bytes of a value that the command's `Run` copies out again; where the value is a struct with
-- pointers (NbdProxy::CmdArgs), the model keeps the value.
use distributed_disk.Common.{String}

pub record CmdData (Args : Type 0) : Type 0 where
  pub key : String
  pub args : Args
