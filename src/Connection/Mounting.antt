-- ===== src/Connection/Mounting.antt =====
-- How far InitConnection comes.
use Prim.Native.String.{◌++◌ as str_append}
use distributed_disk.Common.{ℕ, String, ◌≡◌, ◌++◌, nat_eq}
use distributed_disk.Common.Exec.{Fault, ok, fault}
use distributed_disk.Config.{ConfigMap}
use distributed_disk.Nbd.Setup.{setup_nbd_fd}
use distributed_disk.Reactor.{FdAndMode, key_eq}
use distributed_disk.Reactor
use distributed_disk.Mediator.Registered.{IsMediator}
use distributed_disk.Nbd.Proxy.{Device, make_nbd_proxy, opened_by}
use distributed_disk.Connection.{Host, setup_commands, read_sizes, init_connection}

module _ {Proxy Args Env : Type 0} (nbd_num : String) (config : ConfigMap) (device : Device)
    (master : Proxy) (h : Host Proxy Args Env) (v : IsMediator h.mediator) where
  -- Where the device cannot be set up, nothing is registered, and what was opened stays open.
  pub init_connection_throws :
      (sizes : ℕ × ℕ) (e : Fault)
      → read_sizes config ≡ ok sizes
      → setup_nbd_fd device.socketpair device.opened device.ioctl sizes.0 sizes.1 ≡ fault e
      → init_connection nbd_num config device master h ≡ (
        fault e,
        record h {
          shells = h.shells ++ setup_commands nbd_num;
          fds = opened_by device.socketpair device.opened h.fds;
        },
      )
  unfolding init_connection make_nbd_proxy
  init_connection_throws sizes e read fails = rw (read, fails)
