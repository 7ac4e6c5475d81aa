-- ===== src/Nbd/Setup.antt =====
-- NbdProxy::SetupNbdFD of nbd_proxy/nbd_proxy.cpp: what the system calls return is given. The two
-- commands before it, which load the module and open up the device, are in Connection.
use distributed_disk.Common.{ℕ, ◌*◌, ◌%◌, ◌^◌, Bool, Option, none, some, if◌then◌else◌}
use distributed_disk.Common.Exec.{Outcome, ok, fault, and_then, nbd_exception}

-- The requests of ioctl on the device
pub data NbdIoctl : Type 0 where
  nbd_set_blksize nbd_set_size nbd_clear_sock nbd_set_sock : NbdIoctl

-- A result that is -1 throws.
unfoldable pub or_throw : {A : Type 0} → Option A → Outcome A
or_throw none = fault nbd_exception
or_throw (some a) = ok a

unfoldable pub check : Bool → Outcome (Unit {0})
check success = if success then ok tt else fault nbd_exception

-- The sockets and the descriptor of the device; `ioctl` tells which calls succeed.
unfoldable pub setup_nbd_fd :
    Option (ℕ × ℕ) → Option ℕ → (NbdIoctl → ℕ → Bool) → ℕ → ℕ → Outcome (ℕ × (ℕ × ℕ))
unfolding or_throw check
setup_nbd_fd socketpair opened ioctl bsize bnum = and_then (or_throw socketpair) λ sockets.
    and_then (or_throw opened) λ nbd. and_then (check (ioctl nbd_set_blksize bsize)) λ blksize.
      and_then (check (ioctl nbd_set_size (bsize * bnum % 2 ^ 64))) λ size.
        and_then (check (ioctl nbd_clear_sock 0))
          λ clear. and_then (check (ioctl nbd_set_sock sockets.1)) λ sock. ok (nbd, sockets)
