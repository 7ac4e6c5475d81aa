-- ===== src/Connection.antt =====
-- Master::InitConnection (master/master.cpp): the device is set up, the master becomes the proxy of
-- its socket, and a file system is made and mounted. Commands of the shell are recorded; those that
-- begin SetupNbdFD (nbd_proxy/nbd_proxy.cpp) are here too.
pub mod Mounting
use Prim.Native.String.{◌++◌ as str_append}
use distributed_disk.Common.{ℕ, String, Bool, Option, none, some, List, [], ◌∷◌, ◌++◌, close}
use distributed_disk.Common.Exec.{Outcome, ok, fault, blocked, and_then, dangling_pointer}
use distributed_disk.Config.{ConfigMap, get_config}
use distributed_disk.Startup.{read_number}
use distributed_disk.Nbd.Proxy.{Device, NbdProxy, make_nbd_proxy, get_fd}
use distributed_disk.Mediator.{State, register_proxy}
use distributed_disk.Framework.Start.{size_of_int}

-- The mediator of the framework, the commands given to the shell, and the open descriptors
pub record Host (Proxy Args Env : Type 0) : Type 0 where
  pub mediator : State Proxy Args Env
  pub shells : List String
  pub fds : List ℕ

-- The three commands at the beginning of SetupNbdFD
abbrev pub setup_commands : String → List String
setup_commands path =
    "sudo modprobe nbd"
    ∷ str_append "echo 4 | sudo tee /sys/block/nbd" (str_append path "/queue/max_sectors_kb")
    ∷ str_append "sudo chmod 777 /dev/nbd" path
    ∷ []

-- Master::ReadBlockSize and ReadNumOfBlocks
unfoldable pub read_sizes : ConfigMap → Outcome (ℕ × ℕ)
read_sizes config = and_then (read_number "BLOCK_SIZE" config) λ bsize.
    and_then (read_number "NUM_OF_BLOCKS" config) λ bnum. ok (size_of_int bsize, size_of_int bnum)

-- Master::ReadDirPath: GetConfig returns a std::string by value, which dies with the return, and
-- c_str() pointed into it.
unfoldable pub read_dir_path : ConfigMap → Outcome String
read_dir_path config = and_then (get_config "DIR_PATH" config) λ value. fault dangling_pointer

module _ {Proxy Args Env : Type 0} where
  -- `mount` and `chmod`
  with_path :
      String → Outcome String → Host Proxy Args Env → Outcome (Unit {0}) × Host Proxy Args Env
  with_path nbd_num (fault e) h = (fault e, h)
  with_path nbd_num blocked h = (blocked, h)
  with_path nbd_num (ok dir_path) h = (
    ok tt,
    record h {
      shells =
          h.shells
          ++ str_append "sudo mount /dev/nbd" (str_append nbd_num (str_append " " dir_path))
            ∷ str_append "sudo chmod -R 777 " dir_path
            ∷ [];
    },
  )

  -- RegisterProxy and `mkfs`
  with_device :
      String
      → ConfigMap
      → Proxy
      → Outcome NbdProxy
      → Host Proxy Args Env
      → Outcome (Unit {0}) × Host Proxy Args Env
  unfolding with_path
  with_device nbd_num config master (fault e) h = (fault e, h)
  with_device nbd_num config master blocked h = (blocked, h)
  with_device nbd_num config master (ok p) h = with_path nbd_num (read_dir_path config) (record h {
    mediator = register_proxy (get_fd p) (some master) h.mediator;
    shells = h.shells ++ str_append "sudo mkfs.ext4 /dev/nbd" nbd_num ∷ [];
  })

  -- NbdProxy::NbdProxy, and what follows it in InitConnection
  with_sizes :
      String
      → ConfigMap
      → Device
      → Proxy
      → Outcome (ℕ × ℕ)
      → Host Proxy Args Env
      → Outcome (Unit {0}) × Host Proxy Args Env
  unfolding with_device
  with_sizes nbd_num config device master (fault e) h = (fault e, h)
  with_sizes nbd_num config device master blocked h = (blocked, h)
  with_sizes nbd_num config device master (ok (bsize, bnum)) h =
      let (made, fds) = make_nbd_proxy nbd_num bsize bnum device h.fds in
      with_device nbd_num config master made
        (record h { shells = h.shells ++ setup_commands nbd_num; fds = fds })

  -- Master::InitConnection
  unfoldable pub init_connection :
      String
      → ConfigMap
      → Device
      → Proxy
      → Host Proxy Args Env
      → Outcome (Unit {0}) × Host Proxy Args Env
  unfolding with_sizes
  init_connection nbd_num config device master h =
      with_sizes nbd_num config device master (read_sizes config) h
