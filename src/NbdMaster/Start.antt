-- ===== src/NbdMaster/Start.antt =====
-- How nbd_proxy/nbd_proxy_master.cpp begins: ConfigAndRegister, with the constructor and the
-- destructor of NbdProxy and its thread. No failure is thrown, some are printed: after a failing
-- socketpair the pair is what the stack held, after a failing open the descriptor is -1.
use distributed_disk.Common.{
  ℕ, ◌-◌, ◌^◌, ◌≡◌, true, false, Bool, String, Option, none, some, List, [], ◌∷◌, ◌++◌, close,
  if◌then◌else◌, string_eq, nat_eq, refl,
}
use distributed_disk.Common.Dict.{lookup, lookup-insert_self}
use distributed_disk.Nbd.{CmdArgs}
use distributed_disk.Nbd.Setup.{
  NbdIoctl, nbd_set_blksize, nbd_set_size, nbd_clear_sock, nbd_set_sock,
}
use distributed_disk.Reactor.{key_eq}
use distributed_disk.Mediator.Registered.{IsMediator, register_proxy-IsMediator}
use distributed_disk.Common.Exec.{ok}
use distributed_disk.Mediator
use distributed_disk.Factory.Laws.{create-add}
use distributed_disk.Framework.{FrameWork}
use distributed_disk.Framework

-- The members of NbdProxy
pub record NbdProxy : Type 0 where
  pub path : String
  pub bsize : ℕ
  pub bnum : ℕ
  pub nbd_socket_fd : ℕ
  pub nbd : ℕ

-- NbdProxy::NbdProxy; its thread is in Connect.
abbrev pub make_nbd_proxy : String → ℕ → ℕ → ℕ → ℕ → NbdProxy
make_nbd_proxy path bsize bnum socket_fd nbd = record {
  path = path;
  bsize = bsize;
  bnum = bnum;
  nbd_socket_fd = socket_fd;
  nbd = nbd;
}

-- NbdProxy::~NbdProxy, on the open descriptors: the device's one is not closed.
unfoldable pub delete_nbd_proxy : NbdProxy → List ℕ → List ℕ
delete_nbd_proxy p fds = close p.nbd_socket_fd fds

-- What is printed where a call fails
unfoldable pub report : Bool → String → List String
report success text = if success then [] else text ∷ []

-- NbdProxy::Connect: what is printed once NBD_DO_IT returns
unfoldable pub connect : Bool → List String
unfolding report
connect success = report success "NBD_DO_IT terminated with error\n"

-- What the calls answer; `stack` is what the uninitialised pair of sockets holds.
pub record Answers : Type 0 where
  pub socketpair : Option (ℕ × ℕ)
  pub stack : ℕ × ℕ
  pub opened : Option ℕ
  pub ioctl : NbdIoctl → ℕ → ℕ → Bool

-- The framework, the commands given to the shell, and what was printed to std::cout
pub record Host (Env Command : Type 0) : Type 0 where
  pub framework : FrameWork NbdProxy CmdArgs Env Command
  pub shells : List String
  pub printed : List String

unfoldable pub succeeds {ℓ} : {A : Type ℓ} → Option A → Bool
succeeds none = false
succeeds (some a) = true

unfoldable pub get_or {ℓ} : {A : Type ℓ} → A → Option A → A
get_or a none = a
get_or a (some b) = b

abbrev pub dev_file : String
dev_file = "/dev/nbd3"

-- What the calls of socketpair, open and ioctl print
unfoldable pub set_up : Answers → List String
unfolding report get_or succeeds
set_up a =
    let sp = get_or a.stack a.socketpair in
    let nbd = get_or (2 ^ 32 - 1) a.opened in
    report (succeeds a.socketpair) "socketpair terminated with error\n"
    ++ "socketpair\n"
      ∷ (report (a.ioctl nbd_set_blksize nbd 4096) "NBD_SET_BLKSIZE terminated with error\n"
          ++ "NBD_SET_BLKSIZE\n"
            ∷ (report (a.ioctl nbd_set_size nbd 134217728) "NBD_SET_SIZE terminated with error\n"
                ++ (report (a.ioctl nbd_clear_sock nbd 0) "NBD_CLEAR_SOCK terminated with error\n"
                    ++ "NBD_CLEAR_SOCK\n"
                      ∷ report (a.ioctl nbd_set_sock nbd sp.1)
                          "NBD_SET_SOCK terminated with error\n")))

abbrev pub first_shells : List String
first_shells =
    "sudo modprobe nbd" ∷ "echo 4 | sudo tee /sys/block/nbd3/queue/max_sectors_kb"
    ∷ "sudo chmod 777 /dev/nbd3" ∷ []

abbrev pub last_shells : List String
last_shells =
    "sudo mkfs.ext4 /dev/nbd3" ∷ "mkdir /home/may/Desktop/new_dir"
    ∷ "sudo mount /dev/nbd3 /home/may/Desktop/new_dir" ∷ "sudo chmod 777 /home/may/Desktop/new_dir"
    ∷ []

module _ {Env Command : Type 0} where
  -- ConfigAndRegister
  unfoldable pub config_and_register :
      (CmdArgs → Command) → (CmdArgs → Command) → Answers → Host Env Command → Host Env Command
  unfolding get_or set_up
  config_and_register write_cmd read_cmd a h =
      let sp = get_or a.stack a.socketpair in
      let nbd = get_or (2 ^ 32 - 1) a.opened in
      let fw =
        Framework.register_proxy sp.0 (some (make_nbd_proxy dev_file 4 14000 sp.0 nbd))
          h.framework in
      record {
        framework =
            Framework.register_cmd "ReadCmd" read_cmd
              (Framework.register_cmd "WriteCmd" write_cmd fw);
        shells = h.shells ++ (first_shells ++ last_shells);
        printed = h.printed ++ (set_up a ++ "mkfs ends\n" ∷ "mount\n" ∷ []);
      }

  module _ (write_cmd read_cmd : CmdArgs → Command) (a : Answers) (h : Host Env Command)
      (v : IsMediator h.framework.mediator) where
    -- Whatever the calls answer, the proxy is registered for the descriptor that the pair holds, the
    -- mediator stays in order, and the factory makes both commands.
    pub config_and_register_registers :
        (args : CmdArgs)
        → IsMediator (config_and_register write_cmd read_cmd a h).framework.mediator
          × (lookup
                (get_or a.stack a.socketpair).0
                (config_and_register write_cmd read_cmd a h).framework.mediator.1.proxy_map
              ≡ some (
                  some (
                    make_nbd_proxy dev_file 4 14000
                      (get_or a.stack a.socketpair).0
                      (get_or (2 ^ 32 - 1) a.opened))))
          × (Framework.command_of
                (record { key = "WriteCmd"; args = args })
                (config_and_register write_cmd read_cmd a h).framework
              ≡ ok (write_cmd args))
          × (Framework.command_of
                (record { key = "ReadCmd"; args = args })
                (config_and_register write_cmd read_cmd a h).framework
              ≡ ok (read_cmd args))
    unfolding config_and_register Framework.register_cmd Framework.register_proxy
        Framework.command_of Mediator.register_proxy
    config_and_register_registers args = (
      register_proxy-IsMediator (get_or a.stack a.socketpair).0 h.framework.mediator v _,
      lookup-insert_self (get_or a.stack a.socketpair).0 _ h.framework.mediator.1.proxy_map,
      rw (create-add, create-add) refl,
      rw create-add refl,
    )
