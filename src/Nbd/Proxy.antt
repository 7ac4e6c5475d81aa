-- ===== src/Nbd/Proxy.antt =====
-- The rest of NbdProxy (nbd_proxy/nbd_proxy.hpp, nbd_proxy/nbd_proxy.cpp): the constructor and the
-- destructor on the descriptors that are open, the thread in NBD_DO_IT, and what the members give.
use distributed_disk.Common.{
  ℕ, ◌*◌, ◌%◌, ◌^◌, ◌≡◌, ◌≢◌, refl, Bool, true, String, Option, none, some, List, [], ◌∷◌, arith,
  All, close, close-cons, sym, is_in, if◌then◌else◌, nat_eqb_iff, ◌∙◌, ap,
}
use distributed_disk.Common.Exec.{Outcome, Fault, ok, fault, and_then, and_then-ok}
use distributed_disk.Nbd.Setup.{
  NbdIoctl, nbd_set_blksize, nbd_set_size, nbd_clear_sock, nbd_set_sock, or_throw, check,
  setup_nbd_fd,
}

-- What the calls of SetupNbdFD answer: the socket pair, the descriptor of the device, and which
-- calls of ioctl succeed
pub record Device : Type 0 where
  pub socketpair : Option (ℕ × ℕ)
  pub opened : Option ℕ
  pub ioctl : NbdIoctl → ℕ → Bool

-- The members; m_path is kept as the text that it points to.
pub record NbdProxy : Type 0 where
  pub path : String
  pub bsize : ℕ
  pub bnum : ℕ
  pub nbd_fd : ℕ
  pub sockets : ℕ × ℕ

-- The descriptors that SetupNbdFD opens before it returns or throws
unfoldable pub opened_by : Option (ℕ × ℕ) → Option ℕ → List ℕ → List ℕ
opened_by none nbd fds = fds
opened_by (some sp) none fds = sp.1 ∷ sp.0 ∷ fds
opened_by (some sp) (some nbd) fds = nbd ∷ sp.1 ∷ sp.0 ∷ fds

-- NbdProxy::NbdProxy. Where SetupNbdFD throws, the destructor does not run.
unfoldable pub make_nbd_proxy : String → ℕ → ℕ → Device → List ℕ → Outcome NbdProxy × List ℕ
unfolding opened_by
make_nbd_proxy path bsize bnum device fds = (
  and_then (setup_nbd_fd device.socketpair device.opened device.ioctl bsize bnum) λ made.
      ok (record { path = path; bsize = bsize; bnum = bnum; nbd_fd = made.0; sockets = made.1 }),
  opened_by device.socketpair device.opened fds,
)

-- NbdProxy::~NbdProxy; whether NBD_DISCONNECT succeeds is only logged.
unfoldable pub delete_nbd_proxy : NbdProxy → List ℕ → List ℕ
delete_nbd_proxy p fds = close p.sockets.1 (close p.sockets.0 (close p.nbd_fd fds))

-- NbdProxy::RunThread: NBD_DO_IT returns when the device is disconnected; what is logged
unfoldable pub run_thread : Bool → List String
run_thread success = if success then [] else "error starting nbd do_it" ∷ []

-- GetPath, GetBlockSize, GetNumOfBlocks and GetFd
abbrev pub get_path : NbdProxy → String
get_path p = p.path

abbrev pub get_block_size : NbdProxy → ℕ
get_block_size p = p.bsize

abbrev pub get_num_of_blocks : NbdProxy → ℕ
get_num_of_blocks p = p.bnum

abbrev pub get_fd : NbdProxy → ℕ
get_fd p = p.sockets.0

-- A set up device has the descriptors that the calls gave.
setup_nbd_fd-ok :
    (sp : Option (ℕ × ℕ)) (fd : Option ℕ) (ioctl : NbdIoctl → ℕ → Bool) (bsize bnum : ℕ)
    (made : ℕ × (ℕ × ℕ))
    → setup_nbd_fd sp fd ioctl bsize bnum ≡ ok made
    → (sp ≡ some made.1) × (fd ≡ some made.0)
unfolding setup_nbd_fd or_throw
setup_nbd_fd-ok none fd ioctl bsize bnum made e = absurd cc
setup_nbd_fd-ok (some sp) none ioctl bsize bnum made e = absurd cc
setup_nbd_fd-ok (some sp) (some nbd) ioctl bsize bnum made e =
    let (a, p, e1) = and_then-ok (check (ioctl nbd_set_blksize bsize)) _ e in
    let (b, q, e2) = and_then-ok (check (ioctl nbd_set_size (bsize * bnum % 2 ^ 64))) _ e1 in
    let (c, r, e3) = and_then-ok (check (ioctl nbd_clear_sock 0)) _ e2 in
    let (d, t, e4) = and_then-ok (check (ioctl nbd_set_sock sp.1)) _ e3 in
    let same : (nbd, sp) ≡ made = cc in (rw (← same) refl, rw (← same) refl)

opened_by-both :
    (o : Option (ℕ × ℕ)) (fd : Option ℕ) (sp : ℕ × ℕ) (nbd : ℕ) (fds : List ℕ)
    → o ≡ some sp
    → fd ≡ some nbd
    → opened_by o fd fds ≡ nbd ∷ sp.1 ∷ sp.0 ∷ fds
unfolding opened_by
opened_by-both o fd sp nbd fds e f = rw (e, f) refl

opened_by-sockets :
    (o : Option (ℕ × ℕ)) (fd : Option ℕ) (sp : ℕ × ℕ) (fds : List ℕ)
    → o ≡ some sp
    → (is_in sp.0 (opened_by o fd fds) ≡ true) × (is_in sp.1 (opened_by o fd fds) ≡ true)
unfolding opened_by is_in
opened_by-sockets none fd sp fds e = absurd cc
opened_by-sockets (some q) none sp fds e = (ground arith, ground arith)
opened_by-sockets (some q) (some nbd) sp fds e = (ground arith, ground arith)

close-second :
    (s0 s1 : ℕ) (fds : List ℕ)
    → All (λ f. f ≢ s0) fds
    → s0 ≢ s1
    → close s0 (s1 ∷ s0 ∷ fds) ≡ s1 ∷ fds
unfolding close
close-second s0 s1 fds new0 other = ground (arith, close-cons s0 fds new0, nat_eqb_iff s1 s0)

close-three :
    (nbd s0 s1 : ℕ) (fds : List ℕ)
    → All (λ f. f ≢ nbd) (s1 ∷ s0 ∷ fds)
    → All (λ f. f ≢ s0) fds
    → All (λ f. f ≢ s1) (s0 ∷ fds)
    → close s1 (close s0 (close nbd (nbd ∷ s1 ∷ s0 ∷ fds))) ≡ fds
close-three nbd s0 s1 fds new_nbd new0 new1 =
    ap (λ l. close s1 (close s0 l)) (close-cons nbd (s1 ∷ s0 ∷ fds) new_nbd)
    ∙ ap (close s1) (close-second s0 s1 fds new0 new1.0)
    ∙ close-cons s1 fds new1.1

module _ (path : String) (bsize bnum : ℕ) (device : Device) (fds : List ℕ) where
  -- A proxy that is made and deleted leaves the descriptors as they were, where the calls give new
  -- ones. Where the constructor throws after socketpair, the two sockets stay open: nothing closes
  -- them.
  pub make_nbd_proxy-delete_nbd_proxy :
      ((p : NbdProxy) (fds' : List ℕ)
        → make_nbd_proxy path bsize bnum device fds ≡ (ok p, fds')
        → All (λ f. f ≢ p.nbd_fd) (p.sockets.1 ∷ p.sockets.0 ∷ fds)
        → All (λ f. f ≢ p.sockets.0) fds
        → All (λ f. f ≢ p.sockets.1) (p.sockets.0 ∷ fds)
        → delete_nbd_proxy p fds' ≡ fds)
      × ((e : Fault) (fds' : List ℕ) (sp : ℕ × ℕ)
          → make_nbd_proxy path bsize bnum device fds ≡ (fault e, fds')
          → device.socketpair ≡ some sp
          → (is_in sp.0 fds' ≡ true) × (is_in sp.1 fds' ≡ true))
  unfolding make_nbd_proxy delete_nbd_proxy is_in
  make_nbd_proxy-delete_nbd_proxy = (
    λ p fds' made new_nbd new0 new1.
        let (both, set_up, e) =
          and_then-ok (setup_nbd_fd device.socketpair device.opened device.ioctl bsize bnum) _
            (ap (λ t. t.0) made) in
        let (sp, nbd) =
          setup_nbd_fd-ok device.socketpair device.opened device.ioctl bsize bnum both set_up in
        let same : record {
          path = path;
          bsize = bsize;
          bnum = bnum;
          nbd_fd = both.0;
          sockets = both.1;
        }
            ≡ p =
          cc in
        let left =
          ap (λ q. q.nbd_fd ∷ q.sockets.1 ∷ q.sockets.0 ∷ fds) (sym same)
          ∙ sym (opened_by-both device.socketpair device.opened both.1 both.0 fds sp nbd)
          ∙ ap (λ t. t.1) made in
        ap (delete_nbd_proxy p) (sym left)
        ∙ close-three p.nbd_fd p.sockets.0 p.sockets.1 fds new_nbd new0 new1,
    λ e fds' sp made given.
        let left = ap (λ t. t.1) made in
        rw (← left) (opened_by-sockets device.socketpair device.opened sp fds given),
  )
