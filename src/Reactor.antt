-- ===== src/Reactor.antt =====
-- reactor/reactor.hpp and reactor/reactor.cpp. A handler is a value; what calling it does is a
-- parameter, and a handler may change the reactor. The answers of select are a list.
pub mod Select
pub mod Running
use Prim.Native.Nat.{max}
use distributed_disk.Common.{
  ℕ, zero, suc, ◌+◌, ◌≡◌, ◌↔◌, refl, arith, Bool, true, false, Option, none, some, List, [], ◌∷◌,
  ◌&&◌, Eq, ◌==◌, nat_eq, nat_eqb, nat_eqb_iff, if◌then◌else◌,
}
use distributed_disk.Common.Exec.{Outcome, ok, fault, blocked, logic_error, select_fail, and_then}
use distributed_disk.Common.Dict.{lookup, insert, erase}

-- ModeType
pub data Mode : Type 0 where
  read write exception : Mode

abbrev pub mode_number : Mode → ℕ
mode_number read = 0
mode_number write = 1
mode_number exception = 2

abbrev pub FdAndMode : Type 0
FdAndMode = ℕ × Mode

abbrev pub same_key : FdAndMode → FdAndMode → Bool
same_key (fd, mode) (fd', mode') = nat_eqb fd fd' && nat_eqb (mode_number mode) (mode_number mode')

pub same_key_iff : (a b : FdAndMode) → (same_key a b ≡ true) ↔ (a ≡ b)
same_key_iff a b = ground arith

instance abbrev pub key_eq : Eq FdAndMode
key_eq = record { beq = same_key; beq_iff = same_key_iff }

pub record Reactor (Handler : Type 0) : Type 0 where
  pub map : List (FdAndMode × Handler)
  pub fd_handlers_to_invoke : List FdAndMode
  pub stop_flag : Bool

-- One answer of select: how many bits are set in the three sets, and which; or -1.
pub data Selected : Type 0 where
  ready : ℕ → List FdAndMode → Selected
  select_failed : Selected

-- The arguments of select: `sets` and `m_max_fd`
pub record FdSets : Type 0 where
  pub sets : List FdAndMode
  pub max_fd : ℕ

-- FD_ISSET
unfoldable pub is_set : FdAndMode → List FdAndMode → Bool
is_set key [] = false
is_set key (k ∷ ks) = if k == key then true else is_set key ks

module _ {Handler : Type 0} where
  -- Reactor::Reactor
  unfoldable pub make_reactor : Reactor Handler
  make_reactor = record { map = []; fd_handlers_to_invoke = []; stop_flag = true }

  -- Reactor::Add
  unfoldable pub add : ℕ → Mode → Handler → Reactor Handler → Reactor Handler
  add fd mode handler r = record r { map = insert (fd, mode) handler r.map }

  unfoldable pub removed : FdAndMode → Reactor Handler → Option Handler → Outcome (Reactor Handler)
  removed key r none = fault logic_error
  removed key r (some h) = ok (record r { map = erase key r.map })

  -- Reactor::Remove throws where `erase` finds nothing.
  unfoldable pub remove : ℕ → Mode → Reactor Handler → Outcome (Reactor Handler)
  unfolding removed
  remove fd mode r = removed (fd, mode) r (lookup (fd, mode) r.map)

  -- Reactor::Stop
  unfoldable pub stop : Reactor Handler → Reactor Handler
  stop r = record r { stop_flag = true }

  -- The loop of SelectListener::SetArgs, and SetArgs
  unfoldable pub set_args_from : FdSets → List (FdAndMode × Handler) → FdSets
  set_args_from sets [] = sets
  set_args_from sets ((key, h) ∷ map) =
      set_args_from (record { sets = key ∷ sets.sets; max_fd = max sets.max_fd key.0 }) map

  unfoldable pub set_args : List (FdAndMode × Handler) → FdSets
  unfolding set_args_from
  set_args map =
      let sets = set_args_from (record { sets = []; max_fd = 0 }) map in
      record sets { max_fd = sets.max_fd + 1 }

  -- SelectListener::CreateList
  unfoldable pub create_list :
      ℕ → List (FdAndMode × Handler) → List FdAndMode → List FdAndMode → List FdAndMode
  unfolding is_set
  create_list zero map set to_invoke = to_invoke
  create_list (suc ready_fd) [] set to_invoke = to_invoke
  create_list (suc ready_fd) ((key, h) ∷ map) set to_invoke =
      let hit = create_list ready_fd map set (key ∷ to_invoke) in
      let miss = create_list (suc ready_fd) map set to_invoke in
      if is_set key set then hit else miss

  -- SelectListener::Do on the answer of select
  unfoldable pub listen : Selected → Reactor Handler → Outcome (Reactor Handler)
  unfolding create_list
  listen select_failed r = fault select_fail
  listen (ready ready_fd set) r =
      ok (record r {
        fd_handlers_to_invoke = create_list ready_fd r.map set r.fd_handlers_to_invoke;
      })

  -- What a handler does to the reactor and to the world `W` of the program.
  module _ {W : Type 0} (call : Handler → Reactor Handler × W → Outcome (Reactor Handler × W)) where
    unfoldable pub call_found : Option Handler → Reactor Handler × W → Outcome (Reactor Handler × W)
    call_found none s = ok s
    call_found (some h) s = call h s

    -- The loop of InvokeHandlers, over the list. The flag is looked at before each handler.
    unfoldable pub invoke_loop :
        List FdAndMode → Reactor Handler × W → Outcome (Reactor Handler × W)
    unfolding call_found
    invoke_loop [] s = ok s
    invoke_loop (key ∷ keys) s =
        if s.0.stop_flag
        then ok s
        else and_then (call_found (lookup key s.0.map) s) (λ s'. invoke_loop keys s')

    unfoldable pub clear_list : Outcome (Reactor Handler × W) → Outcome (Reactor Handler × W)
    clear_list (ok (r, w)) = ok (record r { fd_handlers_to_invoke = [] }, w)
    clear_list (fault e) = fault e
    clear_list blocked = blocked

    -- Reactor::InvokeHandlers
    unfoldable pub invoke_handlers : Reactor Handler × W → Outcome (Reactor Handler × W)
    unfolding invoke_loop clear_list
    invoke_handlers s = clear_list (invoke_loop s.0.fd_handlers_to_invoke s)

    unfoldable pub after_listen : W → Outcome (Reactor Handler) → Outcome (Reactor Handler × W)
    after_listen w (ok r) = invoke_handlers (r, w)
    after_listen w (fault e) = fault e
    after_listen w blocked = blocked

    -- The loop of Run, over the answers of select: `blocked` is a call that has not returned.
    unfoldable pub run_loop : List Selected → Reactor Handler × W → Outcome (Reactor Handler × W)
    unfolding invoke_handlers listen after_listen
    run_loop [] (r, w) = if r.stop_flag then ok (r, w) else blocked
    run_loop (answer ∷ answers) (r, w) =
        if r.stop_flag
        then ok (r, w)
        else and_then (after_listen w (listen answer r)) (λ s. run_loop answers s)

    -- Reactor::Run
    unfoldable pub run : List Selected → Reactor Handler × W → Outcome (Reactor Handler × W)
    unfolding run_loop
    run answers (r, w) = run_loop answers (record r { stop_flag = false }, w)
