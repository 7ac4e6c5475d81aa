-- ===== src/Reactor/Running.antt =====
-- Invoking handlers, and the loop of Run.
use distributed_disk.Common.{
  ℕ, zero, suc, ◌≡◌, ◌≢◌, refl, ap, sym, ◌∙◌, true, false, none, some, List, [], ◌∷◌, ◌++◌, arith,
  All, if◌then◌else◌, ◌==◌, if_true, if_false, Bool-cases, inl, inr,
}
use distributed_disk.Common.Exec.{Outcome, ok, fault, blocked, logic_error, and_then, and_then-ok}
use distributed_disk.Common.Dict.{lookup, insert, erase, lookup-insert, lookup-erase, beq_refl}
use distributed_disk.Reactor.{
  FdAndMode, Mode, key_eq, Reactor, Selected, ready, select_failed, add, remove, removed,
  create_list, listen, call_found, invoke_loop, after_listen, run_loop, run, stop,
}

module _ {Handler : Type 0} where
  -- Add then Remove: the handler is found under its key until it is removed, then the key is gone
  -- and every other key has the handler that it had.
  pub remove-add :
      (fd : ℕ) (mode : Mode) (h : Handler) (r : Reactor Handler)
      → (r' : Reactor Handler) × (lookup (fd, mode) (add fd mode h r).map ≡ some h)
        × (remove fd mode (add fd mode h r) ≡ ok r')
        × ((key : FdAndMode)
            → lookup key r'.map ≡ (if (fd, mode) == key then none else lookup key r.map))
  unfolding add remove
  remove-add fd mode h r = (
    record r { map = erase (fd, mode) (insert (fd, mode) h r.map) },
    found,
    rw (found, removed),
    λ key.
        rw
          (
            lookup-erase (fd, mode) key (insert (fd, mode) h r.map),
            lookup-insert (fd, mode) key h r.map,
          )
          (ground arith),
  )
    where
      found : lookup (fd, mode) (insert (fd, mode) h r.map) ≡ some h
      found = rw (lookup-insert (fd, mode) (fd, mode) h r.map, beq_refl {K = FdAndMode} (fd, mode))

  -- Removing a key that is not registered throws.
  pub remove_missing :
      (fd : ℕ) (mode : Mode) (r : Reactor Handler)
      → lookup (fd, mode) r.map ≡ none
      → remove fd mode r ≡ fault logic_error
  unfolding remove
  remove_missing fd mode r e = rw e

  module _ {W : Type 0} (call : Handler → Reactor Handler × W → Outcome (Reactor Handler × W)) where
    -- Once a handler has stopped the reactor, the handlers behind it on the list are not called.
    pub invoke_loop_stops :
        (keys later : List FdAndMode) (s t : Reactor Handler × W)
        → invoke_loop call keys s ≡ ok t
        → t.0.stop_flag ≡ true
        → invoke_loop call (keys ++ later) s ≡ ok t
    unfolding invoke_loop
    invoke_loop_stops [] [] s t e stopped = e
    invoke_loop_stops [] (key ∷ later) s t e stopped = ground arith
    invoke_loop_stops (key ∷ keys) later s t e stopped = elim (Bool-cases s.0.stop_flag) [
      | inl off ↦ if_true s.0.stop_flag _ _ off ∙ sym (if_true s.0.stop_flag _ _ off) ∙ e
      | inr on ↦
          let (s', called, rest) =
            and_then-ok (call_found call (lookup key s.0.map) s) _
              (sym (if_false s.0.stop_flag _ _ on) ∙ e) in
          if_false s.0.stop_flag _ _ on
          ∙ ap (λ o. and_then o (invoke_loop call (keys ++ later))) called
          ∙ invoke_loop_stops keys later s' t rest stopped
    ]

    -- Run returns only stopped.
    pub run_loop_stopped :
        (answers : List Selected) (s t : Reactor Handler × W)
        → run_loop call answers s ≡ ok t
        → t.0.stop_flag ≡ true
    unfolding run_loop
    run_loop_stopped [] s t e = ground arith
    run_loop_stopped (answer ∷ answers) s t e = elim (Bool-cases s.0.stop_flag) [
      | inl off ↦ ground arith
      | inr on ↦
          let (s', listened, rest) =
            and_then-ok (after_listen call s.1 (listen answer s.0)) _
              (sym (if_false s.0.stop_flag _ _ on) ∙ e) in
          run_loop_stopped answers s' t rest
    ]

    nothing_ready :
        (n : ℕ) (set acc : List FdAndMode) → create_list {Handler = Handler} n [] set acc ≡ acc
    unfolding create_list
    nothing_ready zero set acc = refl
    nothing_ready (suc n) set acc = refl

    idle :
        (answers : List Selected) (w : W)
        → All (λ (a : Selected). a ≢ select_failed) answers
        → run_loop call answers
            (record { map = []; fd_handlers_to_invoke = []; stop_flag = false }, w)
          ≡ blocked
    unfolding run_loop
    idle [] w fine = refl
    idle (select_failed ∷ answers) w fine = absurd (fine.0 refl)
    idle (ready n set ∷ answers) w fine =
        rw (nothing_ready n set []) (unfold invoke_loop in idle answers w fine.1)

    -- With no descriptor registered and no error of select, Run goes on waiting, whatever select
    -- answers: it does not return when there is nothing to wait for, and a call of Stop before it
    -- begins is lost.
    pub run_idle :
        (answers : List Selected) (r : Reactor Handler) (w : W)
        → All (λ (a : Selected). a ≢ select_failed) answers
        → r.map ≡ []
        → r.fd_handlers_to_invoke ≡ []
        → (run call answers (r, w) ≡ blocked) × (run call answers (stop r, w) ≡ blocked)
    unfolding run stop
    run_idle answers r w fine empty none_listed = (goes_on, goes_on)
      where
        goes_on : run call answers (r, w) ≡ blocked
        goes_on =
            (λ i. run_loop call answers (
              record { map = empty i; fd_handlers_to_invoke = none_listed i; stop_flag = false },
              w,
            ))
            ∙ idle answers w fine
