-- ===== src/Framework/Turns.antt =====
-- One turn of the reactor's loop, from a ready descriptor to a task, and the task's command.
use distributed_disk.Common.{
  ℕ, ◌≡◌, ◌≢◌, refl, ap, sym, ◌∙◌, false, none, some, List, [], ◌∷◌, ◌++◌, arith, length, nat_eq,
  string_eq, if_false,
}
use distributed_disk.Common.Exec.{Outcome, ok, and_then}
use distributed_disk.Common.Dict.{lookup}
use distributed_disk.CmdData.{CmdData}
use distributed_disk.Reactor.{
  FdAndMode, key_eq, Reactor, Selected, ready, create_list, listen, invoke_loop, invoke_handlers,
  run_loop,
}
use distributed_disk.Reactor
use distributed_disk.Reactor.Select.{hits, create_list_complete}
use distributed_disk.Mediator.{Mediator, reactor_handler}
use distributed_disk.Mediator.Registered.{IsMediator, reactor_handler_serves}

module _ {Proxy Args Env : Type 0}
    (parse_data : Proxy → ℕ → Env → Outcome (CmdData Args × Env)) where
  -- The mediator's invariant does not look at the list of the handlers to invoke.
  listed-IsMediator :
      (r : Reactor ℕ) (m : Mediator Proxy Args Env) (keys : List FdAndMode)
      → IsMediator (r, m)
      → IsMediator (record r { fd_handlers_to_invoke = keys }, m)
  listed-IsMediator r m keys v = record { own = v.own; served = v.served; handled = v.handled }

  -- The handler of a registered descriptor is its own.
  handler_of :
      (fd : ℕ) (r : Reactor ℕ) (m : Mediator Proxy Args Env)
      → IsMediator (r, m)
      → lookup (fd, Reactor.Mode.read) r.map ≢ none
      → lookup (fd, Reactor.Mode.read) r.map ≡ some fd
  handler_of fd r m v there = let (p, e) = v.served fd there in v.handled fd (λ gone. ground arith)

  -- Calling the handlers of a list that holds one registered descriptor.
  invoke_one :
      (fd : ℕ) (r : Reactor ℕ) (m m' : Mediator Proxy Args Env)
      → r.stop_flag ≡ false
      → r.fd_handlers_to_invoke ≡ (fd, Reactor.Mode.read) ∷ []
      → lookup (fd, Reactor.Mode.read) r.map ≡ some fd
      → reactor_handler parse_data fd (r, m) ≡ ok (r, m')
      → invoke_handlers (reactor_handler parse_data) (r, m)
        ≡ ok (record r { fd_handlers_to_invoke = [] }, m')
  unfolding invoke_handlers invoke_loop Reactor.call_found Reactor.clear_list
  invoke_one fd r m m' running listed own handled =
      let call = reactor_handler parse_data in
      ap (λ keys. Reactor.clear_list call (invoke_loop call keys (r, m))) listed
      ∙ ap (Reactor.clear_list call) (
          if_false r.stop_flag _ _ running
          ∙ ap (λ h. and_then (Reactor.call_found call h (r, m)) (λ s. ok s)) own
          ∙ ap (λ o. and_then o (λ s. ok s)) handled)

  -- A turn of the reactor's loop in which select reports one registered descriptor, whose proxy
  -- parses a command: the command is added behind the tasks of the pool, and the loop goes on with
  -- the handlers and proxies as they were.
  pub turn_serves :
      (fd : ℕ) (set : List FdAndMode) (answers : List Selected) (r : Reactor ℕ)
      (m : Mediator Proxy Args Env) (p : Proxy) (data_ : CmdData Args) (env : Env)
      → IsMediator (r, m)
      → r.stop_flag ≡ false
      → r.fd_handlers_to_invoke ≡ []
      → hits set r.map ≡ (fd, Reactor.Mode.read) ∷ []
      → lookup (fd, Reactor.Mode.read) r.map ≢ none
      → lookup fd m.proxy_map ≡ some (some p)
      → parse_data p fd m.env ≡ ok (data_, env)
      → run_loop (reactor_handler parse_data) (ready 1 set ∷ answers) (r, m)
        ≡ run_loop
            (reactor_handler parse_data)
            answers
            (r, record m { tasks = m.tasks ++ data_ ∷ []; env = env })
  unfolding run_loop listen Reactor.after_listen
  turn_serves fd set answers r m p data_ env v running empty one there proxy parsed =
      let listed : create_list 1 r.map set r.fd_handlers_to_invoke ≡ (fd, Reactor.Mode.read) ∷ [] =
        create_list_complete 1 r.map set r.fd_handlers_to_invoke (omega (arith, ap length one))
        ∙ rw (one, empty) in
      let r' : Reactor ℕ = record r { fd_handlers_to_invoke = (fd, Reactor.Mode.read) ∷ [] } in
      let (p', e, serves, throws) =
        reactor_handler_serves parse_data fd (r', m)
          (listed-IsMediator r m ((fd, Reactor.Mode.read) ∷ []) v) there in
      let same : p' ≡ p = ground arith in
      let handled = serves data_ env (rw same parsed) in
      let m' : Mediator Proxy Args Env = record m { tasks = m.tasks ++ data_ ∷ []; env = env } in
      let call = reactor_handler parse_data in
      if_false r.stop_flag _ _ running
      ∙ ap
          (λ keys.
            and_then (invoke_handlers call (record r { fd_handlers_to_invoke = keys }, m))
              (λ s. run_loop call answers s))
          listed
      ∙ ap (λ o. and_then o (λ s. run_loop call answers s))
          (invoke_one fd r' m m' running refl (handler_of fd r m v there) handled)
      ∙ ap (λ keys. run_loop call answers (record r { fd_handlers_to_invoke = keys }, m'))
          (sym empty)
