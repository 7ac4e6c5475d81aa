-- ===== src/Mediator/Registered.antt =====
-- The reactor's handlers and the proxies belong together.
use distributed_disk.Common.{
  ℕ, ◌≡◌, ◌≢◌, none, some, [], ◌∷◌, ◌++◌, arith, nat_eq, nat_eqb, nat_eqb_iff, Bool-cases, inl, inr,
}
use distributed_disk.Common.Exec.{Outcome, Fault, ok, fault, null_pointer, logic_error}
use distributed_disk.Common.Dict.{lookup, erase, lookup-insert, lookup-erase}
use distributed_disk.CmdData.{CmdData}
use distributed_disk.Reactor.{Reactor, FdAndMode, key_eq, same_key_iff, removed}
use distributed_disk.Reactor
use distributed_disk.Mediator.{State, register_proxy, unregister_proxy, reactor_handler}

module _ {Proxy Args Env : Type 0} where
  -- Every handler is the one of its own descriptor, for reading, and every descriptor that has a
  -- handler has a proxy; and the other way round.
  pub record IsMediator (s : State Proxy Args Env) : Type 0 where
    pub own : (key : FdAndMode) (h : ℕ) → lookup key s.0.map ≡ some h → key ≡ (h, Reactor.Mode.read)
    pub served :
        (fd : ℕ)
        → lookup (fd, Reactor.Mode.read) s.0.map ≢ none
        → (p : Proxy) × (lookup fd s.1.proxy_map ≡ some (some p))
    pub handled :
        (fd : ℕ) → lookup fd s.1.proxy_map ≢ none → lookup (fd, Reactor.Mode.read) s.0.map ≡ some fd

  module _ (fd : ℕ) (s : State Proxy Args Env) (v : IsMediator s) where
    register_proxy-own :
        (proxy : Proxy) (key : FdAndMode) (h : ℕ)
        → lookup key (register_proxy fd (some proxy) s).0.map ≡ some h
        → key ≡ (h, Reactor.Mode.read)
    unfolding register_proxy Reactor.add
    register_proxy-own proxy key h e = ground (
      arith,
      lookup-insert (fd, Reactor.Mode.read) key fd s.0.map,
      same_key_iff (fd, Reactor.Mode.read) key,
      v.own key h,
    )

    register_proxy-served :
        (proxy : Proxy) (j : ℕ)
        → lookup (j, Reactor.Mode.read) (register_proxy fd (some proxy) s).0.map ≢ none
        → (p : Proxy) × (lookup j (register_proxy fd (some proxy) s).1.proxy_map ≡ some (some p))
    unfolding register_proxy Reactor.add
    register_proxy-served proxy j h = elim (Bool-cases (nat_eqb fd j)) [
      | inl same ↦ (proxy, ground (arith, lookup-insert fd j (some proxy) s.1.proxy_map))
      | inr other ↦
          let (p, e) = v.served j (λ gone. h (
            ground
              (arith, lookup-insert (fd, Reactor.Mode.read) (j, Reactor.Mode.read) fd s.0.map))) in
          (p, ground (arith, lookup-insert fd j (some proxy) s.1.proxy_map))
    ]

    register_proxy-handled :
        (proxy : Proxy) (j : ℕ)
        → lookup j (register_proxy fd (some proxy) s).1.proxy_map ≢ none
        → lookup (j, Reactor.Mode.read) (register_proxy fd (some proxy) s).0.map ≡ some j
    unfolding register_proxy Reactor.add
    register_proxy-handled proxy j h = ground (
      arith,
      lookup-insert fd j (some proxy) s.1.proxy_map,
      nat_eqb_iff fd j,
      lookup-insert (fd, Reactor.Mode.read) (j, Reactor.Mode.read) fd s.0.map,
      v.handled j,
    )

    -- Registering a proxy keeps handlers and proxies together.
    pub register_proxy-IsMediator : (proxy : Proxy) → IsMediator (register_proxy fd (some proxy) s)
    register_proxy-IsMediator proxy = record {
      own = register_proxy-own proxy;
      served = register_proxy-served proxy;
      handled = register_proxy-handled proxy;
    }

    unregister_proxy-own :
        (key : FdAndMode) (h : ℕ)
        → lookup key (erase (fd, Reactor.Mode.read) s.0.map) ≡ some h
        → key ≡ (h, Reactor.Mode.read)
    unregister_proxy-own key h e =
        ground (arith, lookup-erase (fd, Reactor.Mode.read) key s.0.map, v.own key h)

    unregister_proxy-served :
        (j : ℕ)
        → lookup (j, Reactor.Mode.read) (erase (fd, Reactor.Mode.read) s.0.map) ≢ none
        → (p : Proxy) × (lookup j (erase fd s.1.proxy_map) ≡ some (some p))
    unregister_proxy-served j h =
        let there : lookup (j, Reactor.Mode.read) s.0.map ≢ none = λ gone.
          h (ground (arith, lookup-erase (fd, Reactor.Mode.read) (j, Reactor.Mode.read) s.0.map)) in
        let (p, e) = v.served j there in
        (
          p,
          ground (
            arith,
            lookup-erase fd j s.1.proxy_map,
            lookup-erase (fd, Reactor.Mode.read) (j, Reactor.Mode.read) s.0.map,
          ),
        )

    unregister_proxy-handled :
        (j : ℕ)
        → lookup j (erase fd s.1.proxy_map) ≢ none
        → lookup (j, Reactor.Mode.read) (erase (fd, Reactor.Mode.read) s.0.map) ≡ some j
    unregister_proxy-handled j h = ground (
      arith,
      lookup-erase fd j s.1.proxy_map,
      nat_eqb_iff fd j,
      lookup-erase (fd, Reactor.Mode.read) (j, Reactor.Mode.read) s.0.map,
      v.handled j,
    )

    -- Unregistering a registered descriptor succeeds, leaves neither handler nor proxy for it, and
    -- keeps the other ones together.
    pub unregister_proxy-IsMediator :
        lookup (fd, Reactor.Mode.read) s.0.map ≢ none
        → (s' : State Proxy Args Env) × (unregister_proxy fd s ≡ ok s')
          × IsMediator s'
          × (lookup fd s'.1.proxy_map ≡ none)
          × (lookup (fd, Reactor.Mode.read) s'.0.map ≡ none)
    unfolding unregister_proxy Reactor.remove
    unregister_proxy-IsMediator registered = (
      (
        record s.0 { map = erase (fd, Reactor.Mode.read) s.0.map },
        record s.1 { proxy_map = erase fd s.1.proxy_map },
      ),
      ground (arith, registered),
      record {
        own = unregister_proxy-own;
        served = unregister_proxy-served;
        handled = unregister_proxy-handled;
      },
      ground (arith, lookup-erase fd fd s.1.proxy_map, nat_eqb_iff fd fd),
      ground (
        arith,
        lookup-erase (fd, Reactor.Mode.read) (fd, Reactor.Mode.read) s.0.map,
        same_key_iff (fd, Reactor.Mode.read) (fd, Reactor.Mode.read),
      ),
    )

  -- Unregistering an unknown descriptor throws.
  pub unregister_proxy_unknown :
      (fd : ℕ) (s : State Proxy Args Env)
      → lookup (fd, Reactor.Mode.read) s.0.map ≡ none
      → unregister_proxy fd s ≡ fault logic_error
  unfolding unregister_proxy Reactor.remove
  unregister_proxy_unknown fd s e = ground arith

  module _ (parse_data : Proxy → ℕ → Env → Outcome (CmdData Args × Env)) where
    -- For a descriptor that has a handler, ReactorHandler finds its proxy; it adds the command
    -- parsed as one task behind the others and changes nothing else, or passes on the exception.
    pub reactor_handler_serves :
        (fd : ℕ) (s : State Proxy Args Env)
        → IsMediator s
        → lookup (fd, Reactor.Mode.read) s.0.map ≢ none
        → (p : Proxy) × (lookup fd s.1.proxy_map ≡ some (some p))
          × ((data_ : CmdData Args) (env : Env)
              → parse_data p fd s.1.env ≡ ok (data_, env)
              → reactor_handler parse_data fd s
                ≡ ok (s.0, record s.1 { tasks = s.1.tasks ++ data_ ∷ []; env = env }))
          × ((e : Fault)
              → parse_data p fd s.1.env ≡ fault e
              → reactor_handler parse_data fd s ≡ fault e)
    unfolding reactor_handler
    reactor_handler_serves fd s v registered =
        let (p, found) = v.served fd registered in (p, found, served_by p found, thrown_by p found)
      where
        served_by :
            (p : Proxy)
            → lookup fd s.1.proxy_map ≡ some (some p)
            → (data_ : CmdData Args) (env : Env) → parse_data p fd s.1.env ≡ ok (data_, env)
            → reactor_handler parse_data fd s
              ≡ ok (s.0, record s.1 { tasks = s.1.tasks ++ data_ ∷ []; env = env })
        served_by p found data_ env parsed = rw (found, parsed)

        thrown_by :
            (p : Proxy)
            → lookup fd s.1.proxy_map ≡ some (some p)
            → (e : Fault) → parse_data p fd s.1.env ≡ fault e
            → reactor_handler parse_data fd s ≡ fault e
        thrown_by p found e thrown = rw (found, thrown)

    -- For a descriptor that was never registered ReactorHandler goes through a null pointer.
    pub reactor_handler_unknown :
        (fd : ℕ) (s : State Proxy Args Env)
        → lookup fd s.1.proxy_map ≡ none
        → reactor_handler parse_data fd s ≡ fault null_pointer
    unfolding reactor_handler
    reactor_handler_unknown fd s e = rw e
