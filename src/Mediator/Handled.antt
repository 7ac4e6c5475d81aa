-- ===== src/Mediator/Handled.antt =====
-- What a call of ReactorHandler that returns has done.
use distributed_disk.Common.{
  arith, ℕ, ◌≡◌, refl, none, some, Option-cases, [], ◌∷◌, ◌++◌, nat_eq, inl, inr,
}
use distributed_disk.Common.Exec.{Outcome, ok, fault, blocked}
use distributed_disk.Common.Dict.{lookup}
use distributed_disk.CmdData.{CmdData}
use distributed_disk.Mediator.{State, reactor_handler}

module _ {Proxy Args Env : Type 0}
    (parse_data : Proxy → ℕ → Env → Outcome (CmdData Args × Env)) where
  parsed :
      (fd : ℕ) (s t : State Proxy Args Env) (p : Proxy) (o : Outcome (CmdData Args × Env))
      → lookup fd s.1.proxy_map ≡ some (some p)
      → parse_data p fd s.1.env ≡ o
      → reactor_handler parse_data fd s ≡ ok t
      → (data_ : CmdData Args) × (env : Env) × (o ≡ ok (data_, env))
        × (t ≡ (s.0, record s.1 { tasks = s.1.tasks ++ data_ ∷ []; env = env }))
  unfolding reactor_handler
  parsed fd s t p (ok (data_, env)) e k h = (data_, env, refl, ground (arith, rw (e, k) at h))
  parsed fd s t p (fault f) e k h = absurd (ground (arith, rw (e, k) at h))
  parsed fd s t p blocked e k h = absurd (ground (arith, rw (e, k) at h))

  -- It has parsed one command with the proxy of the descriptor, and added its task.
  pub reactor_handler-ok :
      (fd : ℕ) (s t : State Proxy Args Env)
      → reactor_handler parse_data fd s ≡ ok t
      → (p : Proxy) × (data_ : CmdData Args) × (env : Env) × (parse_data p fd s.1.env
          ≡ ok (data_, env))
        × (t ≡ (s.0, record s.1 { tasks = s.1.tasks ++ data_ ∷ []; env = env }))
  unfolding reactor_handler
  reactor_handler-ok fd s t h = elim (Option-cases (lookup fd s.1.proxy_map)) [
    | inl e ↦ absurd (ground (arith, rw e at h))
    | inr (none, e) ↦ absurd (ground (arith, rw e at h))
    | inr (some p, e) ↦
        let (data_, env, k, same) = parsed fd s t p (parse_data p fd s.1.env) e refl h in
        (p, data_, env, k, same)
  ]
