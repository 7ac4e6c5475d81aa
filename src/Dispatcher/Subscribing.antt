-- ===== src/Dispatcher/Subscribing.antt =====
-- A callback subscribes.
use distributed_disk.Common.{
  ℕ, ◌≡◌, true, none, some, List, ◌∷◌, arith, nat_eq, nat_eqb, nat_eqb_iff, All, Bool-cases, inl,
  inr,
}
use distributed_disk.Common.Exec.{ok}
use distributed_disk.Common.Dict.{lookup, insert, lookup-insert}
use distributed_disk.Dispatcher.{Objects, set_dispatcher, subscribe}
use distributed_disk.Dispatcher.Linked.{PointsAt, All-map, member, IsLinked}

module _ {Event : Type 0} (w : Objects Event) (v : IsLinked w) (d c : ℕ) (cs : List ℕ)
    (e : lookup d w.dispatchers ≡ some cs) (free : lookup c w.callbacks ≡ some none) where
  abbrev subscribed_to : Objects Event
  subscribed_to = record w {
    dispatchers = insert d (c ∷ cs) w.dispatchers;
    callbacks = insert c (some d) w.callbacks;
  }

  still_points : (k b : ℕ) → PointsAt w.callbacks k b → PointsAt subscribed_to.callbacks k b
  still_points k b h = ground (arith, lookup-insert c b (some d) w.callbacks, nat_eqb_iff c b)

  subscribe-points :
      (k : ℕ) (ks : List ℕ)
      → lookup k subscribed_to.dispatchers ≡ some ks
      → All (PointsAt subscribed_to.callbacks k) ks
  subscribe-points k ks h = elim (Bool-cases (nat_eqb d k)) [
    | inl same ↦
        let d_k : d ≡ k = (nat_eqb_iff d k).0 same in
        let all : ks ≡ c ∷ cs = ground (arith, lookup-insert d k (c ∷ cs) w.dispatchers) in
        rw all (
          ground (arith, lookup-insert c c (some d) w.callbacks),
          All-map cs (λ b p. still_points k b (rw (← d_k) p)) (v.subscribed d cs e),
        )
    | inr other ↦
        All-map ks (still_points k)
          (v.subscribed k ks (ground (arith, lookup-insert d k (c ∷ cs) w.dispatchers)))
  ]

  subscribe-listed :
      (k b : ℕ)
      → PointsAt subscribed_to.callbacks k b
      → (ks : List ℕ) × (lookup k subscribed_to.dispatchers ≡ some ks) × (member b ks ≡ true)
  unfolding member
  subscribe-listed k b h = elim (Bool-cases (nat_eqb c b)) [
    | inl same ↦
        let d_k : d ≡ k = ground (arith, lookup-insert c b (some d) w.callbacks) in
        (c ∷ cs, rw (← d_k) (ground (arith, lookup-insert d d (c ∷ cs) w.dispatchers)), rw same)
    | inr other ↦
        let (ks, e', in_ks) =
          v.alive_still k b (ground (arith, lookup-insert c b (some d) w.callbacks)) in
        elim (Bool-cases (nat_eqb d k)) [
          | inl same ↦
              let d_k : d ≡ k = (nat_eqb_iff d k).0 same in
              let ks_cs : ks ≡ cs = ground arith in
              (
                c ∷ cs,
                ground (arith, lookup-insert d k (c ∷ cs) w.dispatchers),
                rw (other, ← ks_cs) in_ks,
              )
          | inr apart ↦ (ks, ground (arith, lookup-insert d k (c ∷ cs) w.dispatchers), in_ks)
        ]
  ]

  -- In linked objects a callback that is alive and has no dispatcher can subscribe: it is the first
  -- subscriber then, and the objects stay linked.
  pub subscribe-IsLinked :
      (w' : Objects Event) × (subscribe d c w ≡ ok w')
      × IsLinked w'
      × (lookup d w'.dispatchers ≡ some (c ∷ cs))
  unfolding subscribe set_dispatcher
  subscribe-IsLinked = (
    subscribed_to,
    rw (e, free),
    record { subscribed = subscribe-points; alive_still = subscribe-listed },
    ground (arith, lookup-insert d d (c ∷ cs) w.dispatchers),
  )
