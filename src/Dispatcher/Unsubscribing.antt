-- ===== src/Dispatcher/Unsubscribing.antt =====
-- A callback dies.
use distributed_disk.Common.{
  ℕ, ◌≡◌, ◌≢◌, ◌∙◌, true, Option, none, some, List, arith, nat_eq, nat_eqb, nat_eqb_iff, All,
  Bool-cases, inl, inr,
}
use distributed_disk.Common.Exec.{ok}
use distributed_disk.Common.Dict.{lookup, insert, erase, lookup-insert, lookup-erase}
use distributed_disk.Dispatcher.{Objects, remove, unsubscribe, callback_death, delete_callback}
use distributed_disk.Dispatcher.Linked.{
  PointsAt, All-map, All-remove, member, member-remove, IsLinked,
}

module _ {Event : Type 0} (w : Objects Event) (v : IsLinked w) (d c : ℕ) (cs : List ℕ)
    (e : lookup c w.callbacks ≡ some (some d)) (there : lookup d w.dispatchers ≡ some cs) where
  abbrev without : Objects Event
  without = record w {
    dispatchers = insert d (remove c cs) w.dispatchers;
    callbacks = erase c w.callbacks;
  }

  kept : (k b : ℕ) → PointsAt w.callbacks k b → b ≢ c → PointsAt without.callbacks k b
  kept k b p other = ground (arith, lookup-erase c b w.callbacks, nat_eqb_iff c b)

  without-points :
      (k : ℕ) (ks : List ℕ)
      → lookup k without.dispatchers ≡ some ks
      → All (PointsAt without.callbacks k) ks
  without-points k ks h = elim (Bool-cases (nat_eqb d k)) [
    | inl same ↦
        let d_k : d ≡ k = (nat_eqb_iff d k).0 same in
        let all : ks ≡ remove c cs =
          ground (arith, lookup-insert d k (remove c cs) w.dispatchers) in
        rw all (
          All-map (remove c cs) (λ b p. kept k b (rw (← d_k) p.0) p.1)
            (All-remove (PointsAt w.callbacks d) c cs (v.subscribed d cs there)))
    | inr apart ↦
        All-map ks (λ b p. kept k b p (λ b_c. ground (arith, nat_eqb_iff d k)))
          (v.subscribed k ks (ground (arith, lookup-insert d k (remove c cs) w.dispatchers)))
  ]

  without-listed :
      (k b : ℕ)
      → PointsAt without.callbacks k b
      → (ks : List ℕ) × (lookup k without.dispatchers ≡ some ks) × (member b ks ≡ true)
  without-listed k b p =
      let other : b ≢ c = λ b_c. ground (arith, lookup-erase c b w.callbacks, nat_eqb_iff c b) in
      let (ks, e', in_ks) = v.alive_still k b (ground (arith, lookup-erase c b w.callbacks)) in
      elim (Bool-cases (nat_eqb d k)) [
        | inl same ↦
            let d_k : d ≡ k = (nat_eqb_iff d k).0 same in
            let ks_cs : ks ≡ cs = ground arith in
            (
              remove c cs,
              ground (arith, lookup-insert d k (remove c cs) w.dispatchers),
              member-remove b c cs other ∙ rw (← ks_cs) in_ks,
            )
        | inr apart ↦ (ks, ground (arith, lookup-insert d k (remove c cs) w.dispatchers), in_ks)
      ]

module _ {Event : Type 0} (w : Objects Event) (v : IsLinked w) where
  -- In linked objects a callback that is alive can be deleted: no dead pointer is followed, the
  -- objects stay linked, and if it had subscribed it is taken off its dispatcher's list.
  pub delete_callback-IsLinked :
      (c : ℕ) (o : Option ℕ)
      → lookup c w.callbacks ≡ some o
      → (w' : Objects Event) × (delete_callback c w ≡ ok w')
        × IsLinked w'
        × (lookup c w'.callbacks ≡ none)
  unfolding delete_callback callback_death unsubscribe
  delete_callback-IsLinked c none e = (
    record w { callbacks = erase c w.callbacks },
    rw e,
    record {
      subscribed = λ d cs h.
          All-map cs (λ b p. ground (arith, lookup-erase c b w.callbacks, nat_eqb_iff c b))
            (v.subscribed d cs h);
      alive_still = λ d b p. v.alive_still d b (ground (arith, lookup-erase c b w.callbacks));
    },
    ground (arith, lookup-erase c c w.callbacks),
  )
  delete_callback-IsLinked c (some d) e =
      let (cs, there, in_cs) = v.alive_still d c e in
      (
        without w v d c cs e there,
        rw (e, there),
        record {
          subscribed = without-points w v d c cs e there;
          alive_still = without-listed w v d c cs e there;
        },
        ground (arith, lookup-erase c c w.callbacks),
      )
