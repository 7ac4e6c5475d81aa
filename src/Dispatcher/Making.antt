-- ===== src/Dispatcher/Making.antt =====
-- A new dispatcher and a new callback.
use distributed_disk.Common.{
  ℕ, ◌≡◌, none, [], arith, nat_eq, nat_eqb, nat_eqb_iff, Bool-cases, inl, inr,
}
use distributed_disk.Common.Dict.{lookup, lookup-insert}
use distributed_disk.Dispatcher.{Objects, make_dispatcher, make_callback}
use distributed_disk.Dispatcher.Linked.{All-map, IsLinked}

module _ {Event : Type 0} (w : Objects Event) (v : IsLinked w) where
  -- A new dispatcher has no subscribers.
  pub make_dispatcher-IsLinked :
      (d : ℕ) → lookup d w.dispatchers ≡ none → IsLinked (make_dispatcher d w)
  unfolding make_dispatcher
  make_dispatcher-IsLinked d fresh = record {
    subscribed = λ k ks h. elim (Bool-cases (nat_eqb d k)) [
      | inl same ↦
          let empty : ks ≡ [] = ground (arith, lookup-insert d k [] w.dispatchers) in rw empty tt
      | inr other ↦ v.subscribed k ks (ground (arith, lookup-insert d k [] w.dispatchers))
    ];
    alive_still = λ k b p.
        let (ks, e, listed) = v.alive_still k b p in
        (ks, ground (arith, lookup-insert d k [] w.dispatchers, nat_eqb_iff d k), listed);
  }

  -- A new callback has no dispatcher.
  pub make_callback-IsLinked : (c : ℕ) → lookup c w.callbacks ≡ none → IsLinked (make_callback c w)
  unfolding make_callback
  make_callback-IsLinked c fresh = record {
    subscribed = λ k ks h.
        All-map ks (λ b p. ground (arith, lookup-insert c b none w.callbacks, nat_eqb_iff c b))
          (v.subscribed k ks h);
    alive_still = λ k b p. v.alive_still k b (ground (arith, lookup-insert c b none w.callbacks));
  }
