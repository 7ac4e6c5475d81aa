-- ===== src/Dispatcher/Twice.antt =====
-- A callback with two dispatchers.
use distributed_disk.Common.{
  ℕ, ◌≡◌, ◌≢◌, sym, Option, none, some, List, ◌∷◌, arith, nat_eq, nat_eqb-ne,
}
use distributed_disk.Common.Exec.{ok, fault, dangling_pointer}
use distributed_disk.Common.Dict.{lookup, insert, erase, lookup-insert, lookup-erase}
use distributed_disk.Dispatcher.{
  Objects, remove, set_dispatcher, subscribe, notify, notify_all, broadcast, unsubscribe,
  callback_death, delete_callback,
}

module _ {Event : Type 0} where
  -- The results of single calls.
  subscribe_total :
      (d c : ℕ) (cs : List ℕ) (o : Option ℕ) (w : Objects Event)
      → lookup d w.dispatchers ≡ some cs
      → lookup c w.callbacks ≡ some o
      → subscribe d c w
        ≡ ok (record w {
          dispatchers = insert d (c ∷ cs) w.dispatchers;
          callbacks = insert c (some d) w.callbacks;
        })
  unfolding subscribe set_dispatcher
  subscribe_total d c cs o w e there = rw (e, there)

  delete_total :
      (d c : ℕ) (cs : List ℕ) (w : Objects Event)
      → lookup d w.dispatchers ≡ some cs
      → lookup c w.callbacks ≡ some (some d)
      → delete_callback c w
        ≡ ok (record w {
          dispatchers = insert d (remove c cs) w.dispatchers;
          callbacks = erase c w.callbacks;
        })
  unfolding delete_callback callback_death unsubscribe
  delete_total d c cs w e there = rw (there, e)

  broadcast_dead :
      (d c : ℕ) (cs : List ℕ) (event : Event) (w : Objects Event)
      → lookup d w.dispatchers ≡ some (c ∷ cs)
      → lookup c w.callbacks ≡ none
      → broadcast d event w ≡ fault dangling_pointer
  unfolding broadcast notify_all notify
  broadcast_dead d c cs event w e gone = rw (e, gone)

  -- A callback that subscribes to a second dispatcher stays on the list of the first, but points
  -- at the second only: when it has died, a broadcast of the first goes through a dead pointer.
  pub subscribe_twice :
      (w : Objects Event) (d1 d2 c : ℕ) (cs1 cs2 : List ℕ) (o : Option ℕ) (event : Event)
      → d1 ≢ d2
      → lookup d1 w.dispatchers ≡ some cs1
      → lookup d2 w.dispatchers ≡ some cs2
      → lookup c w.callbacks ≡ some o
      → (w1 w2 w3 : Objects Event) × (subscribe d1 c w ≡ ok w1)
        × (subscribe d2 c w1 ≡ ok w2)
        × (delete_callback c w2 ≡ ok w3)
        × (broadcast d1 event w3 ≡ fault dangling_pointer)
  subscribe_twice w d1 d2 c cs1 cs2 o event apart first second there =
      let w1 : Objects Event = record w {
        dispatchers = insert d1 (c ∷ cs1) w.dispatchers;
        callbacks = insert c (some d1) w.callbacks;
      } in
      let w2 : Objects Event = record w1 {
        dispatchers = insert d2 (c ∷ cs2) w1.dispatchers;
        callbacks = insert c (some d2) w1.callbacks;
      } in
      let w3 : Objects Event = record w2 {
        dispatchers = insert d2 (remove c (c ∷ cs2)) w2.dispatchers;
        callbacks = erase c w2.callbacks;
      } in
      let not_same = nat_eqb-ne d1 d2 apart in
      let not_same' = nat_eqb-ne d2 d1 (λ e. apart (sym e)) in
      (
        w1,
        w2,
        w3,
        subscribe_total d1 c cs1 o w first there,
        subscribe_total d2 c cs2 (some d1) w1
            (ground (arith, lookup-insert d1 d2 (c ∷ cs1) w.dispatchers))
            (ground (arith, lookup-insert c c (some d1) w.callbacks)),
        delete_total d2 c (c ∷ cs2) w2
            (ground (arith, lookup-insert d2 d2 (c ∷ cs2) w1.dispatchers))
            (ground (arith, lookup-insert c c (some d2) w1.callbacks)),
        broadcast_dead d1 c cs1 event w3
            (ground (
              arith,
              lookup-insert d2 d1 (remove c (c ∷ cs2)) w2.dispatchers,
              lookup-insert d2 d1 (c ∷ cs2) w1.dispatchers,
              lookup-insert d1 d1 (c ∷ cs1) w.dispatchers,
            ))
            (ground (arith, lookup-erase c c w2.callbacks)),
      )
