-- ===== src/Dispatcher/Deaths.antt =====
-- What is left when a dispatcher dies.
use mathlib.Core.List.{append_assoc, append-nil}
use distributed_disk.Common.{
  ℕ, ◌≡◌, ◌≢◌, refl, ap, sym, ◌∙◌, true, none, some, List, [], ◌∷◌, ◌++◌, arith, nat_eq,
  nat_eqb_iff, if◌then◌else◌, All, Option-cases, inl, inr,
}
use distributed_disk.Common.Exec.{ok}
use distributed_disk.Common.Dict.{lookup, insert, erase, lookup-insert, lookup-erase}
use distributed_disk.Dispatcher.{Objects, set_dispatcher, tell_all, delete_dispatcher}
use distributed_disk.Dispatcher.Linked.{PointsAt, All-map, member, All-member, IsLinked}

-- Where the subscribers of a dispatcher that dies point.
module _ {Event : Type 0} where
  tell_all_total :
      (cs : List ℕ) (w : Objects Event)
      → All (λ c. lookup c w.callbacks ≢ none) cs
      → (w' : Objects Event) × (tell_all cs w ≡ ok w')
        × (w'.dispatchers ≡ w.dispatchers)
        × ((b : ℕ)
            → lookup b w'.callbacks ≡ (if member b cs then some none else lookup b w.callbacks))
        × (w'.told_of_death ≡ w.told_of_death ++ cs)
  unfolding tell_all set_dispatcher member
  tell_all_total [] w all = (w, refl, refl, (λ b. refl), sym (append-nil w.told_of_death))
  tell_all_total (c ∷ cs) w (there, all) = elim (Option-cases (lookup c w.callbacks)) [
    | inl missing ↦ absurd (there missing)
    | inr (o, found) ↦
        let next : Objects Event = record w {
          told_of_death = w.told_of_death ++ c ∷ [];
          callbacks = insert c none w.callbacks;
        } in
        let (w', run, kept, callbacks, told) = tell_all_total cs next (
          All-map cs (λ b p. λ gone. p (ground (arith, lookup-insert c b none w.callbacks))) all) in
        (
          w',
          rw found run,
          kept,
          (λ b. ground (arith, callbacks b, lookup-insert c b none w.callbacks)),
          told ∙ append_assoc w.told_of_death (c ∷ []) cs,
        )
  ]

  -- What is left when a dispatcher and its callbacks' pointers to it are gone.
  left-IsLinked :
      (w w' : Objects Event) (d : ℕ) (cs : List ℕ)
      → IsLinked w
      → lookup d w.dispatchers ≡ some cs
      → w'.dispatchers ≡ w.dispatchers
      → ((b : ℕ)
          → lookup b w'.callbacks ≡ (if member b cs then some none else lookup b w.callbacks))
      → IsLinked (record w' { dispatchers = erase d w'.dispatchers })
  left-IsLinked w w' d cs v there kept callbacks = record {
    subscribed = λ k ks h.
        let old : lookup k w.dispatchers ≡ some ks =
          ground (arith, ap (lookup k) kept, lookup-erase d k w'.dispatchers) in
        let apart : d ≢ k = λ e. ground (arith, lookup-erase d k w'.dispatchers, nat_eqb_iff d k) in
        All-map ks
          (λ b p.
            let not_mine : member b cs ≢ true = λ m.
              let mine = All-member (PointsAt w.callbacks d) b cs (v.subscribed d cs there) m in
              ground arith in
            ground (arith, callbacks b))
          (v.subscribed k ks old);
    alive_still = λ k b p.
        let (ks, e, in_ks) = v.alive_still k b (ground (arith, callbacks b)) in
        let apart : d ≢ k =
          λ d_k. let ks_cs : ks ≡ cs = ground arith in ground (arith, callbacks b) in
        (
          ks,
          ground (arith, lookup-erase d k w'.dispatchers, nat_eqb_iff d k, ap (lookup k) kept),
          in_ks,
        );
  }

  -- In linked objects a dispatcher can be deleted: every subscriber is told, in the order of the
  -- list, and has no dispatcher from then on; the objects stay linked.
  pub delete_dispatcher-IsLinked :
      (w : Objects Event)
      → IsLinked w
      → (d : ℕ) (cs : List ℕ) → lookup d w.dispatchers ≡ some cs
      → (w' : Objects Event) × (delete_dispatcher d w ≡ ok w')
        × IsLinked w'
        × (w'.told_of_death ≡ w.told_of_death ++ cs)
        × ((c : ℕ) → member c cs ≡ true → lookup c w'.callbacks ≡ some none)
  unfolding delete_dispatcher
  delete_dispatcher-IsLinked w v d cs there =
      let (w', run, kept, callbacks, told) =
        tell_all_total cs w (All-map cs (λ c p. λ gone. ground arith) (v.subscribed d cs there)) in
      (
        record w' { dispatchers = erase d w'.dispatchers },
        rw (there, run),
        left-IsLinked w w' d cs v there kept callbacks,
        told,
        λ c in_cs. ground (arith, callbacks c),
      )
