-- ===== src/Dispatcher/Linked.antt =====
-- Callbacks that subscribe once are never called when they are dead.
use mathlib.Core.List.{append_assoc, append-nil}
use distributed_disk.Common.{
  ℕ, ◌≡◌, ◌≢◌, refl, ap, sym, ◌∙◌, Bool, true, false, Option, some, List, [], ◌∷◌, ◌++◌, arith, map,
  nat_eq, nat_eqb, nat_eqb_iff, if◌then◌else◌, All, Bool-cases, inl, inr,
}
use distributed_disk.Common.Exec.{ok}
use distributed_disk.Common.Dict.{lookup}
use distributed_disk.Dispatcher.{Objects, remove, notify, notify_all, broadcast}

-- A callback is alive and points at the dispatcher.
abbrev pub PointsAt : List (ℕ × Option ℕ) → ℕ → ℕ → Type 0
PointsAt callbacks d c = lookup c callbacks ≡ some (some d)

pub All-map : {P Q : ℕ → Type 0} (cs : List ℕ) → ((c : ℕ) → P c → Q c) → All P cs → All Q cs
All-map [] f all = tt
All-map (c ∷ cs) f (p, all) = (f c p, All-map cs f all)

pub All-remove :
    (P : ℕ → Type 0) (c : ℕ) (cs : List ℕ) → All P cs → All (λ b. P b × (b ≢ c)) (remove c cs)
unfolding remove
All-remove P c [] all = tt
All-remove P c (b ∷ cs) (p, all) = elim (Bool-cases (nat_eqb b c)) [
  | inl same ↦ rw same (All-remove P c cs all)
  | inr other ↦ rw other ((p, λ e. ground (arith, nat_eqb_iff b c)), All-remove P c cs all)
]

unfoldable pub member : ℕ → List ℕ → Bool
member c [] = false
member c (b ∷ bs) = if nat_eqb b c then true else member c bs

pub member-remove : (b c : ℕ) (cs : List ℕ) → b ≢ c → member b (remove c cs) ≡ member b cs
unfolding member remove
member-remove b c [] other = refl
member-remove b c (a ∷ cs) other =
    ground (arith, nat_eqb_iff a c, nat_eqb_iff a b, member-remove b c cs other)

pub All-member : (P : ℕ → Type 0) (b : ℕ) (cs : List ℕ) → All P cs → member b cs ≡ true → P b
unfolding member
All-member P b [] all h = absurd cc
All-member P b (c ∷ cs) (p, all) h = elim (Bool-cases (nat_eqb c b)) [
  | inl same ↦ rw (← (nat_eqb_iff c b).0 same) p
  | inr other ↦ All-member P b cs all (ground arith)
]

module _ {Event : Type 0} where
  -- Every subscriber is alive and points at its dispatcher, and every callback that points at a
  -- dispatcher is one of its subscribers.
  pub record IsLinked (w : Objects Event) : Type 0 where
    pub subscribed :
        (d : ℕ) (cs : List ℕ) → lookup d w.dispatchers ≡ some cs → All (PointsAt w.callbacks d) cs
    pub alive_still :
        (d c : ℕ)
        → PointsAt w.callbacks d c
        → (cs : List ℕ) × (lookup d w.dispatchers ≡ some cs) × (member c cs ≡ true)

  notify_all_total :
      (cs : List ℕ) (d : ℕ) (event : Event) (w : Objects Event)
      → All (PointsAt w.callbacks d) cs
      → notify_all cs event w ≡ ok (record w { notified = w.notified ++ map (λ c. (c, event)) cs })
  unfolding notify_all notify
  notify_all_total [] d event w all =
      ap (λ n. ok (record w { notified = n })) (sym (append-nil w.notified))
  notify_all_total (c ∷ cs) d event w (p, all) = rw p (
      notify_all_total cs d event (record w { notified = w.notified ++ (c, event) ∷ [] }) all
      ∙ ap (λ n. ok (record w { notified = n }))
          (append_assoc w.notified ((c, event) ∷ []) (map (λ b. (b, event)) cs)))

  module _ (w : Objects Event) (v : IsLinked w) where
    -- Broadcast notifies every subscriber once, the latest first, and nobody else.
    pub broadcast_total :
        (d : ℕ) (cs : List ℕ) (event : Event)
        → lookup d w.dispatchers ≡ some cs
        → broadcast d event w ≡ ok (record w { notified = w.notified ++ map (λ c. (c, event)) cs })
    unfolding broadcast
    broadcast_total d cs event e = rw e (notify_all_total cs d event w (v.subscribed d cs e))
