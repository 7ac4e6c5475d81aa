-- ===== src/Reactor/Select.antt =====
-- What select is asked, and the list that its answer becomes.
use Prim.Native.Nat.{max}
use mathlib.Core.List.{reverse, reverse-cons, append_assoc}
use distributed_disk.Common.{
  ℕ, zero, suc, ◌≤◌, ◌<◌, ◌≡◌, ◌≢◌, ◌↔◌, refl, ap, sym, ◌∙◌, Bool, true, false, Option, none, some,
  List, [], ◌∷◌, ◌++◌, arith, length, take, take-length, if◌then◌else◌, Bool-cases, inl, inr,
}
use distributed_disk.Common.Dict.{lookup}
use distributed_disk.Reactor.{
  FdAndMode, key_eq, same_key_iff, FdSets, is_set, set_args_from, set_args, create_list,
}

abbrev has {ℓ} : {A : Type ℓ} → Option A → Bool
has none = false
has (some a) = true

has-ne {ℓ} : {A : Type ℓ} (o : Option A) → o ≢ none → has o ≡ true
has-ne none h = absurd (h refl)
has-ne (some a) h = refl

module _ {Handler : Type 0} where
  is_set-set_args_from :
      (sets : FdSets) (map : List (FdAndMode × Handler)) (key : FdAndMode)
      → is_set key (set_args_from sets map).sets
        ≡ (if has (lookup key map) then true else is_set key sets.sets)
  unfolding is_set set_args_from lookup
  is_set-set_args_from sets [] key = refl
  is_set-set_args_from sets ((k, h) ∷ map) key = ground (
    arith,
    is_set-set_args_from (record { sets = k ∷ sets.sets; max_fd = max sets.max_fd k.0 }) map key,
  )

  max_fd-set_args_from :
      (sets : FdSets) (map : List (FdAndMode × Handler))
      → sets.max_fd ≤ (set_args_from sets map).max_fd
  unfolding set_args_from
  max_fd-set_args_from sets [] = omega arith
  max_fd-set_args_from sets ((k, h) ∷ map) = omega (
    arith,
    max_fd-set_args_from (record { sets = k ∷ sets.sets; max_fd = max sets.max_fd k.0 }) map,
  )

  fd-set_args_from :
      (sets : FdSets) (map : List (FdAndMode × Handler)) (key : FdAndMode)
      → has (lookup key map) ≡ true
      → key.0 ≤ (set_args_from sets map).max_fd
  unfolding set_args_from lookup
  fd-set_args_from sets [] key h = cc
  fd-set_args_from sets ((k, f) ∷ map) key h =
      let sets' : FdSets = record { sets = k ∷ sets.sets; max_fd = max sets.max_fd k.0 } in
      ground
        (arith, max_fd-set_args_from sets' map, fd-set_args_from sets' map key, same_key_iff k key)

  -- The sets that select is given hold exactly the registered descriptors, each under its mode, and
  -- every one of them lies below the bound that select is given.
  pub set_args_lem :
      (map : List (FdAndMode × Handler)) (key : FdAndMode)
      → ((is_set key (set_args map).sets ≡ true) ↔ (lookup key map ≢ none))
        × (lookup key map ≢ none → key.0 < (set_args map).max_fd)
  unfolding set_args is_set
  set_args_lem map key =
      let start : FdSets = record { sets = []; max_fd = 0 } in
      let bits = is_set-set_args_from start map key in
      (
        ((λ h e. cc (bits, ap has e)), (λ h. bits ∙ rw (has-ne (lookup key map) h))),
        λ h. ground (arith, fd-set_args_from start map key, has-ne (lookup key map) h),
      )

  -- The registered keys whose bits are set, in the order of the map.
  unfoldable pub hits : List FdAndMode → List (FdAndMode × Handler) → List FdAndMode
  hits set [] = []
  hits set ((key, h) ∷ map) = let rest = hits set map in if is_set key set then key ∷ rest else rest

  create_list_from :
      (n : ℕ) (map : List (FdAndMode × Handler)) (set to_invoke : List FdAndMode)
      → create_list n map set to_invoke ≡ reverse (take n (hits set map)) ++ to_invoke
  unfolding create_list hits take
  create_list_from zero map set to_invoke = refl
  create_list_from (suc n) [] set to_invoke = refl
  create_list_from (suc n) ((key, h) ∷ map) set to_invoke = elim (Bool-cases (is_set key set)) [
    | inl hit ↦
        rw
          (
            hit,
            create_list_from n map set (key ∷ to_invoke),
            reverse-cons key (take n (hits set map)),
          )
          (sym (append_assoc (reverse (take n (hits set map))) (key ∷ []) to_invoke))
    | inr miss ↦ rw miss (create_list_from (suc n) map set to_invoke)
  ]

  -- Where select reports as many bits as are set for registered keys, every such key is invoked
  -- once, the last of the map first, ahead of what was on the list; and no other key is added.
  pub create_list_complete :
      (n : ℕ) (map : List (FdAndMode × Handler)) (set to_invoke : List FdAndMode)
      → length (hits set map) ≤ n
      → create_list n map set to_invoke ≡ reverse (hits set map) ++ to_invoke
  create_list_complete n map set to_invoke enough =
      create_list_from n map set to_invoke
      ∙ ap (λ ks. reverse ks ++ to_invoke) (take-length n (hits set map) enough)
