-- ===== src/Singleton/Once.antt =====
-- The objects that the calls of GetInstance make, and their end.
use mathlib.Core.Path.{subst}
use distributed_disk.Common.{
  [], is_in, close, ℕ, suc, ◌≤◌, ◌≡◌, ◌≢◌, refl, ap, Option, none, some, arith, nat_eqb,
  nat_eqb_iff, Bool-cases, inl, inr,
}
use distributed_disk.Common.Exec.{ok}
use distributed_disk.Singleton.{
  run_exit_funcs, exit_func, made_objects, Place, first_test, want_lock, second_test, creating,
  storing, registering, leaving, returned, Shared, start, at, Step, see_null, see_instance, lock,
  see_null_again, see_instance_again, create, store, register_exit, leave, Steps, done, step,
}

-- What holds of a thread at a place.
abbrev pub Fits : ℕ → Shared → Place → Type 0
Fits t s first_test = Unit {0}
Fits t s want_lock = Unit {0}
Fits t s second_test =
    (s.mutex ≡ some t)
    × (s.instance_ ≡ none → s.created ≡ 0)
    × (s.instance_ ≢ none → s.exit_funcs ≡ 1)
Fits t s creating = (s.mutex ≡ some t) × (s.instance_ ≡ none) × (s.created ≡ 0)
Fits t s (storing tmp) = (s.mutex ≡ some t) × (s.instance_ ≡ none) × (s.created ≡ 1) × (tmp ≡ 1)
Fits t s registering = (s.mutex ≡ some t) × (s.instance_ ≡ some 1) × (s.exit_funcs ≡ 0)
Fits t s leaving = s.instance_ ≡ some 1
Fits t s (returned p) = (s.instance_ ≡ some 1) × (p ≡ some 1)

pub record IsSingleton (s : Shared) : Type 0 where
  pub fits : (t : ℕ) → Fits t s (s.places t)
  -- an object that is there is the only one
  pub one : s.instance_ ≢ none → (s.instance_ ≡ some 1) × (s.created ≡ 1)
  -- with the lock free and no object, none was made
  pub free : s.mutex ≡ none → s.instance_ ≡ none → s.created ≡ 0
  -- atexit is called once, before the lock is free
  pub exits :
      (s.instance_ ≡ none → s.exit_funcs ≡ 0)
      × (s.exit_funcs ≤ 1)
      × (s.mutex ≡ none → s.instance_ ≢ none → s.exit_funcs ≡ 1)

-- The place of one thread changes; the shared members stay.
moved-Fits :
    (s s' : Shared) (t : ℕ) (place : Place)
    → ((u : ℕ) → Fits u s (s.places u))
    → ((u : ℕ) (p : Place) → u ≢ t → Fits u s p → Fits u s' p)
    → Fits t s' place
    → s'.places ≡ at t place s.places
    → (u : ℕ) → Fits u s' (s'.places u)
moved-Fits s s' t place fits others own e u = rw e (elim (Bool-cases (nat_eqb t u)) [
  | inl same ↦ rw same (rw (← (nat_eqb_iff t u).0 same) own)
  | inr other ↦ rw other (others u (s.places u) (λ u_t. ground (arith, nat_eqb_iff t u)) (fits u))
])

-- Nobody else is in the critical section.
others_out :
    (s s' : Shared) (t u : ℕ) (p : Place)
    → s.mutex ≡ some t
    → u ≢ t
    → (s.instance_ ≡ some 1 → s'.instance_ ≡ some 1)
    → Fits u s p
    → Fits u s' p
others_out s s' t u first_test m apart same f = tt
others_out s s' t u want_lock m apart same f = tt
others_out s s' t u second_test m apart same f = absurd (ground arith)
others_out s s' t u creating m apart same f = absurd (ground arith)
others_out s s' t u (storing tmp) m apart same f = absurd (ground arith)
others_out s s' t u registering m apart same f = absurd (ground arith)
others_out s s' t u leaving m apart same f = same f
others_out s s' t u (returned p) m apart same f = (same f.0, f.1)

-- With the lock free, nobody is.
all_out :
    (s s' : Shared) (u : ℕ) (p : Place)
    → s.mutex ≡ none
    → (s.instance_ ≡ some 1 → s'.instance_ ≡ some 1)
    → Fits u s p
    → Fits u s' p
all_out s s' u first_test m same f = tt
all_out s s' u want_lock m same f = tt
all_out s s' u second_test m same f = absurd (ground arith)
all_out s s' u creating m same f = absurd (ground arith)
all_out s s' u (storing tmp) m same f = absurd (ground arith)
all_out s s' u registering m same f = absurd (ground arith)
all_out s s' u leaving m same f = same f
all_out s s' u (returned p) m same f = (same f.0, f.1)

pub Step-IsSingleton : (s q : Shared) → IsSingleton s → Step s q → IsSingleton q
Step-IsSingleton s q v (see_null _ t here null) = record {
  fits = moved-Fits s q t want_lock v.fits (λ u p apart f. f) tt refl;
  one = v.one;
  free = v.free;
  exits = v.exits;
}
Step-IsSingleton s q v (see_instance _ t here there) = record {
  fits = moved-Fits s q t leaving v.fits (λ u p apart f. f) (v.one there).0 refl;
  one = v.one;
  free = v.free;
  exits = v.exits;
}
Step-IsSingleton s q v (lock _ t here open_) = record {
  fits =
      moved-Fits s q t second_test v.fits (λ u p apart f. all_out s q u p open_ (λ e. e) f)
        (refl, v.free open_, v.exits.2 open_) refl;
  one = v.one;
  free = λ m. absurd cc;
  exits = (v.exits.0, v.exits.1, λ m. absurd cc);
}
Step-IsSingleton s q v (see_null_again _ t here null) =
    let (m, none_made, registered) : Fits t s second_test =
      subst (λ place. Fits t s place) here (v.fits t) in
    record {
      fits = moved-Fits s q t creating v.fits (λ u p apart f. f) (m, null, none_made null) refl;
      one = v.one;
      free = v.free;
      exits = v.exits;
    }
Step-IsSingleton s q v (see_instance_again _ t here there) =
    let (m, none_made, registered) : Fits t s second_test =
      subst (λ place. Fits t s place) here (v.fits t) in
    record {
      fits =
          moved-Fits s q t leaving v.fits (λ u p apart f. others_out s q t u p m apart (λ e. e) f)
            (v.one there).0 refl;
      one = v.one;
      free = λ out null. absurd (there null);
      exits = (v.exits.0, v.exits.1, λ open_ there. registered there);
    }
Step-IsSingleton s q v (create _ t here) =
    let (m, null, none_made) : Fits t s creating =
      subst (λ place. Fits t s place) here (v.fits t) in
    record {
      fits =
          moved-Fits s q t (storing (suc s.created)) v.fits
            (λ u p apart f. others_out s q t u p m apart (λ e. e) f)
            (m, null, omega arith, omega arith) refl;
      one = λ there. absurd (there null);
      free = λ out. absurd (ground arith);
      exits = v.exits;
    }
Step-IsSingleton s q v (store _ t tmp here) =
    let (m, null, made, first) : Fits t s (storing tmp) =
      subst (λ place. Fits t s place) here (v.fits t) in
    record {
      fits =
          moved-Fits s q t registering v.fits
            (λ u p apart f. others_out s q t u p m apart (λ e. ap some first) f)
            (m, ap some first, v.exits.0 null) refl;
      one = λ there. (ap some first, made);
      free = λ out null_now. absurd cc;
      exits = ((λ null_now. absurd cc), v.exits.1, λ open_ there. absurd (ground arith));
    }
Step-IsSingleton s q v (register_exit _ t here) =
    let (m, same, none_yet) : Fits t s registering =
      subst (λ place. Fits t s place) here (v.fits t) in
    record {
      fits =
          moved-Fits s q t leaving v.fits (λ u p apart f. others_out s q t u p m apart (λ e. e) f)
            same refl;
      one = v.one;
      free = λ out null_now. absurd (ground arith);
      exits = ((λ null_now. absurd (ground arith)), omega arith, λ open_ there. omega arith);
    }
Step-IsSingleton s q v (leave _ t here) =
    let f : Fits t s leaving = subst (λ place. Fits t s place) here (v.fits t) in
    record {
      fits = moved-Fits s q t (returned s.instance_) v.fits (λ u p apart g. g) (f, f) refl;
      one = v.one;
      free = v.free;
      exits = v.exits;
    }

start-IsSingleton : IsSingleton start
start-IsSingleton = record {
  fits = λ t. tt;
  one = λ there. absurd (there refl);
  free = λ open_ null. refl;
  exits = ((λ null. refl), omega arith, λ open_ there. absurd (there refl));
}

pub Steps-IsSingleton : (s q : Shared) → IsSingleton s → Steps s q → IsSingleton q
Steps-IsSingleton s q v (done _) = v
Steps-IsSingleton s q v (step _ r _ first more) =
    Steps-IsSingleton r q (Step-IsSingleton s r v first) more

-- The registered functions delete every object that was made.
exits-made_objects :
    (n created : ℕ) (o : Option ℕ)
    → o ≡ some 1
    → created ≡ 1
    → n ≡ 1
    → run_exit_funcs n o (made_objects created) ≡ ok []
unfolding run_exit_funcs exit_func made_objects is_in close
exits-made_objects n created o there one_made registered = rw (there, one_made, registered) refl

-- Whatever the interleaving of the threads that call GetInstance: a call that has returned has
-- returned the first object, and no other one has been made. If the process ends while the lock is
-- free, the functions registered with atexit delete that object, and no object twice.
pub get_instance_once :
    (s : Shared) (t : ℕ) (p : Option ℕ)
    → Steps start s
    → s.places t ≡ returned p
    → (p ≡ some 1)
      × (s.instance_ ≡ some 1)
      × (s.created ≡ 1)
      × (s.exit_funcs ≤ 1)
      × (s.mutex ≡ none → run_exit_funcs s.exit_funcs s.instance_ (made_objects s.created) ≡ ok [])
get_instance_once s t p steps here =
    let v = Steps-IsSingleton start s start-IsSingleton steps in
    let (same, first) : Fits t s (returned p) = subst (λ place. Fits t s place) here (v.fits t) in
    let there : s.instance_ ≢ none = λ e. ground arith in
    (
      first,
      same,
      (v.one there).1,
      v.exits.1,
      λ open_.
          exits-made_objects s.exit_funcs s.created s.instance_ same (v.one there).1
            (v.exits.2 open_ there),
    )
