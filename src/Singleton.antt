-- ===== src/Singleton.antt =====
-- singlton/singleton.hpp and singlton/singleton_impl.hpp: GetInstance as the steps of the threads
-- that call it, in any interleaving, and what ExitFunc does at the end. Loads and stores of m_instance are atomic and, with the acquire
-- and release orders of the code, in one order for all threads.
pub mod Once
use distributed_disk.Common.Exec.{Outcome, ok, fault, and_then, dangling_pointer}
use distributed_disk.Common.{
  List, [], ◌∷◌, is_in, close, ℕ, zero, suc, ◌+◌, ◌≡◌, ◌≢◌, Option, none, some, nat_eqb,
  if◌then◌else◌,
}

-- Where a thread is in GetInstance: before the first test, before the lock, before the second test,
-- before `new`, before the store of `tmp`, before atexit, before the return, and returned with a
-- pointer.
pub data Place : Type 0 where
  first_test want_lock second_test creating : Place
  storing : ℕ → Place
  registering : Place
  leaving : Place
  returned : Option ℕ → Place

pub record Shared : Type 0 where
  pub instance_ : Option ℕ
  pub mutex : Option ℕ
  -- the objects that `new T()` has made, and the registrations with atexit
  pub created : ℕ
  pub exit_funcs : ℕ
  pub places : ℕ → Place

-- Before any call
abbrev pub start : Shared
start = record {
  instance_ = none;
  mutex = none;
  created = 0;
  exit_funcs = 0;
  places = λ t. first_test;
}

abbrev pub at : ℕ → Place → (ℕ → Place) → ℕ → Place
at t place places s = if nat_eqb t s then place else places s

pub data Step : Shared → Shared → Type 0 where
  see_null :
      (s : Shared) (t : ℕ)
      → s.places t ≡ first_test
      → s.instance_ ≡ none
      → Step s (record s { places = at t want_lock s.places })
  see_instance :
      (s : Shared) (t : ℕ)
      → s.places t ≡ first_test
      → s.instance_ ≢ none
      → Step s (record s { places = at t leaving s.places })
  lock :
      (s : Shared) (t : ℕ)
      → s.places t ≡ want_lock
      → s.mutex ≡ none
      → Step s (record s { mutex = some t; places = at t second_test s.places })
  -- the second test, under the lock
  see_null_again :
      (s : Shared) (t : ℕ)
      → s.places t ≡ second_test
      → s.instance_ ≡ none
      → Step s (record s { places = at t creating s.places })
  see_instance_again :
      (s : Shared) (t : ℕ)
      → s.places t ≡ second_test
      → s.instance_ ≢ none
      → Step s (record s { mutex = none; places = at t leaving s.places })
  create :
      (s : Shared) (t : ℕ)
      → s.places t ≡ creating
      → Step s
          (record s { created = suc s.created; places = at t (storing (suc s.created)) s.places })
  store :
      (s : Shared) (t tmp : ℕ)
      → s.places t ≡ storing tmp
      → Step s (record s { instance_ = some tmp; places = at t registering s.places })
  -- atexit, and the end of the lock's scope
  register_exit :
      (s : Shared) (t : ℕ)
      → s.places t ≡ registering
      → Step s
          (record s { mutex = none; exit_funcs = suc s.exit_funcs; places = at t leaving s.places })
  leave :
      (s : Shared) (t : ℕ)
      → s.places t ≡ leaving
      → Step s (record s { places = at t (returned s.instance_) s.places })

pub data Steps : Shared → Shared → Type 0 where
  done : (s : Shared) → Steps s s
  step : (s r q : Shared) → Step s r → Steps r q → Steps s q

-- Singleton::ExitFunc on the objects that are alive: `delete` of a null pointer does nothing, and the
-- pointer stays as it is.
unfoldable pub exit_func : Option ℕ → List ℕ → Outcome (List ℕ)
exit_func none alive = ok alive
exit_func (some p) alive = if is_in p alive then ok (close p alive) else fault dangling_pointer

-- The functions that atexit has registered run at the end of the process.
unfoldable pub run_exit_funcs : ℕ → Option ℕ → List ℕ → Outcome (List ℕ)
unfolding exit_func
run_exit_funcs zero instance_ alive = ok alive
run_exit_funcs (suc n) instance_ alive =
    and_then (exit_func instance_ alive) λ left. run_exit_funcs n instance_ left

-- The objects that have been made
unfoldable pub made_objects : ℕ → List ℕ
made_objects zero = []
made_objects (suc n) = suc n ∷ made_objects n
