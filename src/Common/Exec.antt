-- ===== src/Common/Exec.antt =====
-- Stateful code that can fault or wait. `blocked` means that the environment (a socket, a queue)
-- has not answered yet: the call has not returned.
use distributed_disk.Common.{◌≡◌, refl, Option, none, some}

pub data Fault : Type 0 where
  -- abort() of a failed assert
  assert_failed : Fault
  -- the program is undefined there
  out_of_range division_by_zero signed_overflow null_pointer buffer_overflow dangling_pointer :
      Fault
  -- exceptions of the source
  nbd_exception config_fail config_not_found wrong_key logic_error monitor_fail select_fail
        server_fail no_room terminated no_return :
      Fault

pub data Outcome {ℓ} (A : Type ℓ) : Type ℓ where
  ok : A → Outcome A
  fault : Fault → Outcome A
  blocked : Outcome A

abbrev pub Exec {ℓ} : Type ℓ → Type ℓ → Type ℓ
Exec S A = S → Outcome (A × S)

abbrev pub and_then {ℓ κ} : {A : Type ℓ} {B : Type κ} → Outcome A → (A → Outcome B) → Outcome B
and_then (ok a) f = f a
and_then (fault e) f = fault e
and_then blocked f = blocked

-- A successful first step, and two ways to go on from it.
pub and_then-ok {ℓ κ} :
    {A : Type ℓ} {B : Type κ} (o : Outcome A) (f : A → Outcome B) {b : B}
    → and_then o f ≡ ok b
    → (a : A) × (o ≡ ok a) × (f a ≡ ok b)
and_then-ok (ok a) f h = (a, refl, h)
and_then-ok (fault e) f h = cc
and_then-ok blocked f h = cc

module _ {ℓ} {S A B : Type ℓ} where
  abbrev pub continue : (A → Exec S B) → Outcome (A × S) → Outcome (B × S)
  continue f (ok (a, s)) = f a s
  continue f (fault e) = fault e
  continue f blocked = blocked

  infixl 5 ◌>>=◌ ◌>>◌
  abbrev pub ◌>>=◌ : Exec S A → (A → Exec S B) → Exec S B
  ◌>>=◌ m f s = continue f (m s)

  abbrev pub ◌>>◌ : Exec S A → Exec S B → Exec S B
  ◌>>◌ m n s = continue (λ _. n) (m s)

module _ {ℓ} {S A : Type ℓ} where
  abbrev pub pure : A → Exec S A
  pure a s = ok (a, s)

  abbrev pub raise : Fault → Exec S A
  raise e s = fault e

  -- A lookup that is undefined or throws where nothing is found.
  abbrev pub or_fault : Fault → Option A → Exec S A
  or_fault e none s = fault e
  or_fault e (some a) s = ok (a, s)

  abbrev pub lift : Outcome A → Exec S A
  lift (ok a) s = ok (a, s)
  lift (fault e) s = fault e
  lift blocked s = blocked

  abbrev pub gets : (S → A) → Exec S A
  gets f s = ok (f s, s)
