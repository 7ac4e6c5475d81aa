-- ===== src/Factory.antt =====
-- factory/factory.hpp and factory/factory_impl.hpp
pub mod Laws
use distributed_disk.Common.{Option, none, some, List, [], Eq}
use distributed_disk.Common.Exec.{Outcome, ok, fault, wrong_key}
use distributed_disk.Common.Dict.{lookup, insert}

-- Factory<BASE, ARG, ID>: the functions that create a BASE from an ARG, by ID.
pub record Factory (Base Arg ID : Type 0) : Type 0 where
  pub map : List (ID × (Arg → Base))

create_with : {Base Arg : Type 0} → Arg → Option (Arg → Base) → Outcome Base
create_with arg none = fault wrong_key
create_with arg (some create_func) = ok (create_func arg)

module _ {Base Arg ID : Type 0} ⦃e : Eq ID⦄ where
  -- Factory::Add overrides an existing function.
  unfoldable pub add : ID → (Arg → Base) → Factory Base Arg ID → Factory Base Arg ID
  add id create_func f = record { map = insert id create_func f.map }

  -- Factory::Create throws WrongKey where `at` finds nothing.
  unfoldable pub create : ID → Arg → Factory Base Arg ID → Outcome Base
  unfolding create_with
  create id arg f = create_with arg (lookup id f.map)
