-- ===== src/Factory/Laws.antt =====
-- What a factory creates after a registration.
use distributed_disk.Common.{◌≡◌, arith, Eq, ◌==◌, if◌then◌else◌}
use distributed_disk.Common.Exec.{ok}
use distributed_disk.Common.Dict.{lookup-insert}
use distributed_disk.Factory.{Factory, add, create}

module _ {Base Arg ID : Type 0} ⦃e : Eq ID⦄ where
  -- A registered function answers for its key, also in place of an older one, and the other keys
  -- answer (or throw) as before.
  pub create-add :
      (id j : ID) (create_func : Arg → Base) (arg : Arg) (f : Factory Base Arg ID)
      → create j arg (add id create_func f)
        ≡ (if id == j then ok (create_func arg) else create j arg f)
  unfolding create add
  create-add id j create_func arg f = rw (lookup-insert id j create_func f.map) (ground arith)
