-- ===== src/Raid.antt =====
-- raid/raid.hpp and raid/raid.cpp: which two minions keep a block.
pub mod Choice
use distributed_disk.Common.{ℕ, ◌+◌, ◌-◌, ◌%◌, ◌^◌, if◌then◌else◌, ◌==◌, nat_eq}
use distributed_disk.Common.Exec.{Outcome, ok, fault, division_by_zero, signed_overflow}

pub record Raid : Type 0 where
  pub num_of_minions : ℕ

-- An `int` is kept as its 32 bits. `minion1 + 1` is a sum of ints, `%` is one of unsigneds.
unfoldable pub choose_minions : Raid → ℕ → Outcome (ℕ × ℕ)
choose_minions raid offset =
    if raid.num_of_minions == 0
    then fault division_by_zero
    else let minion1 = offset % raid.num_of_minions in
      if minion1 == 2 ^ 31 - 1
      then fault signed_overflow
      else ok (minion1, (minion1 + 1) % raid.num_of_minions)
