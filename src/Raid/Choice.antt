-- ===== src/Raid/Choice.antt =====
-- The two minions of an offset, and how offsets spread over the minions.
use native.Mathlib.Nat.{mod-add-mod, mod-eq_of_lt, mod_self, mul-mod_left}
use native.Mathlib.Decide.{dec_lt}
use distributed_disk.Common.{ℕ, ◌+◌, ◌*◌, ◌%◌, ◌^◌, ◌<◌, ◌≡◌, ◌≢◌, ap, arith}
use distributed_disk.Common.Exec.{ok}
use distributed_disk.Raid.{Raid, choose_minions}

step_moves : (a n : ℕ) → a < n → 1 < n → a ≢ (a + 1) % n
step_moves a n below two = elim (dec_lt (a + 1) n) [
  | yes h ↦ omega (arith, mod-eq_of_lt h)
  | no h ↦ let e : a + 1 ≡ n = omega arith in rw e (omega (arith, mod_self n))
]

module _ (raid : Raid) (offset : ℕ) where
  open raid use {num_of_minions}

  -- With two or more minions (fewer than 2^31), a block has two different minions, both in range.
  pub choose_minions-distinct :
      1 < num_of_minions
      → num_of_minions < 2 ^ 31
      → (a : ℕ) × (b : ℕ) × (choose_minions raid offset ≡ ok (a, b))
        × (a < num_of_minions)
        × (b < num_of_minions)
        × (a ≢ b)
  unfolding choose_minions
  choose_minions-distinct two few = (
    offset % num_of_minions,
    (offset % num_of_minions + 1) % num_of_minions,
    ground arith,
    ground arith,
    ground arith,
    step_moves _ _ (omega arith) two,
  )

  -- The second minion of an offset is the first minion of the next offset.
  pub choose_minions-next :
      (a b : ℕ)
      → 0 < num_of_minions
      → num_of_minions < 2 ^ 31
      → choose_minions raid offset ≡ ok (a, b)
      → choose_minions raid (offset + 1) ≡ ok (b, (b + 1) % num_of_minions)
  unfolding choose_minions
  choose_minions-next a b some_minion few chosen =
      ground (arith, mod-add-mod offset num_of_minions 1)

multiple : (n m k : ℕ) → m * n ≡ 4096 → 4096 * k ≡ m * k * n
multiple n m k divides = omega (arith, ap (λ (t : ℕ). t * k) divides)

-- The offset of a block is a multiple of 4096. Where the number of minions is more than one and
-- divides 4096, every block goes to minions 0 and 1, and the others stay empty.
pub choose_minions-aligned :
    (raid : Raid) (m k : ℕ)
    → 1 < raid.num_of_minions
    → m * raid.num_of_minions ≡ 4096
    → choose_minions raid (4096 * k) ≡ ok (0, 1)
unfolding choose_minions
choose_minions-aligned raid m k two divides =
    let first : 4096 * k % raid.num_of_minions ≡ 0 =
      rw (multiple raid.num_of_minions m k divides) (mul-mod_left (m * k) raid.num_of_minions) in
    ground (arith, first, mod-eq_of_lt two)
