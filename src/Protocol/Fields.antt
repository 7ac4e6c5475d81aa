-- ===== src/Protocol/Fields.antt =====
-- Integers of some bytes in a byte string.
use mathlib.Core.Path.{subst}
use distributed_disk.Common.{
  ◌*◌, ◌%◌, ℕ, zero, suc, ◌+◌, ◌/◌, ◌≤◌, ◌<◌, ◌≡◌, refl, ap, ◌∙◌, List, [], ◌∷◌, ◌++◌, arith,
  length, take, drop, length-take, length-drop, take-append-drop, All, All-take, All-drop,
}
use distributed_disk.Common.Bytes.{to_le, of_le, range_of}

abbrev pub AreBytes : List ℕ → Type 0
AreBytes = All (λ b. b < 256)

pub to_le-AreBytes : (w n : ℕ) → AreBytes (to_le w n)
unfolding to_le
to_le-AreBytes zero n = tt
to_le-AreBytes (suc w) n = (omega arith, to_le-AreBytes w (n / 256))

of_le-lt : (bs : List ℕ) → AreBytes bs → of_le bs < range_of (length bs)
unfolding of_le
of_le-lt [] all = omega arith
of_le-lt (b ∷ bs) all = omega (arith, all.0, of_le-lt bs all.1)

to_le-of_le : (bs : List ℕ) → AreBytes bs → to_le (length bs) (of_le bs) ≡ bs
unfolding to_le of_le
to_le-of_le [] all = refl
to_le-of_le (b ∷ bs) all =
    let low : (b + 256 * of_le bs) % 256 ≡ b = omega (arith, all.0) in
    let high : (b + 256 * of_le bs) / 256 ≡ of_le bs = omega (arith, all.0) in
    rw (low, high, to_le-of_le bs all.1) refl

-- An integer of w bytes in front of a byte string
module _ (w : ℕ) (bs : List ℕ) (all : AreBytes bs) (long : w ≤ length bs) where
  long_take : length (take w bs) ≡ w
  long_take = omega (arith, length-take w bs)

  pub field_fits : of_le (take w bs) < range_of w
  field_fits =
      subst (λ n. of_le (take w bs) < range_of n) long_take
        (of_le-lt (take w bs) (All-take _ w bs all))

  pub field_again : to_le w (of_le (take w bs)) ++ drop w bs ≡ bs
  field_again =
      ap (λ t. t ++ drop w bs)
        (subst (λ n. to_le n (of_le (take w bs)) ≡ take w bs) long_take
          (to_le-of_le (take w bs) (All-take _ w bs all)))
      ∙ take-append-drop w bs

  pub rest_long : w + length (drop w bs) ≡ length bs
  rest_long = omega (arith, length-drop w bs)

  pub rest_bytes : AreBytes (drop w bs)
  rest_bytes = All-drop _ w bs all
