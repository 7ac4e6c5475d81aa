-- ===== src/Common/Bytes.antt =====
-- The bytes of integers in memory (little endian, as on x86), and copies between buffers.
use mathlib.Core.List.{reverse, reverse-cons, reverse-reverse}
use distributed_disk.Common.{
  ℕ, zero, suc, ◌+◌, ◌*◌, ◌/◌, ◌%◌, ◌<◌, ◌≡◌, refl, ap, ◌∙◌, List, [], ◌∷◌, ◌++◌, arith, length,
  take, drop, take-append, drop-append, length-append,
}

-- 256 ^ w, by recursion.
abbrev pub range_of : ℕ → ℕ
range_of zero = 1
range_of (suc w) = 256 * range_of w

unfoldable pub to_le : ℕ → ℕ → List ℕ
to_le zero n = []
to_le (suc w) n = (n % 256) ∷ to_le w (n / 256)

unfoldable pub of_le : List ℕ → ℕ
of_le [] = 0
of_le (b ∷ bs) = b + 256 * of_le bs

pub length-to_le : (w n : ℕ) → length (to_le w n) ≡ w
unfolding to_le
length-to_le zero n = refl
length-to_le (suc w) n = ap suc (length-to_le w (n / 256))

pub of_le-to_le : (w n : ℕ) → n < range_of w → of_le (to_le w n) ≡ n
unfolding to_le of_le
of_le-to_le zero n h = omega arith
of_le-to_le (suc w) n h = omega (arith, of_le-to_le w (n / 256) (omega arith))

-- memcpy, read or recvfrom into the start of a buffer: what lies past the copied bytes stays.
unfoldable pub overlay : List ℕ → List ℕ → List ℕ
overlay bytes buffer = bytes ++ drop (length bytes) buffer

-- An integer field at the start of a buffer, and what follows it.
module _ (w n : ℕ) (rest : List ℕ) where
  pub take-to_le : take w (to_le w n ++ rest) ≡ to_le w n
  take-to_le = take-append w (to_le w n) rest (length-to_le w n)

  pub drop-to_le : drop w (to_le w n ++ rest) ≡ rest
  drop-to_le = drop-append w (to_le w n) rest (length-to_le w n)

pub ruleset field_laws = (take-to_le, drop-to_le)

-- Network byte order: htonl, htobe64 and their inverses.
unfoldable pub to_be : ℕ → ℕ → List ℕ
unfolding to_le
to_be w n = reverse (to_le w n)

unfoldable pub of_be : List ℕ → ℕ
unfolding of_le
of_be bs = of_le (reverse bs)

length-reverse : (xs : List ℕ) → length (reverse xs) ≡ length xs
length-reverse [] = refl
length-reverse (x ∷ xs) =
    omega
      (arith, ap length (reverse-cons x xs), length-append (reverse xs) (x ∷ []), length-reverse xs)

pub length-to_be : (w n : ℕ) → length (to_be w n) ≡ w
unfolding to_be
length-to_be w n = length-reverse (to_le w n) ∙ length-to_le w n

pub of_be-to_be : (w n : ℕ) → n < range_of w → of_be (to_be w n) ≡ n
unfolding to_be of_be
of_be-to_be w n h = rw (reverse-reverse (to_le w n)) (of_le-to_le w n h)

module _ (w n : ℕ) (rest : List ℕ) where
  pub take-to_be : take w (to_be w n ++ rest) ≡ to_be w n
  take-to_be = take-append w (to_be w n) rest (length-to_be w n)

  pub drop-to_be : drop w (to_be w n ++ rest) ≡ rest
  drop-to_be = drop-append w (to_be w n) rest (length-to_be w n)

pub ruleset network_laws = (take-to_be, drop-to_be)
