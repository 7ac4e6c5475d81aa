-- ===== src/Startup/Addresses.antt =====
-- What StringToIp makes of the second number of an address.
use distributed_disk.Common.{ℕ, ◌*◌, ◌%◌, ◌^◌, ◌≡◌, arith}
use distributed_disk.Startup.{join_octets}

second_octet : (b : ℕ) → b * 2 ^ 26 % 2 ^ 32 ≡ b % 64 * 2 ^ 26 % 2 ^ 32
second_octet b = omega arith

-- The second number is shifted by 26 places, not 16: only its six low bits count, so the addresses
-- of a.b.c.d and a.b'.c.d are the same wherever b and b' agree modulo 64.
pub join_octets-second :
    (a b b' c d : ℕ) → b % 64 ≡ b' % 64 → join_octets a b c d ≡ join_octets a b' c d
unfolding join_octets
join_octets-second a b b' c d e = rw (second_octet b, second_octet b', e)
