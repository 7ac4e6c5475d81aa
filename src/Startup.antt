-- ===== src/Startup.antt =====
-- The constructor of Master and its reading of the configuration (master/master.cpp).
pub mod Addresses
pub mod Found
use Prim.Native.Nat.{bit_or}
use Prim.Native.Char.{code}
use Prim.Native.String.{◌++◌ as str_append}
use Prim.Native.String
use distributed_disk.Common.{
  ℕ, zero, suc, ◌+◌, ◌-◌, ◌*◌, ◌/◌, ◌%◌, ◌^◌, String, Bool, true, false, Option, none, some, List,
  [], ◌∷◌, ◌++◌, ◌&&◌, ◌||◌, ltb, leb, nat_eq, ◌==◌, if◌then◌else◌, length,
}
use distributed_disk.Common.Exec.{Outcome, ok, fault, and_then, buffer_overflow, null_pointer}
use distributed_disk.Raid.{Raid}
use distributed_disk.Minions.{minion_manager}
use distributed_disk.Net.{Link}
use distributed_disk.Nbd.{Stream}
use distributed_disk.Master.{Master}
use distributed_disk.Config.{ConfigMap, get_config}

-- c_str(): the bytes of an ASCII text
abbrev pub codes : String → List ℕ
codes String.[] = []
codes (String.◌∷◌ letter more) = code letter ∷ codes more

-- atoi: blanks, a sign, digits; the result as the 32 bits of an int.
is_digit : ℕ → Bool
is_digit c = leb b'0' c && leb c b'9'

digits_value : ℕ → List ℕ → ℕ
digits_value acc [] = acc
digits_value acc (c ∷ cs) =
    let rest = digits_value (acc * 10 + (c - b'0')) cs in if is_digit c then rest else acc

signed_value : List ℕ → ℕ
signed_value [] = 0
signed_value (c ∷ cs) =
    if c == b'-'
    then (2 ^ 32 - digits_value 0 cs % 2 ^ 32) % 2 ^ 32
    else if c == b'+'
    then digits_value 0 cs % 2 ^ 32
    else digits_value 0 (c ∷ cs) % 2 ^ 32

unfoldable pub atoi : List ℕ → ℕ
unfolding is_digit digits_value signed_value
atoi [] = 0
atoi (c ∷ cs) =
    let rest = atoi cs in if c == 32 || (leb 9 c && leb c 13) then rest else signed_value (c ∷ cs)

-- strtok with the delimiter '.': the next token and what is left behind it.
skip_dots : List ℕ → List ℕ
skip_dots [] = []
skip_dots (c ∷ cs) = let rest = skip_dots cs in if c == b'.' then rest else c ∷ cs

until_dot : List ℕ → List ℕ × List ℕ
until_dot [] = ([], [])
until_dot (c ∷ cs) =
    let (token, left) = until_dot cs in if c == b'.' then ([], cs) else (c ∷ token, left)

token_of : List ℕ → Outcome (List ℕ × List ℕ)
unfolding until_dot
token_of [] = fault null_pointer
token_of (c ∷ cs) = ok (until_dot (c ∷ cs))

-- `atoi(NULL)` where strtok finds nothing
unfoldable pub next_token : List ℕ → Outcome (List ℕ × List ℕ)
unfolding token_of skip_dots
next_token cs = token_of (skip_dots cs)

-- strtok(NULL, "\0"): all that is left
unfoldable pub last_token : List ℕ → Outcome (List ℕ)
last_token [] = fault null_pointer
last_token (c ∷ cs) = ok (c ∷ cs)

-- The four numbers, shifted into place as StringToIp does it
unfoldable pub join_octets : ℕ → ℕ → ℕ → ℕ → ℕ
join_octets a b c d =
    bit_or (bit_or (bit_or (a * 2 ^ 24 % 2 ^ 32) (b * 2 ^ 26 % 2 ^ 32)) (c * 2 ^ 8 % 2 ^ 32)) d

-- StringToIp
unfoldable pub string_to_ip : List ℕ → Outcome ℕ
unfolding next_token last_token join_octets atoi
string_to_ip ip =
    if ltb 19 (length ip)
    then fault buffer_overflow
    else and_then (next_token ip) λ first. and_then (next_token first.1) λ second.
      and_then (next_token second.1) λ third.
        and_then (last_token third.1)
          λ fourth. ok (join_octets (atoi first.0) (atoi second.0) (atoi third.0) (atoi fourth))

digit : ℕ → String
digit n =
    if n == 0
    then "0"
    else if n == 1
    then "1"
    else if n == 2
    then "2"
    else if n == 3
    then "3"
    else if n == 4
    then "4"
    else if n == 5
    then "5"
    else if n == 6
    then "6"
    else if n == 7
    then "7"
    else if n == 8
    then "8"
    else "9"

-- sprintf of "%d" into three bytes
decimal : ℕ → Outcome String
unfolding digit
decimal n =
    if ltb n 10
    then ok (digit n)
    else if ltb n 100
    then ok (str_append (digit (n / 10)) (digit (n % 10)))
    else fault buffer_overflow

-- Master::ReadNumOfMinions, ReadBlockSize and ReadNumOfBlocks
unfoldable pub read_number : String → ConfigMap → Outcome ℕ
unfolding atoi
read_number key config = and_then (get_config key config) λ value. ok (atoi (codes value))

-- One round of the loop of ReadIpsAndPorts
unfoldable pub read_minion : ℕ → ConfigMap → Outcome (ℕ × ℕ)
unfolding decimal string_to_ip read_number
read_minion i config = and_then (decimal i) λ minion_num.
    and_then (get_config (str_append "MINION_IP_" minion_num) config) λ ip.
      and_then (string_to_ip (codes ip)) λ addr.
        and_then (read_number (str_append "MINION_PORT_" minion_num) config) λ port. ok (addr, port)

-- The loop of ReadIpsAndPorts with the rounds that are left, from `i` on
unfoldable pub read_minions : ℕ → ℕ → ConfigMap → List (ℕ × ℕ) → Outcome (List (ℕ × ℕ))
unfolding read_minion
read_minions zero i config res = ok res
read_minions (suc rounds) i config res =
    and_then (read_minion i config) λ pair. read_minions rounds (i + 1) config (res ++ pair ∷ [])

-- Master::ReadIpsAndPorts: a negative number of minions makes no round.
unfoldable pub read_ips_and_ports : ConfigMap → Outcome (List (ℕ × ℕ))
unfolding read_minions
read_ips_and_ports config = and_then (read_number "NUM_OF_MINIONS" config) λ num_of_minions.
    if ltb num_of_minions (2 ^ 31) then read_minions num_of_minions 1 config [] else ok []

-- Master::Master
unfoldable pub make_master : ConfigMap → Link → Stream → Outcome Master
unfolding read_ips_and_ports
make_master config link stream = and_then (read_number "NUM_OF_MINIONS" config) λ num_of_minions.
    and_then (read_ips_and_ports config) λ minions. ok (record {
      raid = record { num_of_minions = num_of_minions };
      manager = minion_manager minions;
      id_conter = 0;
      link = link;
      stream = stream;
      log = [];
    })
