-- ===== src/Startup/Found.antt =====
-- A master that starts finds two minions for every block.
use distributed_disk.Common.{
  ℕ, zero, suc, ◌+◌, ◌^◌, ◌<◌, ◌≡◌, ◌≢◌, ap, sym, ◌∙◌, true, some, List, [], ◌∷◌, ◌++◌, arith, ltb,
  length, length-append, if_true,
}
use distributed_disk.Common.Exec.{Outcome, ok, fault, blocked, and_then-ok}
use distributed_disk.Raid.{Raid}
use distributed_disk.Raid
use distributed_disk.Raid.Choice.{choose_minions-distinct}
use distributed_disk.Minions.{MinionData, minion_manager, get_minions_data-lt}
use distributed_disk.Minions
use distributed_disk.Net.{Link}
use distributed_disk.Nbd.{Stream}
use distributed_disk.Master.{Master}
use distributed_disk.Config.{ConfigMap}
use distributed_disk.Startup.{
  read_number, read_minion, read_minions, read_ips_and_ports, make_master,
}

read_minions-length :
    (rounds i : ℕ) (config : ConfigMap) (res ps : List (ℕ × ℕ))
    → read_minions rounds i config res ≡ ok ps
    → length ps ≡ length res + rounds
unfolding read_minions
read_minions-length zero i config res ps e = ground arith
read_minions-length (suc rounds) i config res ps e =
    let (pair, one, more) = and_then-ok (read_minion i config) _ e in
    omega (
      arith,
      read_minions-length rounds (i + 1) config (res ++ pair ∷ []) ps more,
      length-append res (pair ∷ []),
    )

ok_value : {A : Type 0} → A → Outcome A → A
ok_value d (ok a) = a
ok_value d (fault e) = d
ok_value d blocked = d

-- What two equal results agree on.
ok_ap : {A B : Type 0} (f : A → B) {a b : A} → ok a ≡ ok b → f a ≡ f b
unfolding ok_value
ok_ap f {a} e = ap (λ o. f (ok_value a o)) e

-- The parts of a master that has been made.
made_parts :
    (config : ConfigMap) (link : Link) (stream : Stream) (m : Master)
    → make_master config link stream ≡ ok m
    → (n : ℕ) × (ps : List (ℕ × ℕ)) × (read_number "NUM_OF_MINIONS" config ≡ ok n)
      × (read_ips_and_ports config ≡ ok ps)
      × (n ≡ m.raid.num_of_minions)
      × (minion_manager ps ≡ m.manager)
unfolding make_master
made_parts config link stream m made =
    let (n, counted, rest) = and_then-ok (read_number "NUM_OF_MINIONS" config) _ made in
    let (ps, listed, last) = and_then-ok (read_ips_and_ports config) _ rest in
    (n, ps, counted, listed, ok_ap (λ s. s.raid.num_of_minions) last, ok_ap (λ s. s.manager) last)

-- It lists as many minions as it counts.
listed-length :
    (config : ConfigMap) (n : ℕ) (ps : List (ℕ × ℕ))
    → read_number "NUM_OF_MINIONS" config ≡ ok n
    → n < 2 ^ 31
    → read_ips_and_ports config ≡ ok ps
    → length ps ≡ n
unfolding read_ips_and_ports
listed-length config n ps counted small listed =
    let (k, same, rest) = and_then-ok (read_number "NUM_OF_MINIONS" config) _ listed in
    let k_n = ok_ap (λ x. x) (sym same ∙ counted) in
    let fits : ltb k (2 ^ 31) ≡ true = ground arith in
    omega (
      arith,
      k_n,
      read_minions-length k 1 config [] ps (sym (if_true (ltb k (2 ^ 31)) _ _ fits) ∙ rest),
    )

-- A master made from a configuration with more than one minion, and fewer than 2^31, chooses two
-- different minions for every offset, and its table holds an address for each of them.
pub make_master_finds :
    (config : ConfigMap) (link : Link) (stream : Stream) (m : Master) (offset : ℕ)
    → make_master config link stream ≡ ok m
    → 1 < m.raid.num_of_minions
    → m.raid.num_of_minions < 2 ^ 31
    → (a b : ℕ) × (min1 min2 : MinionData) × (Raid.choose_minions m.raid offset ≡ ok (a, b))
      × (a ≢ b)
      × (Minions.get_minions_data m.manager a ≡ some min1)
      × (Minions.get_minions_data m.manager b ≡ some min2)
make_master_finds config link stream m offset made many small =
    let (n, ps, counted, listed, n_raid, table) = made_parts config link stream m made in
    let long = listed-length config n ps counted (omega arith) listed in
    let (a, b, chosen, a_in, b_in, apart) = choose_minions-distinct m.raid offset many small in
    let (min1, found1) = get_minions_data-lt ps a (omega arith) in
    let (min2, found2) = get_minions_data-lt ps b (omega arith) in
    (
      a,
      b,
      min1,
      min2,
      chosen,
      apart,
      ap (λ t. Minions.get_minions_data t a) (sym table) ∙ found1,
      ap (λ t. Minions.get_minions_data t b) (sym table) ∙ found2,
    )
