-- ===== src/Tests/Starting.antt =====
-- A configuration with two minions, and the master made from it.
use distributed_disk.Common.{
  ℕ, ◌≡◌, ◌≢◌, refl, String, some, List, [], ◌∷◌, arith, string_eq, nat_eq,
}
use distributed_disk.Common.Dict.{lookup}
use distributed_disk.Common.Exec.{ok}
use distributed_disk.Raid
use distributed_disk.Net.{inaddr_loopback}
use distributed_disk.Minions.{MinionData}
use distributed_disk.Minions
use distributed_disk.Master.{Master}
use distributed_disk.Config.{get_config, found}
use distributed_disk.Config.Tokens.{tokens_of}
use distributed_disk.Startup.{
  atoi, next_token, last_token, codes, join_octets, string_to_ip, read_number, read_minion,
  read_minions, read_ips_and_ports, make_master,
}
use distributed_disk.Startup.Found.{make_master_finds}
use distributed_disk.Tests.{link_of, stream_of}

abbrev entries : List (String × String)
entries =
    ("NUM_OF_MINIONS", "2")
    ∷ ("MINION_IP_1", "127.0.0.1")
    ∷ ("MINION_PORT_1", "4001")
    ∷ ("MINION_IP_2", "127.0.0.1")
    ∷ ("MINION_PORT_2", "4002")
    ∷ []

-- A tokenizer that knows one text.
abbrev tokenizer : String → List String
tokenizer text = tokens_of entries

loopback : string_to_ip (codes "127.0.0.1") ≡ ok inaddr_loopback
unfolding string_to_ip next_token last_token join_octets atoi
loopback = refl

abbrev started : Master
started = record {
  raid = record { num_of_minions = 2 };
  manager = Minions.minion_manager ((inaddr_loopback, 4001) ∷ (inaddr_loopback, 4002) ∷ []);
  id_conter = 0;
  link = link_of [];
  stream = stream_of [];
  log = [];
}

starts : make_master entries (link_of []) (stream_of []) ≡ ok started
unfolding make_master read_ips_and_ports read_minions read_minion read_number atoi string_to_ip
    next_token last_token join_octets get_config found lookup
starts = refl

make_master_finds_example :
    (a b : ℕ) × (min1 min2 : MinionData) × (Raid.choose_minions started.raid 8192 ≡ ok (a, b))
    × (a ≢ b)
    × (Minions.get_minions_data started.manager a ≡ some min1)
    × (Minions.get_minions_data started.manager b ≡ some min2)
make_master_finds_example =
    make_master_finds entries (link_of []) (stream_of []) started 8192 starts (omega arith)
      (omega arith)
