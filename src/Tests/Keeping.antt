-- ===== src/Tests/Keeping.antt =====
-- The layout of messages, the choice of minions and the storage, on examples.
use distributed_disk.Common.{ℕ, ◌<◌, ◌≡◌, ◌≢◌, refl, some, arith, nat_eq, take, replicate}
use distributed_disk.Common.Dict.{lookup, insert}
use distributed_disk.Common.Bytes.{to_le}
use distributed_disk.Common.Exec.{ok}
use distributed_disk.Raid
use distributed_disk.Raid.Choice.{choose_minions-distinct}
use distributed_disk.Storage.{Storage, empty, store, load, new_address}
use distributed_disk.Storage.Loads.{load_wrong}
use distributed_disk.Tests.{zeros, length-zeros, behind, length-behind}

abbrev three : Raid.Raid
three = record { num_of_minions = 3 }

choose_minions-distinct_example :
    (a : ℕ) × (b : ℕ) × (Raid.choose_minions three 8192 ≡ ok (a, b)) × (a < 3) × (b < 3) × (a ≢ b)
choose_minions-distinct_example = choose_minions-distinct three 8192 (omega arith) (omega arith)

abbrev one_block : Storage
one_block = (store zeros 8192 empty).1

key_there : lookup 8192 one_block.map ≡ some 1
unfolding store lookup insert new_address
key_there = refl

not_its_address : take 8 zeros ≢ to_le 8 1
unfolding take replicate to_le
not_its_address e = ground arith

load_wrong_example : (load behind zeros 8192 one_block).1 ≢ zeros
load_wrong_example =
    load_wrong behind zeros 8192 one_block 1 zeros key_there length-zeros length-behind
      not_its_address
