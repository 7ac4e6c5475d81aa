-- ===== src/Minions.antt =====
-- minion_data/minion_data.cpp and minion_manager/minion_manager.cpp: where the minions are.
use distributed_disk.Common.{
  ℕ, suc, ◌%◌, ◌^◌, ◌<◌, ◌≡◌, refl, ap, Option, some, List, [], ◌∷◌, arith, map, length, get_elem?,
  get_elem?-lt,
}

pub record MinionData : Type 0 where
  pub ip : ℕ
  pub port : ℕ

-- MinionData::MinionData: in_addr_t has 32 bits, in_port_t 16.
unfoldable pub minion_data : ℕ × ℕ → MinionData
minion_data pair = record { ip = pair.0 % 2 ^ 32; port = pair.1 % 2 ^ 16 }

pub record MinionManager : Type 0 where
  pub num_of_minions : ℕ
  pub minions_data : List MinionData

-- MinionManager::MinionManager
unfoldable pub minion_manager : List (ℕ × ℕ) → MinionManager
unfolding minion_data
minion_manager minions = record {
  num_of_minions = length minions;
  minions_data = map minion_data minions;
}

-- MinionManager::GetMinionsData: `none` is an index outside the vector, where the program is
-- undefined.
unfoldable pub get_minions_data : MinionManager → ℕ → Option MinionData
get_minions_data manager minion = get_elem? manager.minions_data minion

length-map : (minions : List (ℕ × ℕ)) → length (map minion_data minions) ≡ length minions
length-map [] = refl
length-map (x ∷ xs) = ap suc (length-map xs)

-- Every index below the number of minions has its data.
pub get_minions_data-lt :
    (minions : List (ℕ × ℕ)) (minion : ℕ)
    → minion < length minions
    → (d : MinionData) × (get_minions_data (minion_manager minions) minion ≡ some d)
unfolding get_minions_data minion_manager
get_minions_data-lt minions minion h =
    get_elem?-lt (map minion_data minions) minion (omega (arith, length-map minions))
