-- ===== src/Examples/Mappings.antt =====
-- Mappings and their loads on the example machine.
use abtst.Common.{ℕ, ◌<◌, ◌≡◌, refl, suc, zero, true, some, arith, [], ◌∷◌}
use abtst.Common.Int.{pos}
use abtst.Global.{Global}
use abtst.Stream.{Store}
use abtst.Load.Init.{Loads, init_loads, serves}
use abtst.Load.Deal.{IsWorking}
use abtst.Load.Even.{DealtEvenly, init_loads-DealtEvenly}
use abtst.Mapping.{HashInfo, UserKey, hash_func}
use abtst.Mapping.Hash.{IsUsable}
use abtst.Mapping.Table.{MappingType}
use abtst.Mapping.Create.{create_mapping}
use abtst.Mapping.Served.{IsServed, create_mapping-IsServed}
use abtst.Examples.Machine.{counting, global, store, streams}

pub counting-IsWorking : IsWorking counting
counting-IsWorking = record {
  pools = λ rt. refl;
  configs = λ load rt. refl;
  scheds = λ pool config rt. refl;
  adds = λ pool sched rt. refl;
}

-- Five loads for the two streams of the partition 0.
abbrev five_loads : Loads
five_loads = record { partition_id = 0; nr_loads = 5; loads = 0 }

ranked : (j : ℕ) → j < 4 → (streams j).rank ≡ j
ranked zero h = refl
ranked (suc zero) h = refl
ranked (suc (suc zero)) h = refl
ranked (suc (suc (suc j))) h = ground arith

zero_served : serves 0 (streams 0) ≡ true
unfolding serves
zero_served = refl

init_loads-DealtEvenly_example :
    (t : Store) × (rt' : ℕ) × (init_loads counting (some 100) 4 five_loads store 7
      ≡ some (pos 0, record five_loads { loads = 100 }, t, rt'))
    × DealtEvenly 100 4 0 5 streams t
init_loads-DealtEvenly_example =
    init_loads-DealtEvenly counting counting-IsWorking 100 4 five_loads store 7 0 ranked
      (omega arith) zero_served

-- The parameters of the demonstration program.
abbrev pub hash_info : HashInfo
hash_info = record { total_buckets = 131072; block_size = 65536; hash_fn = hash_func }

pub hash_info-IsUsable : IsUsable hash_info 64
hash_info-IsUsable = record {
  blocks = omega arith;
  buckets = omega arith;
  loads = omega arith;
  fits = omega arith;
}

create_mapping-IsServed_example :
    (g' : Global) × (rt' : ℕ) × (create_mapping counting
        (some 100)
        MappingType.hashing
        (some hash_info)
        0
        global
        7
      ≡ some (pos 0, g', rt'))
    × DealtEvenly 100 4 0 64 streams g'.store
    × ((rand : ℕ) (key : UserKey) → IsServed g' 0 0 64 rand key)
create_mapping-IsServed_example =
    create_mapping-IsServed counting counting-IsWorking 100 0 0 hash_info
      (record { partition_id = 0; partition_cores = 0 ∷ 1 ∷ [] }) global 7 (omega arith) refl
      hash_info-IsUsable ranked (omega arith) zero_served
