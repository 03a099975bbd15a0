-- ===== src/App/Serving.antt =====
-- The library started, and a mapping made: the beginning of src/app/main.c.
use abtst.Common.{
  ℕ, ◌<◌, ◌≡◌, sym, subst, ap, ◌∙◌, true, Option, some, List, arith, get_elem?, length, mul_u32,
}
use abtst.Common.Int.{pos}
use abtst.Abt.{Abt}
use abtst.Env.{Env, init_env}
use abtst.Global.{Global}
use abtst.Load.{loads_per_xstream}
use abtst.Load.Init.{serves}
use abtst.Load.Deal.{IsWorking}
use abtst.Mapping.{UserKey, HashInfo, max_mappings}
use abtst.Mapping.Hash.{IsUsable}
use abtst.Mapping.Table.{MappingType}
use abtst.Mapping.Create.{create_mapping}
use abtst.Mapping.Served.{IsServed, create_mapping-IsServed}
use abtst.Partition.{Partition, Partitions, init_partitions}
use abtst.Stream.Lifecycle.{Streams}
use abtst.App.{System, params_of, init_global}
use abtst.App.Started.{MakesStreams, init_global-Configured}

-- Where no call of Argobots fails, the partitions are set up without an error, the partition is one
-- of them and has a core, the hash parameters are usable for 32 loads per core of it, and a mapping's
-- number is free: after the library is started and the mapping created, every key has a load, which
-- runs on a stream of that partition.
pub init_global-IsServed :
    (abt : Abt) (makes : MakesStreams abt) (works : IsWorking abt) (system : System)
    (params : Option (List Partition)) (streams : Streams) (g : Global) (rt : abt.Runtime)
    (env : Env) (parts : Partitions) (base partid k : ℕ) (info : HashInfo) (partition : Partition)
    → system.map_allocated ≡ true
    → system.streams_allocated ≡ true
    → init_env system.cores system.nodes system.cpus g.env ≡ some env
    → init_partitions true env (params_of params) g.partitions ≡ some (pos 0, parts)
    → get_elem? parts.partitions partid ≡ some partition
    → parts.partition_map k ≡ some partid
    → k < env.nr_cores
    → IsUsable info (mul_u32 (length partition.partition_cores) loads_per_xstream)
    → g.mappings.nr_mappings < max_mappings
    → (streams' : Streams) × (g1 : Global) × (rt1 : abt.Runtime) × (g2 : Global)
      × (rt2 : abt.Runtime) × (init_global abt system params streams g rt
          ≡ some (pos 0, streams', g1, rt1))
      × (create_mapping abt (some base) MappingType.hashing (some info) partid g1 rt1
          ≡ some (pos g1.mappings.nr_mappings, g2, rt2))
      × ((rand : ℕ) (key : UserKey)
          → IsServed g2 g1.mappings.nr_mappings partid
              (mul_u32 (length partition.partition_cores) loads_per_xstream)
              rand
              key)
unfolding serves
init_global-IsServed abt makes works system params streams g rt env parts base partid k info
      partition map_ok streams_ok env_ok parts_ok has owns lt usable free =
    let (streams', g1, rt1, runs, max, kept, v, same) =
      init_global-Configured abt makes system params streams g rt env parts (pos 0) map_ok
        streams_ok env_ok parts_ok in
    let own = (v k lt).owned partid owns in
    let hit : serves partid (g1.store.streams k) ≡ true = rw (own.0, own.1) (ground arith) in
    let (g2, rt2, made, even, served) =
      create_mapping-IsServed abt works base partid k info partition g1 rt1
        (subst (λ (m : ℕ). m < max_mappings) (sym same) free)
        (ap (λ (p : Partitions). get_elem? p.partitions partid) kept ∙ has) usable
        (λ j h. (v j (subst (λ (n : ℕ). j < n) max h)).rank) (subst (λ (n : ℕ). k < n) (sym max) lt)
        hit in
    (streams', g1, rt1, g2, rt2, runs, made, served)
