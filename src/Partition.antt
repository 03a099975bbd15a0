-- ===== src/Partition.antt =====
-- include/partition.h and src/partition/partition.c: which partition owns a core, and how many
-- cores and how much depth each partition has, in all and in each NUMA.
pub mod Map
pub mod Room
pub mod Stats
use abtst.Common.{
  ℕ, suc, ◌+◌, Bool, true, false, Option, none, some, List, [], ◌∷◌, ltb, ◌==◌, if◌then◌else◌,
  add_u32, require, ◌>>=◌, ◌>>◌, length, ◌&&◌, not,
}
use abtst.Common.Int.{ℤ, pos, negsuc}
use abtst.Common.Store.{Array, write}
use abtst.Env.{Env, Numa, cores_of, numas, max_numas}
use abtst.Stream.{Stream, Store, get_qdepth}

-- MAX_PARTITIONS, the room for partitions in the arrays of statistics.
abbrev pub max_partitions : ℕ
max_partitions = 8

pub record PartitionStat : Type 0 where
  pub used_cores : ℕ
  pub qdepth : ℕ

-- The `nr_cores` of the C struct is the length of the list.
pub record Partition : Type 0 where
  pub partition_id : ℕ
  pub partition_cores : List ℕ

-- `none` in `partition_map` is the negative number that stands for no partition.
pub record Partitions : Type 0 where
  pub nr_partitions : ℕ
  pub partitions : List Partition
  pub partition_map : Array (Option ℕ)
  pub numa_stats : ℕ → ℕ → PartitionStat
  pub stats : ℕ → PartitionStat

abbrev pub no_stat : PartitionStat
no_stat = record { used_cores = 0; qdepth = 0 }

-- `none` in place of `numa_id` is a negative one: the statistics over all NUMAs.
unfoldable pub get_partition_stat : Partitions → Option ℕ → ℕ → PartitionStat
get_partition_stat parts none p_id = parts.stats p_id
get_partition_stat parts (some numa_id) p_id = parts.numa_stats p_id numa_id

-- The inner loop of abtst_init_partitions, over the cores of one partition; `false` is its error
-- return. The map has `nr_cores` entries: a write beyond them is undefined.
unfoldable pub claim_cores : ℕ → ℕ → List ℕ → Array (Option ℕ) → Option (Bool × Array (Option ℕ))
claim_cores nr_cores id [] map = some (true, map)
claim_cores nr_cores id (core ∷ cores) map =
    let rest = claim_cores nr_cores id cores (write map core (some id)) in
    require (ltb core nr_cores) >> elim (map core) [ some _ ↦ some (false, map) | none ↦ rest ]

-- The outer loop.
unfoldable pub claim_all : ℕ → List Partition → Array (Option ℕ) → Option (Bool × Array (Option ℕ))
unfolding claim_cores
claim_all nr_cores [] map = some (true, map)
claim_all nr_cores (part ∷ parts) map = do
  (through, map') ← claim_cores nr_cores part.partition_id part.partition_cores map
  if through then claim_all nr_cores parts map' else some (false, map')

-- `allocated` says whether the map could be allocated.
unfoldable pub init_partitions : Bool → Env → List Partition → Partitions → Option (ℤ × Partitions)
unfolding claim_all
init_partitions false env init parts =
    some (negsuc 0, record parts { nr_partitions = length init; partitions = init })
init_partitions true env init parts = do
  (through, map) ← claim_all env.nr_cores init (λ _. none)
  let parts' = record parts { nr_partitions = length init; partitions = init; partition_map = map }
  some (if through then pos 0 else negsuc 0, parts')

unfoldable pub reset_partition_stats : Partitions → Partitions
reset_partition_stats parts = record parts { numa_stats = λ p i. no_stat; stats = λ p. no_stat }

abbrev pub add_stream : Stream → PartitionStat → PartitionStat
add_stream stream stat = record {
  used_cores = add_u32 stat.used_cores 1;
  qdepth = add_u32 stat.qdepth stream.total_qdepth;
}

-- The statistics with a stream in the NUMA `i` counted.
abbrev pub with_stream : ℕ → Stream → Partitions → Partitions
with_stream i stream parts = record parts {
  numa_stats = λ p k.
      if (p == stream.part_id) && (k == i)
      then add_stream stream (parts.numa_stats p k)
      else parts.numa_stats p k;
  stats = λ p. if p == stream.part_id then add_stream stream (parts.stats p) else parts.stats p;
}

-- One round of the inner loop, for a stream in the NUMA `i`. A write beyond the arrays of statistics is
-- undefined.
unfoldable pub count_stream : ℕ → Stream → Partitions → Option Partitions
count_stream i stream parts = if not stream.used then some parts else do
  require (ltb stream.part_id max_partitions)
  require (ltb i max_numas)
  some (with_stream i stream parts)

unfoldable pub count_cores : ℕ → Array Stream → List ℕ → Partitions → Option Partitions
unfolding count_stream
count_cores i streams [] parts = some parts
count_cores i streams (j ∷ js) parts = do
  parts' ← count_stream i (streams j) parts
  count_cores i streams js parts'

unfoldable pub count_numas : Array Numa → Array Stream → List ℕ → Partitions → Option Partitions
unfolding count_cores
count_numas info streams [] parts = some parts
count_numas info streams (i ∷ is) parts = do
  parts' ← count_cores i streams (cores_of (info i)) parts
  count_numas info streams is parts'

unfoldable pub update_partition_stats : Env → Store → Partitions → Option Partitions
unfolding count_numas reset_partition_stats
update_partition_stats env s parts =
    count_numas env.numa_info s.streams (numas env) (reset_partition_stats parts)
