-- ===== src/Rebalance/InPartition.antt =====
-- Level 1 of src/rebalance/rebalance.c: loads move inside a partition of a NUMA.
pub mod Containment
use abtst.Common.{
  ℕ, ◌/◌, ◌||◌, not, Option, none, some, List, [], ◌∷◌, leb, ◌==◌, if◌then◌else◌, range, require,
  ◌>>=◌, ◌>>◌, sub_u32,
}
use abtst.Common.Int.{ℤ, pos, ◌-ℤ◌, ltb_ℤ}
use abtst.Env.{numas}
use abtst.Partition.{PartitionStat, get_partition_stat}
use abtst.Stream.{Store, SortParam, get_sleep_time, rebalance_streams}
use abtst.Global.{Global}
use abtst.Rebalance.Sorting.{Params, min_ios_to_start_reb, ios_at, stream_at, sort_streams}

abbrev set_store : Global → ℤ × Store → Global
set_store g (ret, s) = record g { store = s }

-- What follows the sorting: `last` is the index `used_cores - 1` of the busiest stream.
unfoldable pub reb_pair : Global → PartitionStat → Params → Option Global
reb_pair g stat params = do
  let last = sub_u32 stat.used_cores 1
  high ← ios_at params last
  low ← ios_at params 0
  if ltb_ℤ (high -ℤ low) (pos min_ios_to_start_reb) then some g else do
    idle ← stream_at params 0
    if get_sleep_time (g.store.streams idle) == 0 then some g else do
      busy ← stream_at params last
      require (not (stat.used_cores == 0))
      let p1 : SortParam = record { ios = low; stream = idle }
      let p2 : SortParam = record { ios = high; stream = busy }
      result ← rebalance_streams p1 p2 (stat.qdepth / stat.used_cores) g.store
      some (set_store g result)

module _ (qsort : List SortParam → List SortParam) where
  -- The loop of reb_in_partition makes one round.
  unfoldable pub reb_in_partition : Global → ℕ → ℕ → Option Global
  unfolding reb_pair
  reb_in_partition g numa part = elim (sort_streams qsort g (some numa) (some part)) [
    | none ↦ some g
    | some params ↦ reb_pair g (get_partition_stat g.partitions (some numa) part) params
  ]

  unfoldable pub reb_partitions_of : Global → ℕ → List ℕ → Option Global
  unfolding reb_in_partition
  reb_partitions_of g i [] = some g
  reb_partitions_of g i (j ∷ js) =
      let stat = get_partition_stat g.partitions (some i) j in
      (if leb stat.used_cores 1 || (stat.qdepth == 0) then some g else reb_in_partition g i j)
      >>= λ g'. reb_partitions_of g' i js

  unfoldable pub reb_all_numas : Global → List ℕ → Option Global
  unfolding reb_partitions_of
  reb_all_numas g [] = some g
  reb_all_numas g (i ∷ is) =
      reb_partitions_of g i (range 0 g.partitions.nr_partitions) >>= λ g'. reb_all_numas g' is

  unfoldable pub reb_in_partitions : Global → Option Global
  unfolding reb_all_numas
  reb_in_partitions g = reb_all_numas g (numas g.env)
