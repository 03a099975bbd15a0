-- ===== src/Rebalance/InNuma.antt =====
-- Level 2 of src/rebalance/rebalance.c: inside a NUMA, a stream goes from one partition to another.
pub mod Given
pub mod Faults
use abtst.Common.{
  ℕ, zero, suc, ◌+◌, ◌-◌, ◌/◌, Bool, true, false, ◌&&◌, ◌||◌, not, Option, none, some, List, [],
  ◌∷◌, ltb, leb, ◌==◌, if◌then◌else◌, get_elem?, require, ◌>>=◌, ◌>>◌, add_u32,
}
use abtst.Common.Int.{is_zero_ℤ}
use abtst.Env.{numas, get_numa_stat}
use abtst.Partition.{PartitionStat, Partitions}
use abtst.Stream.{Stream, SortParam, set_partition_id, put_stream, combine_streams}
use abtst.Global.{Global, renew_partitions}
use abtst.Rebalance.Sorting.{Params, min_ios_to_start_reb, stream_at, sort_streams, sort_partitions}

-- A partition can spare a stream if its others would not be deeper than the NUMA's mean.
unfoldable pub can_spare : ℕ → PartitionStat → Bool
can_spare avg stat = ltb 1 stat.used_cores && leb (stat.qdepth / (stat.used_cores - 1)) avg

-- The first `while (from < to)`, of at most `n` rounds: the place found and the partition there.
unfoldable pub find_from : Partitions → ℕ → ℕ → List SortParam → ℕ → ℕ → Option (Option (ℕ × ℕ))
unfolding can_spare
find_from parts numa avg ps from zero = some none
find_from parts numa avg ps from (suc n) = do
  entry ← get_elem? ps from
  let rest = find_from parts numa avg ps (from + 1) n
  let spare = can_spare avg (parts.numa_stats entry.stream numa)
  if spare then some (some (from, entry.stream)) else rest

-- A partition needs a stream if it would be as deep as the mean with one more, and is deep enough.
unfoldable pub needs_stream : ℕ → PartitionStat → Option Bool
needs_stream avg stat = do
  require (not (add_u32 stat.used_cores 1 == 0))
  if not (leb avg (stat.qdepth / add_u32 stat.used_cores 1)) then some false else do
    require (not (stat.used_cores == 0))
    some (ltb min_ios_to_start_reb (stat.qdepth / stat.used_cores))

-- The second `while (from < to)`, of at most `n` rounds.
unfoldable pub find_to : Partitions → ℕ → ℕ → List SortParam → ℕ → ℕ → Option (Option ℕ)
unfolding needs_stream
find_to parts numa avg ps to zero = some none
find_to parts numa avg ps to (suc n) = do
  entry ← get_elem? ps to
  needed ← needs_stream avg (parts.numa_stats entry.stream numa)
  let rest = find_to parts numa avg ps (to - 1) n
  if needed then some (some entry.stream) else rest

-- Whether a stream runs for another partition than the one that its core is configured for.
abbrev pub is_lent : Partitions → Stream → Bool
is_lent parts stream = elim (parts.partition_map stream.rank) [
  | none ↦ true
  | some p ↦ not (stream.part_id == p)
]

-- The loop over the streams of the partition, of at most `n` rounds: the first one that is lent.
unfoldable pub find_lent : Global → Params → ℕ → ℕ → Option (Option (ℕ × ℕ))
find_lent g params i zero = some none
find_lent g params i (suc n) = do
  stream ← stream_at params i
  let rest = find_lent g params (i + 1) n
  if is_lent g.partitions (g.store.streams stream) then some (some (i, stream)) else rest

-- The stream to give away and the one that takes its loads.
unfoldable pub choose_pair : Global → Params → ℕ → Option (ℕ × ℕ)
unfolding find_lent
choose_pair g params used_cores = do
  first ← stream_at params 0
  second ← stream_at params 1
  lent ← find_lent g params 0 used_cores
  some (elim lent [
    | none ↦ (first, second)
    | some (i, stream) ↦ (stream, if leb 1 i then first else second)
  ])

-- The loads are combined and the stream changes its partition.
unfoldable pub give_stream : Global → ℕ → ℕ → ℕ → Option Global
unfolding set_partition_id
give_stream g from to to_pid = do
  (ret, s) ← combine_streams from to g.store
  let s' = put_stream from (set_partition_id (s.streams from) to_pid) s
  if is_zero_ℤ ret
      then renew_partitions (record g { store = s' })
      else some (record g { store = s })

module _ (qsort : List SortParam → List SortParam) where
  unfoldable pub shift_core : Global → ℕ → ℕ → ℕ → Option Global
  unfolding choose_pair give_stream
  shift_core g numa from_pid to_pid = elim (sort_streams qsort g (some numa) (some from_pid)) [
    | none ↦ some g
    | some params ↦ do
      (from, to) ← choose_pair g params (g.partitions.numa_stats from_pid numa).used_cores
      give_stream g from to to_pid
  ]

  unfoldable pub reb_in_numa : Global → ℕ → Option Global
  unfolding find_from find_to shift_core
  reb_in_numa g numa = do
    numa_stat ← get_numa_stat g.env numa
    let parts = g.partitions
    let avg = numa_stat.avg_qdepth
    let last = parts.nr_partitions - 1
    ps ← sort_partitions qsort parts numa
    found ← find_from parts numa avg ps 0 last
    elim found [
      | none ↦ some g
      | some (from, from_pid) ↦ do
        target ← find_to parts numa avg ps last (last - from)
        elim target [ none ↦ some g | some to_pid ↦ shift_core g numa from_pid to_pid ]
    ]

  unfoldable pub reb_each_numa : Global → List ℕ → Option Global
  unfolding reb_in_numa
  reb_each_numa g [] = some g
  reb_each_numa g (i ∷ is) = do
    numa_stat ← get_numa_stat g.env i
    g' ←
        if (numa_stat.used_cores == 0) || (numa_stat.avg_qdepth == 0)
        then some g
        else reb_in_numa g i
    reb_each_numa g' is

  unfoldable pub reb_in_numas : Global → Option Global
  unfolding reb_each_numa
  reb_in_numas g =
      if leb g.partitions.nr_partitions 1 then some g else reb_each_numa g (numas g.env)
