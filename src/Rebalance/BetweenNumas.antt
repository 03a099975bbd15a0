-- ===== src/Rebalance/BetweenNumas.antt =====
-- Level 3 of src/rebalance/rebalance.c: loads move between the streams of a partition in two NUMAs.
use abtst.Common.{
  ℕ, zero, suc, ◌-◌, ◌/◌, ◌+◌, Bool, true, ◌&&◌, ◌||◌, Option, none, some, List, [], ◌∷◌, ltb, leb,
  ◌==◌, if◌then◌else◌, length, get_elem?, range, ◌>>=◌, add_u32, sub_u32, mul_u32,
}
use abtst.Common.Int.{ℤ, pos, ltb_ℤ, to_int, to_u32}
use abtst.Env.{NumaStat, get_numa_stat, get_average_qdepth}
use abtst.Partition.{PartitionStat, Partitions, get_partition_stat}
use abtst.Stream.{Store, SortParam, get_qdepth, combine_streams}
use abtst.Global.{Global, renew_partitions, renew_numas}
use abtst.Rebalance.Sorting.{Params, min_ios_to_start_reb, stream_at, sort_streams, sort_numas}

-- One round of the search for the partition whose depths in the two NUMAs differ most.
unfoldable pub widen : PartitionStat → PartitionStat → ℕ → Option ℕ × ℤ → Option ℕ × ℤ
widen from_pstat to_pstat i (part_id, max) =
    let count = to_int (from_pstat.qdepth - to_pstat.qdepth) in
    if (from_pstat.used_cores == 0)
      || (to_pstat.used_cores == 0)
      || leb from_pstat.qdepth to_pstat.qdepth
    then (part_id, max)
    else if ltb_ℤ max count
    then (some i, count)
    else (part_id, max)

-- `none` is the partition -1: nothing found.
unfoldable pub find_widest : Partitions → ℕ → ℕ → List ℕ → Option ℕ × ℤ → Option ℕ × ℤ
unfolding widen
find_widest parts from to [] best = best
find_widest parts from to (i ∷ is) best =
    find_widest parts from to is
      (widen (get_partition_stat parts (some from) i) (get_partition_stat parts (some to) i) i best)

-- Whether a stream is skipped: it is empty, or its depth does not fit what is still to migrate.
abbrev pub is_skipped : ℕ → ℕ → ℕ → Bool
is_skipped limit count qdepth = (qdepth == 0) || ltb limit (add_u32 count qdepth)

-- The loop from the deepest stream down, over the first `n` entries. The result of
-- abtst_combine_streams is not looked at.
unfoldable pub migrate : ℕ → Params → Params → ℕ → ℕ → Store → Option Store
migrate limit params_from params_to count zero s = some s
migrate limit params_from params_to count (suc i) s = do
  stream ← stream_at params_from i
  let qdepth = get_qdepth (s.streams stream)
  let skip = migrate limit params_from params_to count i s
  if is_skipped limit count qdepth then skip else do
    target ← stream_at params_to 0
    (ret, s') ← combine_streams stream target s
    migrate limit params_from params_to (add_u32 count qdepth) i s'

-- `min(ios_to_migrate, max / 2)`, compared as unsigned numbers; `max` is positive.
abbrev pub migrate_limit : ℕ → ℤ → ℕ
migrate_limit ios max = if ltb ios (to_u32 max / 2) then ios else to_u32 max / 2

-- The search for the NUMA to move to, of at most `n` rounds: the place found and the NUMA there.
unfoldable pub find_to_numa : Global → ℕ → List SortParam → ℕ → ℕ → Option (Option (ℕ × ℕ))
find_to_numa g avg ps to zero = some none
find_to_numa g avg ps to (suc n) = do
  entry ← get_elem? ps to
  stat ← get_numa_stat g.env entry.stream
  let rest = find_to_numa g avg ps (to + 1) n
  if ltb 0 stat.used_cores && ltb stat.avg_qdepth avg then some (some (to, entry.stream)) else rest

-- A NUMA gives loads away at twice the mean depth, if it is deep enough.
abbrev pub is_overloaded : ℕ → NumaStat → Bool
is_overloaded avg stat =
    ltb 0 stat.used_cores
    && leb (mul_u32 2 avg) stat.avg_qdepth
    && ltb (mul_u32 2 min_ios_to_start_reb) stat.avg_qdepth

unfoldable pub find_from_numa : Global → ℕ → List SortParam → ℕ → ℕ → Option (Option ℕ)
find_from_numa g avg ps from zero = some none
find_from_numa g avg ps from (suc n) = do
  entry ← get_elem? ps from
  stat ← get_numa_stat g.env entry.stream
  let rest = find_from_numa g avg ps (from - 1) n
  if is_overloaded avg stat then some (some entry.stream) else rest

module _ (qsort : List SortParam → List SortParam) where
  unfoldable pub migrate_partition : Global → ℕ → ℕ → ℕ → ℕ → Option Global
  unfolding migrate
  migrate_partition g from to part limit = elim (sort_streams qsort g (some from) (some part)) [
    | none ↦ some g
    | some params_from ↦ elim (sort_streams qsort g (some to) (some part)) [
      | none ↦ some g
      | some params_to ↦ do
        let used_cores = (get_partition_stat g.partitions (some from) part).used_cores
        s ← migrate limit params_from params_to 0 used_cores g.store
        counted ← renew_partitions (record g { store = s })
        renew_numas counted
    ]
  ]

  unfoldable pub reb_between : Global → ℕ → ℕ → ℕ → Option Global
  unfolding find_widest migrate_partition
  reb_between g from to avg = do
    to_nstat ← get_numa_stat g.env to
    let ios_to_migrate = mul_u32 (sub_u32 avg to_nstat.avg_qdepth) to_nstat.used_cores
    let (part_id, max) =
        find_widest g.partitions from to (range 0 g.partitions.nr_partitions) (none, pos 0)
    elim part_id [
      | none ↦ some g
      | some part ↦ migrate_partition g from to part (migrate_limit ios_to_migrate max)
    ]

  unfoldable pub reb_between_numas : Global → Option Global
  unfolding find_to_numa find_from_numa reb_between
  reb_between_numas g =
      let avg = get_average_qdepth g.env in
      let ps = sort_numas qsort true true g in
      let last = length ps - 1 in
      if leb (length ps) 1 then some g else do
        found ← find_to_numa g avg ps 0 last
        elim found [
          | none ↦ some g
          | some (to, to_numa) ↦ do
            source ← find_from_numa g avg ps last (last - to)
            elim source [ none ↦ some g | some from_numa ↦ reb_between g from_numa to_numa avg ]
        ]
