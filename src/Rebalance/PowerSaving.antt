-- ===== src/Rebalance/PowerSaving.antt =====
-- abtst_reb_power_saving and reb_combine_numas (src/rebalance/rebalance.c): NUMAs are emptied to save
-- power, and woken.
use abtst.Common.{
  ℕ, Bool, true, false, not, ◌&&◌, Option, none, some, List, [], ◌∷◌, leb, ◌==◌, if◌then◌else◌,
  length, get_elem?, range, reverse, ◌>>=◌,
}
use abtst.Common.Int.{ℤ, pos, negsuc, ltb_ℤ, is_zero_ℤ}
use abtst.Common.Store.{Array, write}
use abtst.Env.{cores_of, numas, get_numa_info, get_numa_stat}
use abtst.Load.Init.{first_stream}
use abtst.Partition.{get_partition_stat}
use abtst.Power.{
  is_power_saving_enabled, get_numas_in_ps_state, is_numa_in_ps_state, set_numa_ps_state,
  estimate_ps_numas,
}
use abtst.Stream.{Store, SortParam, combine_streams}
use abtst.Global.{Global, renew_partitions, renew_numas, renew_power}
use abtst.Rebalance.Sorting.{sort_numas}

-- The first other NUMA that is awake and runs the partition; `none` is -1.
unfoldable pub find_host : Global → ℕ → ℕ → List ℕ → Option ℕ
find_host g numa part [] = none
find_host g numa part (j ∷ js) =
    if not (j == numa)
      && not (is_numa_in_ps_state j g.power)
      && not ((get_partition_stat g.partitions (some j) part).used_cores == 0)
    then some j
    else find_host g numa part js

-- Writing `to_cores[i]`, which keeps its value if the NUMA has no stream of the partition.
abbrev pub note_core : ℕ → Option ℕ → Array (Option ℕ) → Array (Option ℕ)
note_core i none to_cores = to_cores
note_core i (some k) to_cores = write to_cores i (some k)

-- The first loop: the cores that the partitions' loads go to, `none` where not initialised. The
-- inner `none` is the return of -1.
unfoldable pub find_cores :
    Global → ℕ → List ℕ → Array (Option ℕ) → Option (Option (Array (Option ℕ)))
unfolding find_host first_stream
find_cores g numa [] to_cores = some (some to_cores)
find_cores g numa (i ∷ is) to_cores =
    let rest = find_cores g numa is to_cores in
    if (get_partition_stat g.partitions (some numa) i).used_cores == 0
    then rest
    else elim (find_host g numa i (numas g.env)) [
      | none ↦ some none
      | some to_numa ↦ do
        to_info ← get_numa_info g.env to_numa
        let core = first_stream i g.store.streams (cores_of to_info)
        find_cores g numa is (note_core i core to_cores)
    ]

-- The second loop. Reading an entry of `to_cores` that is not initialised is undefined.
unfoldable pub empty_cores : Array (Option ℕ) → List ℕ → Store → Option (ℤ × Store)
empty_cores to_cores [] s = some (pos 0, s)
empty_cores to_cores (i ∷ is) s = if not (s.streams i).used then empty_cores to_cores is s else do
  to_core ← to_cores (s.streams i).part_id
  (ret, s') ← combine_streams i to_core s
  if is_zero_ℤ ret then empty_cores to_cores is s' else some (negsuc 0, s')

abbrev with_store : Global → ℤ × Store → ℤ × Global
with_store g (ret, s) = (ret, record g { store = s })

unfoldable pub combine_numas : Global → ℕ → Option (ℤ × Global)
unfolding find_cores empty_cores
combine_numas g numa = do
  info ← get_numa_info g.env numa
  stat ← get_numa_stat g.env numa
  let parts = range 0 g.partitions.nr_partitions
  if stat.used_cores == 0 then some (pos 0, g) else do
    found ← find_cores g numa parts (λ _. none)
    elim found [
      | none ↦ some (negsuc 0, g)
      | some to_cores ↦ do
        result ← empty_cores to_cores (cores_of info) g.store
        some (with_store g result)
    ]

abbrev pub set_state : ℕ → Bool → Global → Global
set_state numa state g = record g { power = set_numa_ps_state numa state g.power }

-- The NUMA to put to sleep: the first of the list, but not NUMA 0.
unfoldable pub to_rest : List SortParam → Option ℕ
to_rest ps = do
  first ← get_elem? ps 0
  if first.stream == 0 then (get_elem? ps 1 >>= λ second. some second.stream) else some first.stream

-- The branch that puts a NUMA to sleep.
unfoldable pub rest_numa : Global → ℕ → Option Global
unfolding combine_numas set_numa_ps_state
rest_numa g from_numa = do
  (ret, g') ← combine_numas g from_numa
  let h = if is_zero_ℤ ret then set_state from_numa true g' else g'
  counted ← renew_partitions h
  k ← renew_numas counted
  renew_power k

-- The loop of the branch that wakes a NUMA, over the entries from the last one on.
unfoldable pub wake_numa : Global → List SortParam → Global
unfolding set_numa_ps_state
wake_numa g [] = g
wake_numa g (p ∷ ps) =
    if is_numa_in_ps_state p.stream g.power then set_state p.stream false g else wake_numa g ps

module _ (qsort : List SortParam → List SortParam) where
  unfoldable pub reb_power_saving : Global → Option Global
  unfolding to_rest rest_numa wake_numa
  reb_power_saving g =
      let num = pos (estimate_ps_numas g.env g.power) in
      let awake = sort_numas qsort false true g in
      let all = sort_numas qsort false false g in
      if not (is_power_saving_enabled g.power)
      then some g
      else if ltb_ℤ (get_numas_in_ps_state g.power) num
      then (if leb (length awake) 1 then some g else to_rest awake >>= rest_numa g)
      else if ltb_ℤ num (get_numas_in_ps_state g.power)
      then (if leb (length all) 1 then some g else some (wake_numa g (reverse all)))
      else some g
