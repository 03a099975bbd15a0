-- ===== src/Rebalance/InNuma/Faults.antt =====
-- Where sort_partitions (src/rebalance/rebalance.c) divides by zero.
use abtst.Common.{
  ℕ, ◌<◌, ◌≡◌, refl, true, false, none, List, [], ◌∷◌, arith, ◌==◌, mem, mem-range, range,
  Bool-cases, inl, inr, leb,
}
use abtst.Partition.{Partitions}
use abtst.Env.{get_numa_stat}
use abtst.Stream.{SortParam}
use abtst.Global.{Global}
use abtst.Rebalance.Sorting.{partition_ios, list_partitions, sort_partitions}
use abtst.Rebalance.InNuma.{reb_in_numa}

module _ (qsort : List SortParam → List SortParam) where
  list_partitions-idle :
      (parts : Partitions) (numa p : ℕ) (is : List ℕ)
      → (parts.numa_stats p numa).used_cores ≡ 0
      → mem p is ≡ true
      → list_partitions qsort parts numa is ≡ none
  unfolding list_partitions partition_ios
  list_partitions-idle parts numa p [] idle m = absurd (ground arith)
  list_partitions-idle parts numa p (i ∷ is) idle m = elim (Bool-cases (p == i)) [
    | inl here ↦ let e : p ≡ i = ground arith in rw (rw e at idle) refl
    | inr there ↦ ground (arith, list_partitions-idle parts numa p is idle)
  ]

  -- Level 2 on a NUMA of the machine in which a partition has no stream in use is a division by
  -- zero.
  pub reb_in_numa_idle :
      (g : Global) (numa p : ℕ)
      → numa < g.env.nr_numas
      → p < g.partitions.nr_partitions
      → (g.partitions.numa_stats p numa).used_cores ≡ 0
      → reb_in_numa qsort g numa ≡ none
  unfolding reb_in_numa sort_partitions get_numa_stat
  reb_in_numa_idle g numa p lt of_parts idle =
      let fault =
        list_partitions-idle g.partitions numa p (range 0 g.partitions.nr_partitions) idle
          (mem-range p g.partitions.nr_partitions 0 (omega arith) (omega arith)) in
      let inside : leb g.env.nr_numas numa ≡ false = ground arith in rw (inside, fault) refl
