-- ===== src/Rebalance/InPartition/Containment.antt =====
-- That level 1 of src/rebalance/rebalance.c is defined and moves loads only inside a partition of a
-- NUMA.
use abtst.Common.{
  All-get, All-range, ℕ, ◌/◌, ◌≤◌, ◌<◌, ◌≡◌, ◌≢◌, inl, inr, refl, sym, subst, ◌∙◌, ap, true, false,
  ◌||◌, some, List, [], ◌∷◌, arith, leb, ◌==◌, length, mem, All, get_elem?, range, Bool-cases,
  u32_mod, sub_u32,
}
use abtst.Common.Int.{ℤ, pos, to_int, ◌-ℤ◌, ltb_ℤ}
use abtst.Env.{Env, numas, cores_of}
use abtst.Partition.{PartitionStat, get_partition_stat}
use abtst.Partition.Stats.{cores_used}
use abtst.Stream.{SortParam, get_sleep_time}
use abtst.Stream.Move.{IsCounted}
use abtst.Stream.Shift.{rebalance_streams-Shift}
use abtst.Global.{Global}
use abtst.Rebalance.Sorting.{IsSort, Params, ios_at, stream_at}
use abtst.Rebalance.Sorting.Entries.{IsEntry, sort_streams-some}
use abtst.Rebalance.Ready.{
  Neighbours, Contained, Contained-refl, Contained-trans, same_env, Contained-IsReady, IsReady,
  cores_used-le, short_queue, length-numa,
}
use abtst.Rebalance.InPartition.{
  reb_pair, reb_in_partition, reb_partitions_of, reb_all_numas, reb_in_partitions,
}

-- The difference of a depth to itself is below any threshold.
not_far : (a : ℤ) (n : ℕ) → 0 < n → ltb_ℤ (a -ℤ a) (pos n) ≡ true
unfolding ◌-ℤ◌
not_far a n h = ground arith

module _ (g : Global) (numa p : ℕ) (params : Params)
    (entries : All
      (IsEntry (some p) g.store.streams (cores_of (g.env.numa_info numa)))
      params.entries) where
  -- Two entries whose depths differ are of different streams.
  apart :
      (low high : SortParam)
      → IsEntry (some p) g.store.streams (cores_of (g.env.numa_info numa)) low
      → IsEntry (some p) g.store.streams (cores_of (g.env.numa_info numa)) high
      → ltb_ℤ (high.ios -ℤ low.ios) (pos 100) ≡ false
      → high.stream ≢ low.stream
  apart low high l h far e =
      let same : high.ios ≡ low.ios =
        h.depth ∙ ap (λ k. to_int (g.store.streams k).total_qdepth) e ∙ sym l.depth in
      ground (arith, not_far low.ios 100, ap (λ k. ltb_ℤ (k -ℤ low.ios) (pos 100)) same)

  ios_at-some :
      (k : ℕ) {e : SortParam} → get_elem? params.entries k ≡ some e → ios_at params k ≡ some e.ios
  unfolding ios_at
  ios_at-some k h = rw (h, ios_at)

  stream_at-some :
      (k : ℕ) {e : SortParam}
      → get_elem? params.entries k ≡ some e
      → stream_at params k ≡ some e.stream
  unfolding stream_at
  stream_at-some k h = rw (h, stream_at)

  neighbours :
      (of_numa : numa < g.env.nr_numas) (i j : SortParam)
      → IsEntry (some p) g.store.streams (cores_of (g.env.numa_info numa)) i
      → IsEntry (some p) g.store.streams (cores_of (g.env.numa_info numa)) j
      → Neighbours g i.stream j.stream
  neighbours of_numa i j vi vj = record {
    numa = numa;
    of_numa = of_numa;
    here = vi.among;
    there = vj.among;
    same_part = ground (arith, vi.chosen, vj.chosen);
    used_here = ground (arith, vi.chosen);
    used_there = ground (arith, vj.chosen);
  }

-- The kept lengths are right, and those of the NUMA's queues fit 32 bits.
record QueuesFit (g : Global) (is : List ℕ) : Type 0 where
  all_counted : (i : ℕ) → IsCounted (g.store.streams i)
  short : (i : ℕ) → mem i is ≡ true → length (g.store.streams i).load_q < u32_mod

module _ (g : Global) (numa p : ℕ) (of_numa : numa < g.env.nr_numas) (stat : PartitionStat)
    (params : Params)
    (entries : All
      (IsEntry (some p) g.store.streams (cores_of (g.env.numa_info numa)))
      params.entries)
    (full : stat.used_cores ≡ length params.entries) (some_core : 1 ≤ stat.used_cores)
    (word : stat.used_cores < u32_mod) (fit : QueuesFit g (cores_of (g.env.numa_info numa))) where
  reb_pair-Contained : (g' : Global) × (reb_pair g stat params ≡ some g') × Contained g g'
  unfolding reb_pair
  reb_pair-Contained =
      let last = sub_u32 stat.used_cores 1 in
      let (high, at_high, vh) = All-get _ params.entries last entries (omega arith) in
      let (low, at_low, vl) = All-get _ params.entries 0 entries (omega arith) in
      let high_ios = ios_at-some g numa p params entries last at_high in
      let low_ios = ios_at-some g numa p params entries 0 at_low in
      let busy = stream_at-some g numa p params entries last at_high in
      let idle = stream_at-some g numa p params entries 0 at_low in
      let nonzero : (stat.used_cores == 0) ≡ false = ground arith in
      elim (Bool-cases (ltb_ℤ (high.ios -ℤ low.ios) (pos 100))) [
        | inl near ↦ (g, rw (high_ios, low_ios, near), Contained-refl g)
        | inr far ↦ elim (Bool-cases (get_sleep_time (g.store.streams low.stream) == 0)) [
          | inl awake ↦ (g, rw (high_ios, low_ios, far, idle, awake), Contained-refl g)
          | inr asleep ↦
              let (ret, t, runs, v) =
                rebalance_streams-Shift (record { ios = low.ios; stream = low.stream })
                  (record { ios = high.ios; stream = high.stream }) (stat.qdepth / stat.used_cores)
                  g.store (apart g numa p params entries low high vl vh far)
                  (neighbours g numa p params entries of_numa high low vh vl)
                  (fit.all_counted high.stream) (fit.short high.stream vh.among) in
              (
                record g { store = t },
                rw (high_ios, low_ios, far, idle, asleep, busy, nonzero, runs),
                record { rest = refl; shift = v },
              )
        ]
      ]

module _ (qsort : List SortParam → List SortParam) (sorts : IsSort qsort) where
  -- `reb_in_partition` on a partition that runs a stream in the NUMA.
  reb_in_partition-Contained :
      (g : Global) (numa p : ℕ)
      → IsReady g
      → numa < g.env.nr_numas
      → 1 ≤ (g.partitions.numa_stats p numa).used_cores
      → (g' : Global) × (reb_in_partition qsort g numa p ≡ some g') × Contained g g'
  unfolding reb_in_partition get_partition_stat
  reb_in_partition-Contained g numa p r of_numa some_core =
      let count = r.up_to_date p numa of_numa in
      let cores = cores_of (g.env.numa_info numa) in
      let few = cores_used-le p g.store.streams cores in
      let fits = length-numa g numa r of_numa in
      let small : cores_used p g.store.streams cores < u32_mod = omega (arith, r.cores_fit) in
      let (params, runs, entries, sorted, size) =
        sort_streams-some qsort sorts g numa p of_numa (omega arith) in
      let (g', pairs, c) =
        reb_pair-Contained g numa p of_numa (g.partitions.numa_stats p numa) params entries
          (omega arith) some_core (omega arith)
          (record {
            all_counted = r.all_counted;
            short = λ i m. short_queue g numa i r of_numa m;
          }) in
      (g', rw (runs, reb_in_partition) pairs, c)

  reb_partitions_of-Contained :
      (js : List ℕ) (g : Global) (i : ℕ)
      → IsReady g
      → i < g.env.nr_numas
      → (g' : Global) × (reb_partitions_of qsort g i js ≡ some g') × Contained g g'
  unfolding reb_partitions_of get_partition_stat
  reb_partitions_of-Contained [] g i r of_numa = (g, refl, Contained-refl g)
  reb_partitions_of-Contained (j ∷ js) g i r of_numa =
      let stat = get_partition_stat g.partitions (some i) j in
      elim (Bool-cases (leb stat.used_cores 1 || (stat.qdepth == 0))) [
        | inl skip ↦
            let (g', runs, c) = reb_partitions_of-Contained js g i r of_numa in
            (g', rw skip runs, c)
        | inr busy ↦
            let (h, first, c) = reb_in_partition-Contained g i j r of_numa (ground arith) in
            let (g', runs, d) =
              reb_partitions_of-Contained js h i (Contained-IsReady c r)
                (subst (λ (e : Env). i < e.nr_numas) (sym (same_env c)) of_numa) in
            (g', rw (busy, first) runs, Contained-trans c d)
      ]

  reb_all_numas-Contained :
      (is : List ℕ) (g : Global)
      → IsReady g
      → All (λ i. i < g.env.nr_numas) is
      → (g' : Global) × (reb_all_numas qsort g is ≡ some g') × Contained g g'
  unfolding reb_all_numas
  reb_all_numas-Contained [] g r all = (g, refl, Contained-refl g)
  reb_all_numas-Contained (i ∷ is) g r all =
      let (h, first, c) =
        reb_partitions_of-Contained (range 0 g.partitions.nr_partitions) g i r all.0 in
      let (g', runs, d) =
        reb_all_numas-Contained is h (Contained-IsReady c r)
          (subst (λ (e : Env). All (λ i. i < e.nr_numas) is) (sym (same_env c)) all.1) in
      (g', rw first runs, Contained-trans c d)

  -- From a ready state, whatever sort is used, a pass of level 1 is defined, changes only streams and
  -- loads, and moves loads only between streams that one partition uses in one NUMA: each such group
  -- keeps its loads.
  pub reb_in_partitions-Contained :
      (g : Global)
      → IsReady g
      → (g' : Global) × (reb_in_partitions qsort g ≡ some g') × Contained g g'
  unfolding reb_in_partitions
  reb_in_partitions-Contained g r =
      reb_all_numas-Contained (numas g.env) g r
        (All-range g.env.nr_numas g.env.nr_numas 0 (omega arith))
