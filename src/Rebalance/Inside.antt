-- ===== src/Rebalance/Inside.antt =====
-- Levels 1 and 2 of src/rebalance/rebalance.c do nothing but the steps of Stream/Steps.
use abtst.Common.{
  ℕ, ◌-◌, ◌/◌, ◌≡◌, sym, ap, subst, not, ◌||◌, some, List, [], ◌∷◌, leb, ◌==◌, if◌then◌else◌, range,
  require, >>=-eq-some, Bool-cases, Option-cases, inl, inr, sub_u32,
}
use abtst.Common.Int.{pos, ◌-ℤ◌, ltb_ℤ, is_zero_ℤ}
use abtst.Env.{numas, get_numa_stat}
use abtst.Partition.{PartitionStat, get_partition_stat}
use abtst.Partition.{update_partition_stats}
use abtst.Stream.{
  SortParam, get_sleep_time, set_partition_id, put_stream, combine_streams, rebalance_streams,
}
use abtst.Stream.Steps.{Step, Steps, trans-Steps, combine_streams-Steps, rebalance_streams-Steps}
use abtst.Global.{Global, renew_partitions}
use abtst.Rebalance.Sorting.{
  Params, min_ios_to_start_reb, ios_at, stream_at, sort_streams, sort_partitions,
}
use abtst.Rebalance.InPartition.{
  reb_pair, reb_in_partition, reb_partitions_of, reb_all_numas, reb_in_partitions,
}
use abtst.Rebalance.InNuma.{
  choose_pair, find_from, find_to, give_stream, shift_core, reb_in_numa, reb_each_numa,
  reb_in_numas,
}

-- The streams and loads of one state come from those of another by steps.
abbrev pub Moves : Global → Global → Type 0
Moves g g' = Steps g.store g'.store

pub stay : (g g' : Global) → some g ≡ some g' → Moves g g'
stay g g' h = let e : g ≡ g' = cc in subst (Moves g) e (Steps.none g.store)

pub same_store : (g g' : Global) → g'.store ≡ g.store → Moves g g'
same_store g g' e = subst (Steps g.store) (sym e) (Steps.none g.store)

reb_pair-Moves :
    (g g' : Global) (stat : PartitionStat) (params : Params)
    → reb_pair g stat params ≡ some g'
    → Moves g g'
unfolding reb_pair
reb_pair-Moves g g' stat params h =
    let (high, e1, h1) = >>=-eq-some (ios_at params (sub_u32 stat.used_cores 1)) _ h in
    let (low, e2, h2) = >>=-eq-some (ios_at params 0) _ h1 in
    elim (Bool-cases (ltb_ℤ (high -ℤ low) (pos min_ios_to_start_reb))) [
      | inl even ↦ stay g g' (rw even at h2)
      | inr uneven ↦
          let (idle, e3, h3) = >>=-eq-some (stream_at params 0) _ (rw uneven at h2) in
          elim (Bool-cases (get_sleep_time (g.store.streams idle) == 0)) [
            | inl busy ↦ stay g g' (rw busy at h3)
            | inr slept ↦
                let (busy, e4, h4) =
                  >>=-eq-some (stream_at params (sub_u32 stat.used_cores 1)) _ (rw slept at h3) in
                let (_, e5, h5) = >>=-eq-some (require (not (stat.used_cores == 0))) _ h4 in
                let ((ret, s), e6, h6) =
                  >>=-eq-some
                    (rebalance_streams (record { ios = low; stream = idle })
                      (record { ios = high; stream = busy }) (stat.qdepth / stat.used_cores)
                      g.store)
                    _ h5 in
                let e : s ≡ g'.store =
                  ap (λ (o : Global). o.store) (let e' : record g { store = s } ≡ g' = cc in e') in
                subst (Steps g.store) e (
                  rebalance_streams-Steps (record { ios = low; stream = idle })
                    (record { ios = high; stream = busy }) (stat.qdepth / stat.used_cores) g.store s
                    ret e6)
          ]
    ]

module _ (qsort : List SortParam → List SortParam) where
  reb_in_partition-Moves :
      (g g' : Global) (numa part : ℕ) → reb_in_partition qsort g numa part ≡ some g' → Moves g g'
  unfolding reb_in_partition
  reb_in_partition-Moves g g' numa part h =
      elim (Option-cases (sort_streams qsort g (some numa) (some part))) [
        | inl nothing ↦ stay g g' (rw (reb_in_partition, nothing) at h)
        | inr (params, e) ↦ reb_pair-Moves g g' _ params (rw (reb_in_partition, e) at h)
      ]

  reb_partitions_of-Moves :
      (i : ℕ) (js : List ℕ) (g g' : Global) → reb_partitions_of qsort g i js ≡ some g' → Moves g g'
  unfolding reb_partitions_of
  reb_partitions_of-Moves i [] g g' h = stay g g' h
  reb_partitions_of-Moves i (j ∷ js) g g' h =
      let stat = get_partition_stat g.partitions (some i) j in
      let (m, first, rest) =
        >>=-eq-some
          (if leb stat.used_cores 1 || (stat.qdepth == 0)
            then some g
            else reb_in_partition qsort g i j)
          _ h in
      let one : Moves g m = elim (Bool-cases (leb stat.used_cores 1 || (stat.qdepth == 0))) [
        | inl skip ↦ stay g m (rw skip at first)
        | inr go ↦ reb_in_partition-Moves g m i j (rw go at first)
      ] in
      trans-Steps one (reb_partitions_of-Moves i js m g' rest)

  reb_all_numas-Moves :
      (is : List ℕ) (g g' : Global) → reb_all_numas qsort g is ≡ some g' → Moves g g'
  unfolding reb_all_numas
  reb_all_numas-Moves [] g g' h = stay g g' h
  reb_all_numas-Moves (i ∷ is) g g' h =
      let (m, first, rest) =
        >>=-eq-some (reb_partitions_of qsort g i (range 0 g.partitions.nr_partitions)) _ h in
      trans-Steps (reb_partitions_of-Moves i (range 0 g.partitions.nr_partitions) g m first)
        (reb_all_numas-Moves is m g' rest)

  pub reb_in_partitions-Moves : (g g' : Global) → reb_in_partitions qsort g ≡ some g' → Moves g g'
  unfolding reb_in_partitions
  reb_in_partitions-Moves g g' h = reb_all_numas-Moves (numas g.env) g g' h

pub renew_partitions-Moves : (g g' : Global) → renew_partitions g ≡ some g' → Moves g g'
unfolding renew_partitions
renew_partitions-Moves g g' h =
    let (parts, _, rest) = >>=-eq-some (update_partition_stats g.env g.store g.partitions) _ h in
    let e : record g { partitions = parts } ≡ g' = cc in
    same_store g g' (ap (λ (o : Global). o.store) (sym e))

give_stream-Moves :
    (g g' : Global) (from to to_pid : ℕ) → give_stream g from to to_pid ≡ some g' → Moves g g'
unfolding give_stream
give_stream-Moves g g' from to to_pid h =
    let ((ret, s), e, rest) = >>=-eq-some (combine_streams from to g.store) _ h in
    let combined = combine_streams-Steps from to g.store s ret e in
    let s' = put_stream from (set_partition_id (s.streams from) to_pid) s in
    elim (Bool-cases (is_zero_ℤ ret)) [
      | inl given ↦
          trans-Steps (Steps.then g.store s s' combined (Step.lent from to_pid s))
            (renew_partitions-Moves (record g { store = s' }) g' (rw given at rest))
      | inr failed ↦
          let e' : record g { store = s } ≡ g' = let h' = rw failed at rest in cc in
          subst (Steps g.store) (ap (λ (o : Global). o.store) e') combined
    ]

module _ (qsort : List SortParam → List SortParam) where
  shift_core-Moves :
      (g g' : Global) (numa from_pid to_pid : ℕ)
      → shift_core qsort g numa from_pid to_pid ≡ some g'
      → Moves g g'
  unfolding shift_core
  shift_core-Moves g g' numa from_pid to_pid h =
      elim (Option-cases (sort_streams qsort g (some numa) (some from_pid))) [
        | inl nothing ↦ stay g g' (rw (shift_core, nothing) at h)
        | inr (params, e) ↦
            let ((from, to), _, rest) =
              >>=-eq-some (choose_pair g params (g.partitions.numa_stats from_pid numa).used_cores)
                _ (rw (shift_core, e) at h) in
            give_stream-Moves g g' from to to_pid rest
      ]

  reb_in_numa-Moves : (g g' : Global) (numa : ℕ) → reb_in_numa qsort g numa ≡ some g' → Moves g g'
  unfolding reb_in_numa
  reb_in_numa-Moves g g' numa h =
      let last = g.partitions.nr_partitions - 1 in
      let (stat, _, h1) = >>=-eq-some (get_numa_stat g.env numa) _ h in
      let (ps, _, h2) = >>=-eq-some (sort_partitions qsort g.partitions numa) _ h1 in
      let (found, _, h3) =
        >>=-eq-some (find_from g.partitions numa stat.avg_qdepth ps 0 last) _ h2 in
      elim (Option-cases found) [
        | inl nothing ↦ stay g g' (rw nothing at h3)
        | inr ((from, from_pid), e) ↦
            let (target, _, h4) =
              >>=-eq-some (find_to g.partitions numa stat.avg_qdepth ps last (last - from)) _
                (rw e at h3) in
            elim (Option-cases target) [
              | inl nothing ↦ stay g g' (rw nothing at h4)
              | inr (to_pid, e') ↦ shift_core-Moves g g' numa from_pid to_pid (rw e' at h4)
            ]
      ]

  reb_each_numa-Moves :
      (is : List ℕ) (g g' : Global) → reb_each_numa qsort g is ≡ some g' → Moves g g'
  unfolding reb_each_numa
  reb_each_numa-Moves [] g g' h = stay g g' h
  reb_each_numa-Moves (i ∷ is) g g' h =
      let (stat, _, h1) = >>=-eq-some (get_numa_stat g.env i) _ h in
      let (m, first, rest) =
        >>=-eq-some
          (if (stat.used_cores == 0) || (stat.avg_qdepth == 0)
            then some g
            else reb_in_numa qsort g i)
          _ h1 in
      let one : Moves g m = elim (Bool-cases ((stat.used_cores == 0) || (stat.avg_qdepth == 0))) [
        | inl skip ↦ stay g m (rw skip at first)
        | inr go ↦ reb_in_numa-Moves g m i (rw go at first)
      ] in
      trans-Steps one (reb_each_numa-Moves is m g' rest)

  pub reb_in_numas-Moves : (g g' : Global) → reb_in_numas qsort g ≡ some g' → Moves g g'
  unfolding reb_in_numas
  reb_in_numas-Moves g g' h = elim (Bool-cases (leb g.partitions.nr_partitions 1)) [
    | inl single ↦ stay g g' (rw single at h)
    | inr more ↦ reb_each_numa-Moves (numas g.env) g g' (rw more at h)
  ]
