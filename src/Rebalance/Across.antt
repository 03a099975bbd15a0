-- ===== src/Rebalance/Across.antt =====
-- Level 3 and power saving of src/rebalance/rebalance.c, and the levels together, do nothing but the
-- steps of Stream/Steps.
use abtst.Common.{
  ℕ, zero, suc, ◌-◌, ◌≡◌, refl, sym, ap, ◌∙◌, subst, Bool, true, false, not, Option, none, some,
  List, [], ◌∷◌, leb, ◌==◌, if◌then◌else◌, range, ◌>>=◌, >>=-eq-some, Bool-cases, Option-cases, inl,
  inr, add_u32, length, reverse,
}
use abtst.Common.Int.{ℤ, pos, ltb_ℤ, is_zero_ℤ}
use abtst.Common.Store.{Array}
use abtst.Env.{cores_of, get_numa_info, get_numa_stat, get_average_qdepth}
use abtst.Env.Update.{update_numa_stats}
use abtst.Partition.{get_partition_stat}
use abtst.Power.{update_power_stats, estimate_ps_numas}
use abtst.Stream.{Store, SortParam, get_qdepth, combine_streams}
use abtst.Stream.Steps.{Steps, trans-Steps, result_store, combine_streams-Steps}
use abtst.Global.{Global, renew_partitions, renew_numas, renew_power}
use abtst.Rebalance.Sorting.{Params, stream_at, sort_streams, sort_numas}
use abtst.Rebalance.BetweenNumas.{
  is_skipped, migrate, migrate_partition, find_widest, reb_between, find_to_numa, find_from_numa,
  reb_between_numas,
}
use abtst.Rebalance.InNuma.{reb_in_numas}
use abtst.Rebalance.PowerSaving.{
  find_cores, empty_cores, combine_numas, rest_numa, to_rest, wake_numa, set_state,
  reb_power_saving,
}
use abtst.Rebalance.Round.{level_in_numa, level_between_numa, at_level, reb_levels}
use abtst.Rebalance.Inside.{
  Moves, stay, same_store, reb_in_partitions-Moves, reb_in_numas-Moves, renew_partitions-Moves,
}

-- New statistics leave the streams and the loads alone.
pub renew_numas-Moves : (g g' : Global) → renew_numas g ≡ some g' → Moves g g'
unfolding renew_numas
renew_numas-Moves g g' h =
    let (env, _, rest) = >>=-eq-some (update_numa_stats g.store g.env) _ h in
    let e : record g { env = env } ≡ g' = cc in
    same_store g g' (ap (λ (o : Global). o.store) (sym e))

pub renew_power-Moves : (g g' : Global) → renew_power g ≡ some g' → Moves g g'
unfolding renew_power
renew_power-Moves g g' h =
    let (power, _, rest) =
      >>=-eq-some (update_power_stats g.rebalance.rebalance_interval g.env g.store g.power) _ h in
    let e : record g { power = power } ≡ g' = cc in
    same_store g g' (ap (λ (o : Global). o.store) (sym e))

pub renewed-Moves : (g g' : Global) → (renew_partitions g >>= renew_numas) ≡ some g' → Moves g g'
renewed-Moves g g' h =
    let (counted, first, rest) = >>=-eq-some (renew_partitions g) _ h in
    trans-Steps (renew_partitions-Moves g counted first) (renew_numas-Moves counted g' rest)

migrate-Steps :
    (limit : ℕ) (from to : Params) (count n : ℕ) (s t : Store)
    → migrate limit from to count n s ≡ some t
    → Steps s t
unfolding migrate
migrate-Steps limit from to count zero s t h =
    let e : s ≡ t = cc in subst (Steps s) e (Steps.none s)
migrate-Steps limit from to count (suc i) s t h =
    let (stream, _, h1) = >>=-eq-some (stream_at from i) _ h in
    let qdepth = get_qdepth (s.streams stream) in
    elim (Bool-cases (is_skipped limit count qdepth)) [
      | inl skip ↦ migrate-Steps limit from to count i s t (rw skip at h1)
      | inr go ↦
          let (target, _, h2) = >>=-eq-some (stream_at to 0) _ (rw go at h1) in
          let ((ret, m), e, rest) = >>=-eq-some (combine_streams stream target s) _ h2 in
          trans-Steps (combine_streams-Steps stream target s m ret e)
            (migrate-Steps limit from to (add_u32 count qdepth) i m t rest)
    ]

module _ (qsort : List SortParam → List SortParam) where
  migrate_partition-Moves :
      (g g' : Global) (from to part limit : ℕ)
      → migrate_partition qsort g from to part limit ≡ some g'
      → Moves g g'
  unfolding migrate_partition
  migrate_partition-Moves g g' from to part limit h =
      elim (Option-cases (sort_streams qsort g (some from) (some part))) [
        | inl nothing ↦ stay g g' (rw (migrate_partition, nothing) at h)
        | inr (params_from, e) ↦ elim (Option-cases (sort_streams qsort g (some to) (some part))) [
          | inl nothing ↦ stay g g' (rw (migrate_partition, e, nothing) at h)
          | inr (params_to, e') ↦
              let used = (get_partition_stat g.partitions (some from) part).used_cores in
              let (s, moved, rest) =
                >>=-eq-some (migrate limit params_from params_to 0 used g.store) _
                  (rw (migrate_partition, e, e') at h) in
              trans-Steps (migrate-Steps limit params_from params_to 0 used g.store s moved)
                (renewed-Moves (record g { store = s }) g' rest)
        ]
      ]

  reb_between-Moves :
      (g g' : Global) (from to avg : ℕ) → reb_between qsort g from to avg ≡ some g' → Moves g g'
  unfolding reb_between
  reb_between-Moves g g' from to avg h =
      let (stat, _, h1) = >>=-eq-some (get_numa_stat g.env to) _ h in
      let widest =
        find_widest g.partitions from to (range 0 g.partitions.nr_partitions) (none, pos 0) in
      elim (Option-cases widest.0) [
        | inl nothing ↦ stay g g' (rw nothing at h1)
        | inr (part, e) ↦ migrate_partition-Moves g g' from to part _ (rw e at h1)
      ]

  reb_between_numas-Moves : (g g' : Global) → reb_between_numas qsort g ≡ some g' → Moves g g'
  unfolding reb_between_numas
  reb_between_numas-Moves g g' h =
      let avg = get_average_qdepth g.env in
      let ps = sort_numas qsort true true g in
      let last = length ps - 1 in
      elim (Bool-cases (leb (length ps) 1)) [
        | inl single ↦ stay g g' (rw single at h)
        | inr more ↦
            let (found, _, h1) = >>=-eq-some (find_to_numa g avg ps 0 last) _ (rw more at h) in
            elim (Option-cases found) [
              | inl nothing ↦ stay g g' (rw nothing at h1)
              | inr ((to, to_numa), e) ↦
                  let (source, _, h2) =
                    >>=-eq-some (find_from_numa g avg ps last (last - to)) _ (rw e at h1) in
                  elim (Option-cases source) [
                    | inl nothing ↦ stay g g' (rw nothing at h2)
                    | inr (from_numa, e') ↦
                        reb_between-Moves g g' from_numa to_numa avg (rw e' at h2)
                  ]
            ]
      ]

-- The second loop of reb_combine_numas.
empty_cores-Steps :
    (to_cores : Array (Option ℕ)) (is : List ℕ) (s t : Store) (ret : ℤ)
    → empty_cores to_cores is s ≡ some (ret, t)
    → Steps s t
unfolding empty_cores
empty_cores-Steps to_cores [] s t ret h = subst (Steps s) (result_store _ ret s t h) (Steps.none s)
empty_cores-Steps to_cores (i ∷ is) s t ret h = elim (Bool-cases (s.streams i).used) [
  | inr unused ↦ empty_cores-Steps to_cores is s t ret (rw unused at h)
  | inl used ↦
      let (to_core, _, h1) = >>=-eq-some (to_cores (s.streams i).part_id) _ (rw used at h) in
      let ((done, m), e, h2) = >>=-eq-some (combine_streams i to_core s) _ h1 in
      let one = combine_streams-Steps i to_core s m done e in
      elim (Bool-cases (is_zero_ℤ done)) [
        | inl ok ↦ trans-Steps one (empty_cores-Steps to_cores is m t ret (rw ok at h2))
        | inr failed ↦ subst (Steps s) (result_store _ ret m t (rw failed at h2)) one
      ]
]

combine_numas-Moves :
    (g g' : Global) (numa : ℕ) (ret : ℤ) → combine_numas g numa ≡ some (ret, g') → Moves g g'
unfolding combine_numas
combine_numas-Moves g g' numa ret h =
    let (info, _, h1) = >>=-eq-some (get_numa_info g.env numa) _ h in
    let (stat, _, h2) = >>=-eq-some (get_numa_stat g.env numa) _ h1 in
    let parts = range 0 g.partitions.nr_partitions in
    elim (Bool-cases (stat.used_cores == 0)) [
      | inl idle ↦ stay g g' (ap some (result_store _ ret g g' (rw idle at h2)))
      | inr used ↦
          let (found, _, h3) =
            >>=-eq-some (find_cores g numa parts (λ _. none)) _ (rw used at h2) in
          elim (Option-cases found) [
            | inl nothing ↦ stay g g' (ap some (result_store _ ret g g' (rw nothing at h3)))
            | inr (to_cores, e) ↦
                let ((done, s), e', h4) =
                  >>=-eq-some (empty_cores to_cores (cores_of info) g.store) _ (rw e at h3) in
                let same = result_store _ ret (record g { store = s }) g' h4 in
                subst (Steps g.store) (ap (λ (o : Global). o.store) same)
                  (empty_cores-Steps to_cores (cores_of info) g.store s done e')
          ]
    ]

rest_numa-Moves : (g g' : Global) (numa : ℕ) → rest_numa g numa ≡ some g' → Moves g g'
unfolding rest_numa
rest_numa-Moves g g' numa h =
    let ((ret, m), e, h1) = >>=-eq-some (combine_numas g numa) _ h in
    let rested = if is_zero_ℤ ret then set_state numa true m else m in
    let (counted, e1, h1') = >>=-eq-some (renew_partitions rested) _ h1 in
    let (k, e2, h2) = >>=-eq-some (renew_numas counted) _ h1' in
    let same : rested.store ≡ m.store = elim (Bool-cases (is_zero_ℤ ret)) [
      | inl ok ↦ rw ok refl
      | inr failed ↦ rw failed refl
    ] in
    trans-Steps (combine_numas-Moves g m numa ret e) (
      trans-Steps (same_store m rested same) (
        trans-Steps (renew_partitions-Moves rested counted e1)
          (trans-Steps (renew_numas-Moves counted k e2) (renew_power-Moves k g' h2))))

wake_numa_store : (g : Global) (ps : List SortParam) → (wake_numa g ps).store ≡ g.store
unfolding wake_numa
wake_numa_store g [] = refl
wake_numa_store g (p ∷ ps) = elim (Bool-cases (g.power.ps_state p.stream)) [
  | inl rests ↦ rw rests refl
  | inr awake ↦ rw awake (wake_numa_store g ps)
]

woken : (g g' : Global) (ps : List SortParam) → some (wake_numa g ps) ≡ some g' → Moves g g'
woken g g' ps h =
    let e : wake_numa g ps ≡ g' = cc in
    same_store g g' (ap (λ (o : Global). o.store) (sym e) ∙ wake_numa_store g ps)

-- A test, whose two branches are steps.
either-Moves :
    (b : Bool) {x y : Option Global} (g g' : Global)
    → (x ≡ some g' → Moves g g')
    → (y ≡ some g' → Moves g g')
    → (if b then x else y) ≡ some g'
    → Moves g g'
either-Moves true g g' p q h = p h
either-Moves false g g' p q h = q h

module _ (qsort : List SortParam → List SortParam) where
  reb_power_saving-Moves : (g g' : Global) → reb_power_saving qsort g ≡ some g' → Moves g g'
  unfolding reb_power_saving
  reb_power_saving-Moves g g' h =
      let num = pos (estimate_ps_numas g.env g.power) in
      let awake = sort_numas qsort false true g in
      let all = sort_numas qsort false false g in
      let rest : (to_rest awake >>= rest_numa g) ≡ some g' → Moves g g' =
        λ e. let (numa, _, e') = >>=-eq-some (to_rest awake) _ e in rest_numa-Moves g g' numa e' in
      either-Moves (not g.power.ps_enabled) g g' (stay g g')
        (either-Moves (ltb_ℤ g.power.nr_ps_numas num) g g'
          (either-Moves (leb (length awake) 1) g g' (stay g g') rest)
          (either-Moves (ltb_ℤ num g.power.nr_ps_numas) g g'
            (either-Moves (leb (length all) 1) g g' (stay g g') (woken g g' (reverse all)))
            (stay g g')))
        h

  at_level-Moves :
      (needed level : ℕ) (pass : Global → Option Global)
      → ((g g' : Global) → pass g ≡ some g' → Moves g g')
      → (g g' : Global) → at_level needed level pass g ≡ some g'
      → Moves g g'
  at_level-Moves needed level pass moves g g' h =
      either-Moves (leb needed level) g g' (moves g g') (stay g g') h

  pub reb_levels-Moves :
      (level : ℕ) (g g' : Global) → reb_levels qsort level g ≡ some g' → Moves g g'
  unfolding reb_levels
  reb_levels-Moves level g g' h =
      let (saved, e1, h1) =
        >>=-eq-some (at_level level_between_numa level (reb_power_saving qsort) g) _ h in
      let (between, e2, h2) =
        >>=-eq-some (at_level level_between_numa level (reb_between_numas qsort) saved) _ h1 in
      let (inside, e3, h3) =
        >>=-eq-some (at_level level_in_numa level (reb_in_numas qsort) between) _ h2 in
      trans-Steps (at_level-Moves _ level _ reb_power_saving-Moves g saved e1) (
        trans-Steps (at_level-Moves _ level _ (reb_between_numas-Moves qsort) saved between e2) (
          trans-Steps (at_level-Moves _ level _ (reb_in_numas-Moves qsort) between inside e3)
            (at_level-Moves _ level _ (reb_in_partitions-Moves qsort) inside g' h3)))
