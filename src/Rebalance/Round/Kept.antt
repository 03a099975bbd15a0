-- ===== src/Rebalance/Round/Kept.antt =====
-- A round of the rebalancer's thread (src/rebalance/rebalance.c) at its default level.
use abtst.Common.{
  ℕ, sym, subst, ap, ◌<◌, ◌≡◌, refl, ◌∙◌, some, List, [], ◌∷◌, arith, count, range, u32_mod, length,
  ◌≤◌, ◌*◌, ◌^◌, ◌&&◌, Bool, true, false, Option, leb, ltb, mem-range,
}
use native.Mathlib.Nat.{mul-le-mul_right}
use abtst.Common.Store.{Array}
use abtst.Env.{Env, NumaStat, cores_of}
use abtst.Env.Update.{InUse, streams_used, update_numa_stats_lem}
use abtst.Partition.{Partitions}
use abtst.Partition.Stats.{IsUpToDate, update_partition_stats-IsUpToDate}
use abtst.Partition.Room.{StatsFit, same-StatsFit}
use abtst.Power.{Power}
use abtst.Power.Defined.{update_power_stats-some}
use abtst.Stream.{Stream, Store, SortParam}
use abtst.Stream.Move.{IsCounted}
use abtst.Stream.Shift.{nr_queued, queued}
use abtst.Stream.Stat.{update_streams_stat, reset_streams_stat}
use abtst.Stream.Quiet.{
  IsQuiet, same_use, quiet-IsCounted, quiet_weight, update_streams_stat-IsQuiet,
  reset_streams_stat-IsQuiet,
}
use abtst.Global.{Global, renew_partitions, renew_numas, renew_power}
use abtst.Rebalance.Sorting.{IsSort}
use abtst.Rebalance.Ready.{
  IsReady, Contained, length-le-nr_queued, cores-IsClosed, same_env, same_used,
}
use abtst.Rebalance.InPartition.{reb_in_partitions}
use abtst.Rebalance.InPartition.Containment.{reb_in_partitions-Contained}
use abtst.Rebalance.Round.{shown_if, reb_update_stat, reb_levels, reb_round}
use abtst.Rebalance.Round.Lasting.{reb_round-Moves}
use abtst.Stream.Sizes.{IsSmall, update_streams_stat-some, Steps-IsSmall}
use abtst.Stream.Display.{Bar, print_stream_qdepth, print_stream_sleeptime}
use abtst.Stream.Shown.{print_stream_qdepth-some, print_stream_sleeptime-ShowsAll}

-- What a round needs: the cores of every NUMA exist and one of them is in use, the arrays of statistics
-- have room, the kept lengths are right, the loads queued fit 32 bits, no load has more than `most`
-- packets, and what is queued fits an int.
pub record IsSound (most : ℕ) (g : Global) : Type 0 where
  pub cores_exist : (k : ℕ) → k < g.env.nr_numas → (g.env.numa_info k).end_core < g.env.nr_cores
  pub cores_fit : g.env.nr_cores < u32_mod
  pub numas_used : (k : ℕ) → k < g.env.nr_numas → InUse g.store (g.env.numa_info k)
  pub all_counted : (i : ℕ) → IsCounted (g.store.streams i)
  pub few_loads : nr_queued (range 0 g.env.nr_cores) g.store < u32_mod
  pub stats_fit : StatsFit g.env g.store
  pub small : IsSmall most g.store
  pub few_packets : nr_queued (range 0 g.env.nr_cores) g.store * most < 2 ^ 31

-- What a round at the default level leaves.
pub record Kept (most : ℕ) (g g' : Global) : Type 0 where
  pub sound : IsSound most g'
  pub same_config : g'.rebalance ≡ g.rebalance
  pub same_cores : g'.env.nr_cores ≡ g.env.nr_cores
  pub same_loads :
      (a : ℕ)
      → queued a (range 0 g.env.nr_cores) g'.store ≡ queued a (range 0 g.env.nr_cores) g.store

pub streams_used-quiet :
    {s t : Store}
    → IsQuiet s t
    → (is : List ℕ) → streams_used t.streams is ≡ streams_used s.streams is
unfolding streams_used
streams_used-quiet quiet [] = refl
streams_used-quiet quiet (i ∷ is) = rw (same_use quiet i, streams_used-quiet quiet is) refl

streams_used-Contained :
    {g h : Global}
    → Contained g h
    → (is : List ℕ) → streams_used h.store.streams is ≡ streams_used g.store.streams is
unfolding streams_used
streams_used-Contained c [] = refl
streams_used-Contained c (i ∷ is) = rw (same_used c i, streams_used-Contained c is) refl

-- The state after the statistics are renewed, with the depths in `m`.
abbrev renewed : Global → Store → Partitions → Array NumaStat → Power → Global
renewed g m parts stats power = record g {
  env = record g.env { numa_stat = stats };
  power = power;
  store = m;
  partitions = parts;
}

pub quiet-StatsFit : {env : Env} {s t : Store} → IsQuiet s t → StatsFit env s → StatsFit env t
quiet-StatsFit {env} {s} {t} quiet fits =
    same-StatsFit env s t (same_use quiet) (λ j. ap (λ (st : Stream). st.part_id) (quiet.same j))
      fits

shown_if-some :
    (b : Bool) (lines : Option (List (ℕ × List Bar)))
    → ((l : List (ℕ × List Bar)) × (lines ≡ some l))
    → shown_if b lines ≡ some tt
shown_if-some false lines h = refl
shown_if-some true lines (l, e) = rw e refl

few_times : (a b most : ℕ) → a ≤ b → b * most < 2 ^ 31 → a * most < 2 ^ 31
few_times a b most h few = let grows = mul-le-mul_right most h in omega (arith, grows, few)

module _ (most : ℕ) (g : Global) (v : IsSound most g) where
  -- The depths are measured.
  measured : (m : Store) × (update_streams_stat g.env.nr_cores g.store ≡ some m) × IsQuiet g.store m
  measured =
      let (m, runs) = update_streams_stat-some most g.env.nr_cores g.store v.small λ i lt.
        few_times (length (g.store.streams i).load_q) (nr_queued (range 0 g.env.nr_cores) g.store)
          most
          (length-le-nr_queued i (range 0 g.env.nr_cores) g.store
            (mem-range i g.env.nr_cores 0 (omega arith) (omega arith)))
          v.few_packets in
      (m, runs, update_streams_stat-IsQuiet g.env.nr_cores g.store m runs)

  reb_update_stat-renewed :
      0 < g.rebalance.rebalance_interval
      → g.rebalance.rebalance_interval < 22
      → (m : Store) × (parts : Partitions) × (stats : Array NumaStat) × (power : Power) × IsQuiet
          g.store m
        × IsUpToDate g.env m parts
        × (reb_update_stat g ≡ some (renewed g m parts stats power))
  unfolding reb_update_stat renew_partitions renew_numas renew_power
  reb_update_stat-renewed low high =
      let (m, measures, quiet) = measured in
      let (times, shows, _) =
        print_stream_sleeptime-ShowsAll g.env g.rebalance.rebalance_interval m.streams low high in
      let depths = print_stream_qdepth-some g.env m.streams in
      let (parts, parts_run, counts) =
        update_partition_stats-IsUpToDate g.env m g.partitions (quiet-StatsFit quiet v.stats_fit) in
      let (stats, numas_run, values) = update_numa_stats_lem m g.env λ k lt.
        let same = streams_used-quiet quiet (cores_of (g.env.numa_info k)) in
        let used = v.numas_used k lt in (omega (arith, same, used), omega (arith, same, used)) in
      let (power, power_runs) =
        update_power_stats-some g.rebalance.rebalance_interval (record g.env { numa_stat = stats })
          m g.power low (omega arith) in
      (
        m,
        parts,
        stats,
        power,
        quiet,
        counts,
        rw
            (
              measures,
              shown_if-some (leb 1 g.rebalance.verbose) (print_stream_qdepth g.env m.streams)
                  depths,
              shown_if-some (leb 2 g.rebalance.verbose)
                  (print_stream_sleeptime g.env g.rebalance.rebalance_interval m.streams)
                  (times, shows),
              parts_run,
              numas_run,
              power_runs,
            )
            refl,
      )

  renewed-IsReady :
      (m : Store) (parts : Partitions) (stats : Array NumaStat) (power : Power)
      → IsQuiet g.store m
      → IsUpToDate g.env m parts
      → IsReady (renewed g m parts stats power)
  renewed-IsReady m parts stats power quiet counts = record {
    cores_exist = v.cores_exist;
    cores_fit = v.cores_fit;
    all_counted = quiet-IsCounted quiet v.all_counted;
    few_loads = omega (arith, quiet_weight quiet length (range 0 g.env.nr_cores), v.few_loads);
    up_to_date = λ p k lt. let number = (counts.by_numa p k lt).used_cores in omega (arith, number);
  }

module _ (qsort : List SortParam → List SortParam) (sorts : IsSort qsort) where
  -- At the default level, level 1 alone runs.
  reb_levels_default :
      (level : ℕ) (h : Global) → level ≡ 1 → reb_levels qsort level h ≡ reb_in_partitions qsort h
  unfolding reb_levels
  reb_levels_default level h e = rw e refl

  -- A state that differs from a sound one by what level 1 and the clearing of sleeping times do.
  Contained-Kept :
      (most : ℕ) (g : Global) (v : IsSound most g) (m : Store) (parts : Partitions)
      (stats : Array NumaStat) (power : Power) {moved : Global} {t : Store}
      → (quiet : IsQuiet g.store m) → IsUpToDate g.env m parts
      → Contained (renewed g m parts stats power) moved
      → IsQuiet moved.store t
      → IsSmall most t
      → Kept most g (record moved { store = t })
  Contained-Kept most g v m parts stats power {moved} {t} quiet counts c last small =
      let ready = renewed-IsReady most g v m parts stats power quiet counts in
      let cores = range 0 g.env.nr_cores in
      let closed = cores-IsClosed (renewed g m parts stats power) ready in
      let number =
        quiet_weight last length cores
        ∙ c.shift.kept_number cores closed
        ∙ quiet_weight quiet length cores in
      let part = λ (i : ℕ). ap (λ (st : Stream). st.part_id) (c.shift.fields i) in
      let fits =
        quiet-StatsFit last (
          same-StatsFit g.env m moved.store (same_used c) part
            (quiet-StatsFit quiet v.stats_fit)) in
      record {
        sound = record {
          cores_exist =
              subst (λ (e : Env). (k : ℕ) → k < e.nr_numas → (e.numa_info k).end_core < e.nr_cores)
                (sym (same_env c)) v.cores_exist;
          cores_fit = subst (λ (e : Env). e.nr_cores < u32_mod) (sym (same_env c)) v.cores_fit;
          numas_used =
              subst (λ (e : Env). (k : ℕ) → k < e.nr_numas → InUse t (e.numa_info k))
                (sym (same_env c))
                λ k lt.
                  let used = v.numas_used k lt in
                  let same =
                    streams_used-quiet last (cores_of (g.env.numa_info k))
                    ∙ streams_used-Contained c (cores_of (g.env.numa_info k))
                    ∙ streams_used-quiet quiet (cores_of (g.env.numa_info k)) in
                  (omega (arith, same, used), omega (arith, same, used));
          all_counted = quiet-IsCounted last (c.shift.counted ready.all_counted);
          few_loads =
              subst (λ (e : Env). nr_queued (range 0 e.nr_cores) t < u32_mod) (sym (same_env c))
                (omega (arith, number, v.few_loads));
          stats_fit =
              subst (λ (e : Env). StatsFit e t) (sym (same_env c))
                (record { numas_fit = fits.numas_fit; parts_fit = fits.parts_fit });
          small = small;
          few_packets =
              subst (λ (e : Env). nr_queued (range 0 e.nr_cores) t * most < 2 ^ 31)
                (sym (same_env c)) (subst (λ n. n * most < 2 ^ 31) (sym number) v.few_packets);
        };
        same_config = ap (λ (x : Global). x.rebalance) c.rest;
        same_cores = ap (λ (e : Env). e.nr_cores) (same_env c);
        same_loads = λ a.
            quiet_weight last (count a) cores
            ∙ c.shift.kept a cores closed
            ∙ quiet_weight quiet (count a) cores;
      }

  -- A sound state, the default level 1 and an interval of 1 to 21 seconds: whatever sort is used,
  -- the round is defined and leaves a sound state, and every load is queued on the cores of the
  -- machine as often as before.
  pub reb_round-Kept :
      (most : ℕ) (g : Global)
      → IsSound most g
      → g.rebalance.rebalance_level ≡ 1
      → 0 < g.rebalance.rebalance_interval
      → g.rebalance.rebalance_interval < 22
      → (g' : Global) × (reb_round qsort g ≡ some g') × Kept most g g'
  unfolding reb_round
  reb_round-Kept most g v level low high =
      let (m, parts, stats, power, quiet, counts, first) =
        reb_update_stat-renewed most g v low high in
      let ready = renewed-IsReady most g v m parts stats power quiet counts in
      let (moved, runs, c) =
        reb_in_partitions-Contained qsort sorts (renewed g m parts stats power) ready in
      let last = reset_streams_stat moved.max_xstreams moved.store in
      let done : reb_round qsort g ≡ some (record moved { store = last }) =
        rw
          (
            first,
            reb_levels_default g.rebalance.rebalance_level (renewed g m parts stats power) level,
            runs,
            shown_if-some (leb 1 moved.rebalance.verbose && ltb 0 g.rebalance.rebalance_level)
                (print_stream_qdepth moved.env moved.store.streams)
                (print_stream_qdepth-some moved.env moved.store.streams),
          )
          refl in
      (
        record moved { store = last },
        done,
        Contained-Kept most g v m parts stats power quiet counts c
            (reset_streams_stat-IsQuiet moved.max_xstreams moved.store)
            (Steps-IsSmall most (reb_round-Moves qsort g (record moved { store = last }) done)
              v.small),
      )
