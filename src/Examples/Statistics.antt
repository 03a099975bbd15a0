-- ===== src/Examples/Statistics.antt =====
-- Runs of the models of src/arch/env.c, src/partition/partition.c and src/power/power.c.
use abtst.Common.{ℕ, ◌≡◌, ◌<◌, refl, arith, true, false, none, some, List, [], ◌∷◌, suc, zero}
use abtst.Common.Int.{pos, negsuc}
use abtst.Common.Store.{Array}
use abtst.Env.{NumaStat, numas}
use abtst.Common.{◌==◌, if◌then◌else◌}
use abtst.Env.{Env, get_average_qdepth}
use abtst.Env.Average.{total_cores, total_depth, get_average_qdepth_lem}
use abtst.Env.Update.{
  update_numa_stats, stat_of, streams_used, InUse, update_numa_stats_lem, update_numa_stats_idle,
}
use abtst.Partition.{Partition, Partitions, init_partitions, update_partition_stats}
use abtst.Partition.Map.{owner, init_partitions-owner, init_partitions-overlap}
use abtst.Examples.Rebalancing.{global-StatsFit}
use abtst.Partition.Stats.{IsUpToDate, update_partition_stats-IsUpToDate}
use abtst.Power.{
  Power, update_power_stats, estimate_ps_numas, update_power, update_power_stat, sum_sleep,
  sleep_pct, set_numa_ps_pct,
}
use abtst.Env.{get_numa_info}
use abtst.Power.Estimate.{IsPct, Enough, work_of, estimate_ps_numas-Enough}
use abtst.Stream.{Store}
use abtst.Stream.Display.{Bar, print_stream_qdepth, print_stream_sleeptime}
use abtst.Stream.Shown.{IsTime, ShowsAll, print_stream_sleeptime-ShowsAll}
use abtst.Examples.Machine.{env, numa_info, store, streams, config, partitions, power}

in_use : (i : ℕ) → i < 2 → InUse store (env.numa_info i)
unfolding streams_used
in_use zero h = (omega arith, omega arith)
in_use (suc zero) h = (omega arith, omega arith)
in_use (suc (suc i)) h = absurd (omega arith)

update_numa_stats_lem_example :
    (stats : Array NumaStat) × (update_numa_stats store env
      ≡ some (record env { numa_stat = stats }))
    × ((i : ℕ) → i < 2 → stats i ≡ stat_of store (env.numa_info i))
update_numa_stats_lem_example = update_numa_stats_lem store env in_use

-- Two cores whose streams are not used.
abbrev resting : Store
resting = record store { streams = λ i. record (streams i) { used = false } }

update_numa_stats_idle_example : update_numa_stats resting env ≡ none
unfolding streams_used
update_numa_stats_idle_example = update_numa_stats_idle resting env 1 (omega arith) refl

init_partitions-owner_example :
    (parts' : Partitions) × (init_partitions true env config partitions ≡ some (pos 0, parts'))
    × ((c : ℕ) → parts'.partition_map c ≡ owner config c)
init_partitions-owner_example =
    init_partitions-owner env config partitions
      ((omega arith, (omega arith, tt)), ((omega arith, tt), tt)) refl

abbrev overlapping : List Partition
overlapping =
    record { partition_id = 0; partition_cores = 0 ∷ 1 ∷ [] }
    ∷ record { partition_id = 1; partition_cores = 1 ∷ [] }
    ∷ []

init_partitions-overlap_example :
    (parts' : Partitions) × (init_partitions true env overlapping partitions
      ≡ some (negsuc 0, parts'))
init_partitions-overlap_example =
    init_partitions-overlap env overlapping partitions
      ((omega arith, (omega arith, tt)), ((omega arith, tt), tt)) refl

update_partition_stats-IsUpToDate_example :
    (parts' : Partitions) × (update_partition_stats env store partitions ≡ some parts')
    × IsUpToDate env store parts'
update_partition_stats-IsUpToDate_example =
    update_partition_stats-IsUpToDate env store partitions global-StatsFit

power-IsPct : IsPct 2 power
power-IsPct i h = omega arith

estimate_ps_numas-Enough_example :
    Enough 2 (work_of power.ps_pct (numas env)) 1 1 (estimate_ps_numas env power)
estimate_ps_numas-Enough_example = estimate_ps_numas-Enough env power (omega arith) power-IsPct

after_update : (power' : Power) × (update_power_stats 1 env store power ≡ some power')
unfolding update_power_stats update_power update_power_stat sum_sleep sleep_pct set_numa_ps_pct
    get_numa_info
after_update = (_, refl)

-- Two NUMAs of two streams each, 100 and 300 deep.
abbrev loaded : Env
loaded = record env {
  numa_stat = λ k. record { used_cores = 2; avg_qdepth = if k == 0 then 100 else 300 };
}

get_average_qdepth_lem_example : get_average_qdepth loaded ≡ 200
unfolding total_cores total_depth
get_average_qdepth_lem_example = get_average_qdepth_lem loaded (omega arith) (omega arith)

-- The streams 0 to 2 slept for half of the interval of one second.
print_stream_sleeptime-ShowsAll_example :
    (lines : List (ℕ × List Bar)) × (print_stream_sleeptime env 1 streams ≡ some lines)
    × ShowsAll (λ st n. IsTime 1 st.sleep_nsec n) streams numa_info (0 ∷ 1 ∷ []) lines
print_stream_sleeptime-ShowsAll_example =
    print_stream_sleeptime-ShowsAll env 1 streams (omega arith) (omega arith)

-- One star for the depth 10, 30 for 300 and 10 for 100.
bars_of_depth :
    print_stream_qdepth env streams
    ≡ some (
        (
          0,
          record { core = 0; colour = 0; stars = 1 }
              ∷ record { core = 1; colour = 0; stars = 30 }
              ∷ [],
        )
        ∷ (1, record { core = 2; colour = 1; stars = 10 } ∷ [])
        ∷ [])
unfolding print_stream_qdepth
bars_of_depth = refl
