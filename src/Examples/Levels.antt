-- ===== src/Examples/Levels.antt =====
-- All levels of the rebalancer (src/rebalance/rebalance.c) on a machine of seven cores.
use abtst.Common.{
  ℕ, ◌+◌, ◌%◌, ◌==◌, ◌≡◌, refl, arith, Option, none, some, [], ◌∷◌, ltb, true, false, if◌then◌else◌,
}
use abtst.Common.Store.{Array}
use abtst.Env.{Numa, cores_of}
use abtst.Partition.Stats.{cores_used, depth_used}
use abtst.Stream.{Stream, Store}
use abtst.Stream.Placed.{IsPlaced}
use abtst.Global.{Global, set_rebalance_level}
use abtst.Rebalance.Sorting.{sort_streams}
use abtst.Rebalance.Round.{reb_levels, reb_func, reb_round, reb_update_stat}
use abtst.Rebalance.Round.Lasting.{IsServing, Lasting, reb_func-Lasting}
use abtst.Stream.Stat.{update_streams_stat, reset_streams_stat}
use abtst.Rebalance.Placement.{Housed, reb_levels-Housed}
use abtst.Examples.Machine.{global, loads, stream_with}
use abtst.Examples.Rebalancing.{isort}
use abtst.Rebalance.PowerSaving.{reb_power_saving}
use abtst.Power.{estimate_ps_numas, update_power_stats}
use abtst.Rebalance.Sorting.{sort_numas, sort_partitions, stream_at, ios_at}
use abtst.Common.Int.{to_int, ◌-ℤ◌, to_u32, ◌+ℤ◌}
use abtst.Env.{get_numa_info, get_numa_stat, set_numa_stat, get_average_qdepth}
use abtst.Partition.{get_partition_stat, update_partition_stats}
use abtst.Global.{renew_numas, renew_partitions, renew_power}
use abtst.Env.Update.{update_numa_stats}
use abtst.Rebalance.BetweenNumas.{reb_between_numas}
use abtst.Rebalance.InNuma.{reb_in_numas}
use abtst.Rebalance.InPartition.{reb_in_partitions}
use abtst.Stream.{combine_streams, get_sleep_time, rebalance_streams}
use abtst.Load.{get_load_size}

-- A machine on which each partition runs streams in each NUMA, and what level 3 makes of it.
abbrev spread_streams : Array Stream
spread_streams i =
    if i == 0
    then stream_with 0 true 0 (10 ∷ []) 1 10
    else if i == 1
    then stream_with 1 true 1 (11 ∷ []) 1 10
    else if i == 2
    then stream_with 2 true 0 (12 ∷ []) 1 10
    else if i == 3
    then stream_with 3 true 1 (13 ∷ []) 1 10
    else if i == 4
    then stream_with 4 true 0 (14 ∷ 24 ∷ 34 ∷ []) 3 300
    else if i == 5
    then stream_with 5 true 1 (15 ∷ []) 1 10
    else if i == 6
    then stream_with 6 true 0 (16 ∷ 26 ∷ []) 2 100
    else stream_with i false 0 [] 0 0

abbrev spread_numa : Array Numa
spread_numa k =
    if k == 0
    then record { start_core = 0; end_core = 3 }
    else record { start_core = 4; end_core = 6 }

abbrev spread : Global
spread = record global {
  env = record (global.env) {
    nr_cores = 7;
    numa_info = spread_numa;
    numa_stat = λ k.
        if k == 0
        then record { used_cores = 4; avg_qdepth = 10 }
        else record { used_cores = 3; avg_qdepth = 136 };
  };
  partitions = record (global.partitions) {
    partition_map = λ c. if ltb c 7 then some (c % 2) else none;
    numa_stats = λ p k. record {
      used_cores = cores_used p spread_streams (cores_of (spread_numa k));
      qdepth = depth_used p spread_streams (cores_of (spread_numa k));
    };
  };
  max_xstreams = 7;
  store = record {
    streams = spread_streams;
    loads = λ l. record (loads l) {
      init_rank = l % 10;
      curr_rank = l % 10;
      dest_rank = l % 10;
      pkt_started = if l == 10 then 10 else 100;
    };
  };
}

abbrev get_or : Global → Option Global → Global
get_or g none = g
get_or g (some g') = g'

abbrev levelled : Global
levelled = get_or spread (reb_levels isort 3 spread)

spread_runs : reb_levels isort 3 spread ≡ some levelled
unfolding reb_levels isort reb_power_saving estimate_ps_numas sort_numas to_int get_numa_info
    get_numa_stat get_partition_stat cores_used renew_numas update_numa_stats renew_partitions
    set_numa_stat renew_power update_power_stats reb_between_numas get_average_qdepth reb_in_numas
    reb_in_partitions combine_streams update_partition_stats sort_partitions sort_streams stream_at
    ios_at ◌-ℤ◌ get_sleep_time rebalance_streams to_u32 get_load_size ◌+ℤ◌
spread_runs = refl

spread-IsPlaced : IsPlaced spread.store
spread-IsPlaced = record {
  single = λ j l. ground arith;
  apart = λ i j l hi hj. ground arith;
  home = λ j l h. ground arith;
}

reb_levels-Housed_example : Housed spread levelled
reb_levels-Housed_example =
    reb_levels-Housed isort 3 spread levelled spread-IsPlaced (λ i. ground arith) spread_runs

-- Between two rounds, every load gets ten more packets.
abbrev busy : ℕ → Store → Store
busy n s = record s {
  loads = λ l. record (s.loads l) { pkt_started = (s.loads l).pkt_started + 10 };
}

busy-IsServing : (n : ℕ) (s : Store) → IsServing s (busy n s)
busy-IsServing n s = record { quiet = record { same = λ i. refl }; dests = λ l. refl }

abbrev at_top : Global
at_top = record spread { rebalance = set_rebalance_level spread.rebalance 3 }

abbrev rounded : Global
rounded = get_or at_top (reb_func isort busy 2 at_top)

rounded_runs : reb_func isort busy 2 at_top ≡ some rounded
unfolding reb_func reb_round reb_update_stat reb_levels isort reb_power_saving estimate_ps_numas
    sort_numas to_int get_numa_info get_numa_stat get_partition_stat cores_used renew_numas
    update_numa_stats renew_partitions set_numa_stat renew_power update_power_stats
    reb_between_numas get_average_qdepth reb_in_numas reb_in_partitions combine_streams
    update_partition_stats sort_partitions sort_streams stream_at ios_at ◌-ℤ◌ get_sleep_time
    rebalance_streams to_u32 get_load_size ◌+ℤ◌ reset_streams_stat update_streams_stat
rounded_runs = refl

reb_func-Lasting_example : Lasting at_top.store rounded.store
reb_func-Lasting_example =
    reb_func-Lasting isort busy busy-IsServing 2 at_top rounded spread-IsPlaced (λ i. ground arith)
      rounded_runs
