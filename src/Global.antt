-- ===== src/Global.antt =====
-- abtst_global (include/abt_st.h) with the C globals `env` and `power`: the state that the
-- rebalancer works on.
use abtst.Common.{ℕ, Option, ◌>>=◌, some}
use abtst.Env.{Env}
use abtst.Env.Update.{update_numa_stats}
use abtst.Mapping.Table.{Mappings}
use abtst.Partition.{Partitions, update_partition_stats}
use abtst.Power.{Power, update_power_stats}
use abtst.Stream.{Store}

-- include/rebalance.h, without the thread, the queue and the lock.
pub record RebalanceConfig : Type 0 where
  pub rebalance_level : ℕ
  pub rebalance_interval : ℕ
  pub verbose : ℕ

abbrev pub set_rebalance_level : RebalanceConfig → ℕ → RebalanceConfig
set_rebalance_level reb level = record reb { rebalance_level = level }

abbrev pub get_rebalance_level : RebalanceConfig → ℕ
get_rebalance_level reb = reb.rebalance_level

-- abtst_set_rebalance_intervall.
abbrev pub set_rebalance_interval : RebalanceConfig → ℕ → RebalanceConfig
set_rebalance_interval reb interval = record reb { rebalance_interval = interval }

abbrev pub get_rebalance_interval : RebalanceConfig → ℕ
get_rebalance_interval reb = reb.rebalance_interval

abbrev pub get_rebalance_verbose : RebalanceConfig → ℕ
get_rebalance_verbose reb = reb.verbose

abbrev pub set_rebalance_verbose : RebalanceConfig → ℕ → RebalanceConfig
set_rebalance_verbose reb verbose = record reb { verbose = verbose }

pub record Global : Type 0 where
  pub env : Env
  pub power : Power
  pub store : Store
  pub mappings : Mappings
  pub max_xstreams : ℕ
  pub partitions : Partitions
  pub rebalance : RebalanceConfig

-- The calls that renew the statistics, on the state as a whole.
unfoldable pub renew_partitions : Global → Option Global
renew_partitions g = do
  parts ← update_partition_stats g.env g.store g.partitions
  some (record g { partitions = parts })

unfoldable pub renew_numas : Global → Option Global
renew_numas g = do env ← update_numa_stats g.store g.env; some (record g { env = env })

unfoldable pub renew_power : Global → Option Global
renew_power g = do
  power ← update_power_stats (get_rebalance_interval g.rebalance) g.env g.store g.power
  some (record g { power = power })
