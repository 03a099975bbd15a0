-- ===== src/Sched/Units.antt =====
-- The calls of Argobots that the run functions of src/sched/base.c and src/sched/sub.c make, as a
-- parameter. Pools, units and schedulers are named by numbers; 0 is ABT_UNIT_NULL, ABT_SCHED_NULL
-- and NULL.
use abtst.Common.{ℕ, Bool, Option, List}
use abtst.Common.Int.{ℤ}
use abtst.Common.Store.{Array}
use abtst.Stream.{Store}

-- ABT_pool_access.
pub data PoolAccess : Type 0 where
  priv : PoolAccess
  spsc : PoolAccess
  mpsc : PoolAccess
  spmc : PoolAccess
  mpmc : PoolAccess

-- sched_data of base.c.
pub record SchedData : Type 0 where
  pub event_freq : ℕ
  pub num_pools : ℕ
  pub pools : List ℕ
  pub sleep_nsec : ℕ
  pub stream : ℕ

-- sched_data of sub.c.
pub record SubSchedData : Type 0 where
  pub event_freq : ℕ
  pub num_pools : ℕ
  pub pools : List ℕ
  pub load : ℕ

-- What a run function can reach: the streams and the loads, the two kinds of `sched_data` by their
-- addresses, and the runtime.
pub record World (Runtime : Type 0) : Type 0 where
  pub store : Store
  pub datas : Array SchedData
  pub sub_datas : Array SubSchedData
  pub rt : Runtime

pub record Units : Type 1 where
  pub Runtime : Type 0
  -- the values that a configuration has for the two variables
  pub sched_config_read : ℕ → Runtime → Option ℕ × Option ℕ
  pub sched_get_num_pools : ℕ → Runtime → ℕ
  pub sched_get_pools : (sched max_pools : ℕ) → Runtime → ℤ × List ℕ
  pub sched_set_data : (sched data_at : ℕ) → Runtime → ℤ × Runtime
  pub sched_get_data : ℕ → Runtime → ℕ
  pub sched_has_to_stop : ℕ → Runtime → Bool
  pub pool_get_access : ℕ → Runtime → PoolAccess
  pub pool_get_size : ℕ → Runtime → ℕ
  pub pool_pop : ℕ → Runtime → ℕ × Runtime
  pub pool_push : (pool unit : ℕ) → Runtime → Runtime
  pub unit_get_sched : (unit pool : ℕ) → Runtime → ℕ
  -- these two run code of the program
  pub xstream_run_unit : (unit pool : ℕ) → World Runtime → World Runtime
  pub xstream_check_events : ℕ → World Runtime → World Runtime
