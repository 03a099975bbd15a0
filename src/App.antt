-- ===== src/App.antt =====
-- How the parts are put together: src/app/abt_st.c starts and ends the library, src/app/main.c submits
-- requests to the loads of a mapping, and src/app/st.c is what a request runs.
pub mod Submit
pub mod Main
pub mod Ended
pub mod Submitted
pub mod Totals
pub mod UnderWay
pub mod Applied
pub mod Started
pub mod Serving
use abtst.Common.{
  ℕ, Bool, true, false, Option, none, some, List, [], ◌∷◌, require, ◌>>=◌, ◌>>◌, if◌then◌else◌,
}
use abtst.Common.Int.{ℤ, pos, negsuc, is_zero_ℤ}
use abtst.Abt.{Abt}
use abtst.Env.{Numa, init_env}
use abtst.Power.{init_power}
use abtst.Partition.{Partition, init_partitions}
use abtst.Stream.Lifecycle.{Streams, init_streams, finalize_streams}
use abtst.Mapping.Create.{free_mappings}
use abtst.Global.{RebalanceConfig, Global}

-- The partitions where the caller names none.
unfoldable pub default_partitions : List Partition
default_partitions =
    record { partition_id = 0; partition_cores = 2 ∷ 3 ∷ 4 ∷ 5 ∷ 6 ∷ 7 ∷ 8 ∷ 9 ∷ [] }
    ∷ record { partition_id = 1; partition_cores = 10 ∷ 11 ∷ 12 ∷ 13 ∷ 14 ∷ 15 ∷ 16 ∷ 17 ∷ [] }
    ∷ []

-- What the system says: its cores and nodes, whether the two calls of calloc succeed, and the code
-- of pthread_create.
pub record System : Type 0 where
  pub cores : ℕ
  pub nodes : ℕ
  pub cpus : ℕ → Option Numa
  pub map_allocated : Bool
  pub streams_allocated : Bool
  pub thread_ret : ℤ

abbrev pub params_of : Option (List Partition) → List Partition
params_of none = default_partitions
params_of (some init) = init

-- abtst_init_rebalance, but for the thread, the queue and the lock.
unfoldable pub init_rebalance : ℤ → ℤ × RebalanceConfig
init_rebalance thread_ret = (
  (if is_zero_ℤ thread_ret then pos 0 else negsuc 0),
  record { rebalance_level = 1; rebalance_interval = 1; verbose = 0 },
)

module _ (abt : Abt) where
  open abt use {Runtime}

  -- abtst_init, which drops the codes of what it calls. Without a map of the partitions, the streams
  -- are configured through NULL. Where making the streams fails, the array is not there, and `array` in
  -- the result says so.
  unfoldable pub init_global :
      System
      → Option (List Partition)
      → Streams
      → Global
      → Runtime
      → Option (ℤ × Streams × Global × Runtime)
  unfolding init_rebalance
  init_global system params streams g rt = do
    env ← init_env system.cores system.nodes system.cpus g.env
    let power = init_power env g.power
    (ret, parts) ← init_partitions system.map_allocated env (params_of params) g.partitions
    require system.map_allocated
    let (ret', streams', s, rt') =
        init_streams abt system.streams_allocated env.nr_cores parts.partition_map streams g.store
          rt
    let (ret'', reb) = init_rebalance system.thread_ret
    some (
      pos 0,
      streams',
      record g {
        env = env;
        power = power;
        store = s;
        max_xstreams = streams'.max_xstreams;
        partitions = parts;
        rebalance = reb;
      },
      rt',
    )

  -- abtst_finalize, after the rebalancing thread was joined.
  unfoldable pub finalize_global : Streams → Global → Runtime → Option (ℤ × Global × Runtime)
  finalize_global streams g rt = do
    (ret, s, rt') ← finalize_streams abt streams g.store rt
    some (ret, record g { store = s }, free_mappings abt g.mappings s rt')
