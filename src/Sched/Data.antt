-- ===== src/Sched/Data.antt =====
-- The data of a scheduler: what sched_init and sub_sched_init store, and the accessors of the latter
-- (src/sched/base.c, src/sched/sub.c).
use abtst.Common.{ℕ, Option, none, some, List, ltb, ◌==◌, if◌then◌else◌, get_elem?}
use abtst.Common.Int.{ℤ, pos, negsuc}
use abtst.Common.Store.{write}
use abtst.Sched.Units.{PoolAccess, SchedData, SubSchedData, World, Units}

abbrev pub sched_event_freq : ℕ
sched_event_freq = 50

-- The value that a configuration gives to a variable, which keeps its own where there is none.
abbrev pub read_var : Option ℕ → ℕ → ℕ
read_var none old = old
read_var (some v) old = v

unfoldable pub access_num : PoolAccess → ℕ
access_num PoolAccess.priv = 0
access_num PoolAccess.spsc = 1
access_num PoolAccess.mpsc = 1
access_num PoolAccess.spmc = 2
access_num PoolAccess.mpmc = 2

unfoldable pub cmp_access : ℕ → ℕ → ℤ
cmp_access p1 p2 = if ltb p2 p1 then pos 1 else if ltb p1 p2 then negsuc 0 else pos 0

-- `qsort` is the C library's, which takes the comparison.
module _ (units : Units) (qsort : (ℕ → ℕ → ℤ) → List ℕ → List ℕ) where
  open units use {
    Runtime, sched_config_read, sched_get_num_pools, sched_get_pools, sched_set_data,
    sched_get_data, pool_get_access,
  }

  unfoldable pub sort_pools : Runtime → List ℕ → List ℕ
  unfolding cmp_access access_num
  sort_pools rt pools =
      qsort
        (λ p1 p2.
          cmp_access (access_num (pool_get_access p1 rt)) (access_num (pool_get_access p2 rt)))
        pools

  -- `data_at` is the address that malloc returns, whose memory is not cleared.
  unfoldable pub sched_init : (sched config data_at : ℕ) → World Runtime → ℤ × World Runtime
  unfolding sort_pools
  sched_init sched config data_at w =
      let (freq, stream) = sched_config_read config w.rt in
      let num_pools = sched_get_num_pools sched w.rt in
      let (ret, pools) = sched_get_pools sched num_pools w.rt in
      let made : SchedData = record {
        event_freq = read_var freq sched_event_freq;
        num_pools = num_pools;
        pools = if ltb 1 num_pools then sort_pools w.rt pools else pools;
        sleep_nsec = 100;
        stream = read_var stream (w.datas data_at).stream;
      } in
      let (ret', rt') = sched_set_data sched data_at w.rt in
      (ret', record w { datas = write w.datas data_at made; rt = rt' })

module _ (units : Units) where
  open units use {
    Runtime, sched_config_read, sched_get_num_pools, sched_get_pools, sched_set_data,
    sched_get_data,
  }

  unfoldable pub sub_sched_init : (sched config data_at : ℕ) → World Runtime → ℤ × World Runtime
  sub_sched_init sched config data_at w =
      let (freq, load) = sched_config_read config w.rt in
      let num_pools = sched_get_num_pools sched w.rt in
      let (ret, pools) = sched_get_pools sched num_pools w.rt in
      let made : SubSchedData = record {
        event_freq = read_var freq sched_event_freq;
        num_pools = num_pools;
        pools = pools;
        load = read_var load (w.sub_datas data_at).load;
      } in
      let (ret', rt') = sched_set_data sched data_at w.rt in
      (ret', record w { sub_datas = write w.sub_datas data_at made; rt = rt' })

  unfoldable pub sub_sched_get_load : ℕ → World Runtime → ℕ
  sub_sched_get_load sched w =
      if sched == 0 then 0 else (w.sub_datas (sched_get_data sched w.rt)).load

  -- A scheduler without pools is not defined.
  unfoldable pub sub_sched_get_pool : ℕ → World Runtime → Option ℕ
  sub_sched_get_pool sched w =
      if sched == 0 then some 0 else get_elem? (w.sub_datas (sched_get_data sched w.rt)).pools 0
