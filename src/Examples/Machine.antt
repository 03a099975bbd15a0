-- ===== src/Examples/Machine.antt =====
-- The machine of the examples.
use abtst.Common.{ℕ, suc, Bool, true, false, none, some, List, [], ◌∷◌, ltb, ◌==◌, if◌then◌else◌}
use abtst.Common.Int.{pos}
use abtst.Common.Store.{Array}
use abtst.Abt.{Abt}
use abtst.Env.{Env, Numa, cores_of}
use abtst.Load.{Load}
use abtst.Stream.{Stream, Store, SortParam}
use abtst.Partition.{Partition, Partitions}
use abtst.Partition.Stats.{cores_used, depth_used}
use abtst.Power.{Power}
use abtst.Mapping.Table.{MappingType, Mapping, Mappings}
use abtst.Global.{Global}

abbrev pub stream_with : ℕ → Bool → ℕ → List ℕ → ℕ → ℕ → Stream
stream_with rank used part queue nr depth = record {
  rank = rank;
  used = used;
  part_id = part;
  xstream = 0;
  pool = rank;
  sched = 0;
  load_q = queue;
  nr_loads = nr;
  blocking = false;
  total_qdepth = depth;
  sleep_nsec = 500000000;
}

abbrev pub streams : Array Stream
streams i =
    if i == 0
    then stream_with 0 true 0 (10 ∷ []) 1 10
    else if i == 1
    then stream_with 1 true 0 (11 ∷ 12 ∷ 13 ∷ []) 3 300
    else if i == 2
    then stream_with 2 true 1 (14 ∷ []) 1 100
    else stream_with i false 0 [] 0 0

abbrev rank_of : ℕ → ℕ
rank_of l = if l == 10 then 0 else if l == 14 then 2 else 1

abbrev pub loads : Array Load
loads l = record {
  load_id = l;
  used = true;
  pkt_started = if l == 10 then 10 else 100;
  pkt_ended = 0;
  init_rank = rank_of l;
  curr_rank = rank_of l;
  dest_rank = rank_of l;
  pool = 0;
  sched = 0;
}

abbrev pub store : Store
store = record { streams = streams; loads = loads }

abbrev pub numa_info : Array Numa
numa_info k =
    if k == 0
    then record { start_core = 0; end_core = 1 }
    else record { start_core = 2; end_core = 3 }

abbrev pub env : Env
env = record {
  nr_cores = 4;
  nr_numas = 2;
  numa_info = numa_info;
  numa_stat = λ k. record { used_cores = 0; avg_qdepth = 0 };
  rebalance_enabled = true;
  stopping = false;
}

abbrev pub config : List Partition
config =
    record { partition_id = 0; partition_cores = 0 ∷ 1 ∷ [] }
    ∷ record { partition_id = 1; partition_cores = 2 ∷ [] }
    ∷ []

abbrev pub partitions : Partitions
partitions = record {
  nr_partitions = 2;
  partitions = config;
  partition_map = λ c. if ltb c 2 then some 0 else if c == 2 then some 1 else none;
  numa_stats = λ p k. record {
    used_cores = cores_used p streams (cores_of (numa_info k));
    qdepth = depth_used p streams (cores_of (numa_info k));
  };
  stats = λ p. record { used_cores = 0; qdepth = 0 };
}

abbrev pub power : Power
power = record { ps_state = λ k. false; ps_pct = λ k. 90; ps_enabled = true; nr_ps_numas = pos 0 }

abbrev no_mapping : Mapping
no_mapping = record {
  mapping_id = pos 0;
  partition_id = 0;
  type = MappingType.hashing;
  param = none;
  scheme = none;
  loads = record { partition_id = 0; nr_loads = 0; loads = 0 };
}

abbrev pub no_mappings : Mappings
no_mappings = record { nr_mappings = 0; mappings = λ k. no_mapping }

abbrev pub global : Global
global = record {
  env = env;
  power = power;
  store = store;
  mappings = no_mappings;
  max_xstreams = 4;
  partitions = partitions;
  rebalance = record { rebalance_level = 3; rebalance_interval = 1; verbose = 0 };
}

-- The two streams of the first NUMA as the sorting lists them.
abbrev pub idle : SortParam
idle = record { ios = pos 10; stream = 0 }

abbrev pub busy : SortParam
busy = record { ios = pos 300; stream = 1 }

-- A runtime that counts the handles that it gave out, and in which no call fails.
abbrev pub counting : Abt
counting = record {
  Runtime = ℕ;
  pool_create_basic = λ rt. (pos 0, rt, suc rt);
  pool_add_sched = λ pool sched rt. (pos 0, rt);
  sched_config_create = λ p rt. (pos 0, rt, suc rt);
  sched_config_free = λ config rt. rt;
  sched_create = λ pool config rt. (pos 0, rt, suc rt);
  sched_free = λ sched rt. (pos 0, rt);
  xstream_self = λ rt. (pos 0, 1, rt);
  xstream_get_main_pool = λ xstream rt. (pos 0, 1, rt);
  xstream_create_with_rank = λ sched rank rt. (pos 0, rt, suc rt);
  xstream_join = λ xstream rt. (pos 0, rt);
  xstream_free = λ xstream rt. (pos 0, 0, rt);
}
