-- ===== src/Examples/Starting.antt =====
-- The library started on a machine like that of the examples, with one NUMA, and threads that share
-- the queue of requests.
use abtst.Common.{ℕ, ◌<◌, ◌≡◌, ◌≢◌, refl, true, false, none, some, [], ◌∷◌, ◌++◌, arith, sub_u32}
use abtst.Common.Int.{pos}
use abtst.Common.Store.{write}
use abtst.Env.{Env, init_env}
use abtst.Global.{Global}
use abtst.Mapping.{UserKey}
use abtst.Mapping.Table.{MappingType}
use abtst.Mapping.Create.{create_mapping}
use abtst.Mapping.Served.{IsServed}
use abtst.Partition.{Partitions, init_partitions}
use abtst.Stream.Lifecycle.{Streams, StreamArray}
use abtst.App.{System, init_global}
use abtst.App.Started.{MakesStreams, Configured, init_global-Configured}
use abtst.App.Serving.{init_global-IsServed}
use abtst.Rebalance.Requests.{RequestType}
use abtst.Rebalance.Requests.Lock.{Entry, first_at, Job, Pc, State, set_pc, act, start, Step, Reach}
use abtst.Rebalance.Requests.Exclusion.{IsLocked, Reach-IsLocked}
use abtst.Rebalance.Requests.Moves.{in_hand, expects, scans}
use abtst.Rebalance.Requests.Order.{Reach-accepted, Reach-sound}
use abtst.Examples.Machine.{counting, global, config}
use abtst.Examples.Mappings.{counting-IsWorking, hash_info, hash_info-IsUsable}

counting-MakesStreams : MakesStreams counting
counting-MakesStreams = record {
  selfs = λ rt. refl;
  main_pools = λ xstream rt. refl;
  pools = λ rt. refl;
  configs = λ stream rt. refl;
  scheds = λ pool config rt. refl;
  xstreams = λ sched rank rt. refl;
}

abbrev system : System
system = record {
  cores = 4;
  nodes = 1;
  cpus = λ i. none;
  map_allocated = true;
  streams_allocated = true;
  thread_ret = pos 0;
}

abbrev env_1 : Env
env_1 = record (global.env) {
  nr_cores = 4;
  nr_numas = 1;
  numa_info = write global.env.numa_info 0 (record { start_core = 0; end_core = sub_u32 4 1 });
  rebalance_enabled = false;
  stopping = false;
}

abbrev parts_1 : Partitions
parts_1 = record (global.partitions) {
  nr_partitions = 2;
  partitions = config;
  partition_map = write (write (write (λ c. none) 0 (some 0)) 1 (some 0)) 2 (some 1);
}

env_1_read : init_env 4 1 (λ i. none) global.env ≡ some env_1
unfolding init_env
env_1_read = refl

parts_1_set : init_partitions true env_1 config global.partitions ≡ some (pos 0, parts_1)
unfolding init_partitions
parts_1_set = refl

abbrev no_streams : Streams
no_streams = record {
  nr_xstreams = 0;
  init_xstreams = 0;
  max_xstreams = 0;
  array = StreamArray.null;
}

init_global-Configured_example :
    (streams' : Streams) × (g' : Global) × (rt' : ℕ) × (init_global counting system
        (some config)
        no_streams
        global
        1
      ≡ some (pos 0, streams', g', rt'))
    × (g'.max_xstreams ≡ 4)
    × (g'.partitions ≡ parts_1)
    × ((j : ℕ) → j < 4 → Configured parts_1.partition_map j (g'.store.streams j))
    × (g'.mappings.nr_mappings ≡ 0)
init_global-Configured_example =
    init_global-Configured counting counting-MakesStreams system (some config) no_streams global 1
      env_1 parts_1 (pos 0) refl refl env_1_read parts_1_set

init_global-IsServed_example :
    (streams' : Streams) × (g1 : Global) × (rt1 : ℕ) × (g2 : Global) × (rt2 : ℕ) × (init_global
        counting system
        (some config)
        no_streams
        global
        1
      ≡ some (pos 0, streams', g1, rt1))
    × (create_mapping counting (some 100) MappingType.hashing (some hash_info) 0 g1 rt1
        ≡ some (pos g1.mappings.nr_mappings, g2, rt2))
    × ((rand : ℕ) (key : UserKey) → IsServed g2 g1.mappings.nr_mappings 0 64 rand key)
init_global-IsServed_example =
    init_global-IsServed counting counting-MakesStreams counting-IsWorking system (some config)
      no_streams global 1 env_1 parts_1 100 0 1 hash_info
      (record { partition_id = 0; partition_cores = 0 ∷ 1 ∷ [] }) refl refl env_1_read parts_1_set
      refl refl (omega arith) hash_info-IsUsable (omega arith)

-- The thread 1 adds a request while the thread 0 waits for the lock.
abbrev request : Entry
request = record { address = 4096; req = record { type = RequestType.add_core; core = pos 2 } }

abbrev contended : State
contended =
    act 1
      (act 0 (act 1 (set_pc 0 (Pc.trying Job.scan) (set_pc 1 (Pc.trying (Job.add request)) start))))

contended-Reach : Reach contended
unfolding set_pc start
contended-Reach =
    let s1 = set_pc 1 (Pc.trying (Job.add request)) start in
    let s2 = set_pc 0 (Pc.trying Job.scan) s1 in
    let r1 : Reach s1 =
      Reach.stepped start s1 Reach.started (Step.begin_add 1 request start refl) in
    let r2 : Reach s2 = Reach.stepped s1 s2 r1 (Step.begin_scan s1 refl) in
    let r3 : Reach (act 1 s2) = Reach.stepped s2 (act 1 s2) r2 (Step.go_on 1 s2) in
    let r4 : Reach (act 0 (act 1 s2)) =
      Reach.stepped (act 1 s2) (act 0 (act 1 s2)) r3 (Step.go_on 0 (act 1 s2)) in
    Reach.stepped (act 0 (act 1 s2)) contended r4 (Step.go_on 1 (act 0 (act 1 s2)))

Reach-IsLocked_example : IsLocked contended
Reach-IsLocked_example = Reach-IsLocked contended contended-Reach

Reach-accepted_example :
    contended.shared.accepted
    ≡ (contended.shared.handled ++ in_hand (contended.pcs 0)) ++ contended.shared.req_q
Reach-accepted_example = Reach-accepted contended contended-Reach

Reach-sound_example :
    ((t : ℕ) → contended.pcs t ≢ Pc.broken)
    × ((t : ℕ) → t ≢ 0 → scans (contended.pcs t) ≡ false)
    × ((at : ℕ) → expects (contended.pcs 0) ≡ some at → first_at contended.shared.req_q ≡ some at)
Reach-sound_example = Reach-sound contended contended-Reach
