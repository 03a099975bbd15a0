-- ===== src/Examples/Following.antt =====
-- The rebalancer and the schedulers together on the example machine.
use abtst.Common.{◌+◌, ◌-◌, ◌≡◌, refl, arith, some, [], ◌∷◌, ◌==◌, if◌then◌else◌}
use abtst.Stream.Placed.{IsPlaced}
use abtst.Sched.Units.{World}
use abtst.Sched.Data.{sub_sched_get_load, sub_sched_get_pool}
use abtst.Sched.Orderly.{Orderly}
use abtst.Sched.Tour.{tour, Delivered, tour-Delivered}
use abtst.Sched.Relocated.{Carried, relocated}
use abtst.Global.{Global}
use abtst.Rebalance.InPartition.{reb_in_partitions}
use abtst.Rebalance.Followed.{Followed, level-Followed}
use abtst.Examples.Machine.{global, store}
use abtst.Examples.Rebalancing.{isort, isort-IsSort, global-IsReady}
use abtst.Examples.Schedulers.{Pools, queues, contents, queues-IsQueue, queues-IsTame}

-- The unit 100 + l runs the load l, and stands in the pool of the stream that l is queued on.
abbrev world : World Pools
world = record {
  store = store;
  datas =
      λ d. record { event_freq = 50; num_pools = 1; pools = d ∷ []; sleep_nsec = 100; stream = d };
  sub_datas = λ d. record { event_freq = 50; num_pools = 1; pools = d ∷ []; load = d - 100 };
  rt = record {
    pools = λ p.
        if p == 0
        then 110 ∷ []
        else if p == 1
        then 111 ∷ 112 ∷ 113 ∷ []
        else if p == 2
        then 114 ∷ []
        else [];
    datas = λ sched. sched;
  };
}

store-IsPlaced : IsPlaced store
store-IsPlaced = record {
  single = λ j l. ground arith;
  apart = λ i j l hi hj. ground arith;
  home = λ j l h. ground arith;
}

world-Orderly : Orderly queues contents 4 world
unfolding sub_sched_get_pool sub_sched_get_load
world-Orderly = record {
  awake = λ j j_lt. ground arith;
  apart = λ i j i_lt j_lt e. ground arith;
  runs_load = λ j u j_lt h. record {
    exists = λ e. ground arith;
    sched = λ e. ground arith;
    sub_pool = u;
    has_pool = ground arith;
    here = ground arith;
    inside = ground arith;
  };
  once = λ j u j_lt. ground arith;
  own_load = λ j u v j_lt hu hv e. ground arith;
  one_sched = λ i j u i_lt j_lt. refl;
}

world-Carried : Carried queues contents 4 world
unfolding sub_sched_get_load
world-Carried = record {
  queued = λ i u i_lt h. (i, ground arith);
  has_unit = λ l (j, q). (j, 100 + l, ground arith, ground arith, ground arith);
}

level-Followed_example :
    (g' : Global) × (w' : World Pools) × (reb_in_partitions isort global ≡ some g')
    × (tour queues contents 4 global.env
          (3 ∷ 1 ∷ 0 ∷ 2 ∷ [])
          (relocated queues contents 4 world g'.store)
        ≡ some w')
    × Followed queues contents global g' w'
level-Followed_example =
    level-Followed isort isort-IsSort queues contents queues-IsQueue queues-IsTame
      (3 ∷ 1 ∷ 0 ∷ 2 ∷ []) global world global-IsReady refl store-IsPlaced (λ j l h. ground arith)
      (λ j h. ground arith) world-Orderly world-Carried
      (omega arith, (omega arith, (omega arith, (omega arith, tt)))) (λ j h. ground arith)

-- The load 12 is to run on the stream 2, and the load 14 on the stream 0.
abbrev astray : World Pools
astray = record world {
  store = record store {
    loads = λ l. record (store.loads l) {
      dest_rank = if l == 12 then 2 else if l == 14 then 0 else (store.loads l).dest_rank;
    };
  };
}

astray-Orderly : Orderly queues contents 4 astray
unfolding sub_sched_get_pool sub_sched_get_load
astray-Orderly = record {
  awake = world-Orderly.awake;
  apart = world-Orderly.apart;
  runs_load = λ j u j_lt h. record {
    exists = λ e. ground arith;
    sched = λ e. ground arith;
    sub_pool = u;
    has_pool = ground arith;
    here = ground arith;
    inside = ground arith;
  };
  once = world-Orderly.once;
  own_load = λ j u v j_lt hu hv e. ground arith;
  one_sched = world-Orderly.one_sched;
}

tour-Delivered_example :
    (w' : World Pools) × (tour queues contents 4 global.env (1 ∷ 2 ∷ 0 ∷ 3 ∷ []) astray ≡ some w')
    × Delivered queues contents 4 global.env astray w'
tour-Delivered_example =
    tour-Delivered queues contents 4 global.env queues-IsQueue queues-IsTame refl
      (1 ∷ 2 ∷ 0 ∷ 3 ∷ []) astray (omega arith, (omega arith, (omega arith, (omega arith, tt))))
      (λ j h. ground arith) astray-Orderly
