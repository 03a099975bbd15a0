-- ===== src/Examples/Schedulers.antt =====
-- Schedulers on the example machine.
use abtst.Common.{
  ℕ, ◌-◌, ◌≡◌, ◌≢◌, refl, true, none, some, List, [], ◌∷◌, ◌++◌, arith, length, ==_refl, ◌==◌,
  if◌then◌else◌,
}
use abtst.Common.Int.{pos}
use abtst.Common.Store.{Array, write}
use abtst.Load.{inc_ended}
use abtst.Sched.Units.{PoolAccess, World, Units}
use abtst.Sched.Data.{sub_sched_init, sub_sched_get_load, sub_sched_get_pool}
use abtst.Sched.Laws.{SameUnits, IsQueue, IsTame}
use abtst.Sched.Pass.{Pass, pass_loop, sched_run}
use abtst.Sched.Batch.{sub_sched_run}
use abtst.Sched.Step.{IsUnit}
use abtst.Sched.Swept.{Swept}
use abtst.Sched.Ready.{Ready}
use abtst.Sched.Sweep.{pass_loop-Swept}
use abtst.Sched.Drain.{ran, sub_sched_run-ran}
use abtst.Sched.Turns.{sched_run-some}
use abtst.Sched.Saved.{Remembers, sub_sched_init-get}
use abtst.Examples.Machine.{env, streams, loads}

-- A runtime with nothing but pools, and the data of the schedulers.
pub record Pools : Type 0 where
  pub pools : Array (List ℕ)
  pub datas : Array ℕ

abbrev taken : List ℕ → ℕ → Pools → ℕ × Pools
taken [] pool rt = (0, rt)
taken (u ∷ q) pool rt = (u, record rt { pools = write rt.pools pool q })

-- A configuration is the pointer that it holds, a unit is its scheduler, and a scheduler's pool has
-- its number. What a unit runs ends a packet of each load.
abbrev pub queues : Units
queues = record {
  Runtime = Pools;
  sched_config_read = λ config rt. (none, some config);
  sched_get_num_pools = λ sched rt. 1;
  sched_get_pools = λ sched max rt. (pos 0, sched ∷ []);
  sched_set_data = λ sched data_at rt. (pos 0, record rt { datas = write rt.datas sched data_at });
  sched_get_data = λ sched rt. rt.datas sched;
  sched_has_to_stop = λ sched rt. true;
  pool_get_access = λ pool rt. PoolAccess.mpmc;
  pool_get_size = λ pool rt. length (rt.pools pool);
  pool_pop = λ pool rt. taken (rt.pools pool) pool rt;
  pool_push =
      λ pool unit rt. record rt { pools = write rt.pools pool (rt.pools pool ++ unit ∷ []) };
  unit_get_sched = λ unit pool rt. unit;
  xstream_run_unit = λ unit pool w. record w {
    store = record (w.store) { loads = λ l. inc_ended (w.store.loads l) };
  };
  xstream_check_events = λ sched w. w;
}

abbrev pub contents : ℕ → Pools → List ℕ
contents pool rt = rt.pools pool

same_units : (pool : ℕ) (q : List ℕ) (rt : Pools) → SameUnits queues rt (taken q pool rt).1
same_units pool [] rt = record { scheds = λ u p. refl; datas = λ s. refl }
same_units pool (u ∷ q) rt = record { scheds = λ u p. refl; datas = λ s. refl }

taken_others :
    (pool pool' : ℕ) (q : List ℕ) (rt : Pools)
    → pool' ≢ pool
    → contents pool' (taken q pool rt).1 ≡ contents pool' rt
taken_others pool pool' [] rt ne = refl
taken_others pool pool' (u ∷ q) rt ne = ground arith

pub queues-IsQueue : IsQueue queues contents
queues-IsQueue = record {
  size = λ pool rt. refl;
  pop_none = λ pool rt e. rw e refl;
  pop_unit = λ pool unit q rt e. rw e refl;
  pop_rest = λ pool unit q rt e. rw (e, ==_refl pool) refl;
  pop_others = λ pool pool' rt ne. taken_others pool pool' (rt.pools pool) rt ne;
  pop_same = λ pool rt. same_units pool (rt.pools pool) rt;
  push = λ pool unit rt. rw (==_refl pool) refl;
  push_others = λ pool pool' unit rt ne. ground arith;
  push_same = λ pool unit rt. record { scheds = λ u p. refl; datas = λ s. refl };
}

pub queues-IsTame : IsTame queues contents
unfolding inc_ended
queues-IsTame = record {
  streams = λ unit pool w. refl;
  pools = λ unit pool j w. refl;
  curr_ranks = λ unit pool l w. refl;
  dest_ranks = λ unit pool l w. refl;
  sub_datas = λ unit pool w. refl;
  same = λ unit pool w. record { scheds = λ u p. refl; datas = λ s. refl };
}

-- The units 111, 112 and 113 run the loads of the stream 1, of which 12 is to run on the stream 2.
abbrev busy : World Pools
busy = record {
  store = record {
    streams = λ i. record (streams i) { pool = i };
    loads = λ l. if l == 12 then record (loads l) { dest_rank = 2 } else loads l;
  };
  datas =
      λ d. record { event_freq = 50; num_pools = 1; pools = 1 ∷ []; sleep_nsec = 100; stream = 1 };
  sub_datas = λ d. record { event_freq = 50; num_pools = 1; pools = d ∷ []; load = d - 100 };
  rt = record {
    pools = λ p. if p == 1 then 111 ∷ 112 ∷ 113 ∷ [] else if p == 112 then 7 ∷ 8 ∷ [] else [];
    datas = λ sched. sched;
  };
}

IsUnit-111 : IsUnit queues contents 4 1 1 111 busy
unfolding sub_sched_get_pool sub_sched_get_load
IsUnit-111 = record {
  exists = λ e. omega arith;
  sched = λ e. omega arith;
  sub_pool = 111;
  has_pool = refl;
  here = refl;
  inside = omega arith;
}

IsUnit-112 : IsUnit queues contents 4 1 1 112 busy
unfolding sub_sched_get_pool sub_sched_get_load
IsUnit-112 = record {
  exists = λ e. omega arith;
  sched = λ e. omega arith;
  sub_pool = 112;
  has_pool = refl;
  here = refl;
  inside = omega arith;
}

IsUnit-113 : IsUnit queues contents 4 1 1 113 busy
unfolding sub_sched_get_pool sub_sched_get_load
IsUnit-113 = record {
  exists = λ e. omega arith;
  sched = λ e. omega arith;
  sub_pool = 113;
  has_pool = refl;
  here = refl;
  inside = omega arith;
}

abbrev first_pass : Pass Pools
first_pass = record { run_cnt = 0; run_subpool = 0; world = busy }

busy-Ready : Ready queues contents 4 1 busy.store.streams (111 ∷ 112 ∷ 113 ∷ []) [] first_pass
unfolding sub_sched_get_load
busy-Ready = record {
  awake = refl;
  apart = λ i j i_lt j_lt e. e;
  shown = refl;
  counted = refl;
  ours = (IsUnit-111, (IsUnit-112, (IsUnit-113, tt)));
  distinct = (refl, (refl, (refl, tt)));
  settled = tt;
}

pass_loop-Swept_example :
    (p : Pass Pools) × (pass_loop queues 4 4 env 1 1 first_pass ≡ some p)
    × Swept queues contents 4 1 busy.store.streams (111 ∷ 112 ∷ 113 ∷ []) [] busy p.world
pass_loop-Swept_example =
    pass_loop-Swept queues contents queues-IsQueue queues-IsTame 4 1 env (omega arith) refl 4
      (111 ∷ 112 ∷ 113 ∷ []) busy (omega arith) busy-Ready

sub_sched_run-ran_example :
    (sub_sched_run queues 2 16 112 busy ≡ some (ran queues 112 (7 ∷ 8 ∷ []) busy))
    × (contents 112 (ran queues 112 (7 ∷ 8 ∷ []) busy).rt ≡ [])
sub_sched_run-ran_example =
    sub_sched_run-ran queues contents queues-IsQueue 112 (λ u w. refl) 2 16 112 (7 ∷ 8 ∷ []) busy
      (omega arith) (omega arith) refl refl refl ((λ e. omega arith), ((λ e. omega arith), tt))

-- The machine with nothing to run.
abbrev quiet : World Pools
quiet = record busy { rt = record { pools = λ p. []; datas = λ sched. sched } }

sched_run-some_example : (w' : World Pools) × (sched_run queues 50 1 4 env 9 quiet ≡ some w')
sched_run-some_example =
    sched_run-some queues contents queues-IsQueue 50 1 4 env 9 1 quiet (λ rt. refl) refl refl
      (omega arith) (omega arith) (omega arith) (omega arith)

queues-Remembers : Remembers queues
queues-Remembers sched data_at rt = rw (==_refl sched) refl

sub_sched_init-get_example :
    (sub_sched_get_load queues 9 (sub_sched_init queues 9 12 300 quiet).1 ≡ 12)
    × (sub_sched_get_pool queues 9 (sub_sched_init queues 9 12 300 quiet).1 ≡ some 9)
sub_sched_init-get_example =
    sub_sched_init-get queues queues-Remembers 9 12 300 12 9 [] none (pos 0) quiet
      (λ e. omega arith) refl refl
