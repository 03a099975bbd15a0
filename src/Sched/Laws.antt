-- ===== src/Sched/Laws.antt =====
-- What the schedulers (src/sched/base.c, src/sched/sub.c) rely on of Argobots: a pool is a queue, and
-- taking a unit out of it or putting one in changes nothing else. `contents` shows a pool.
use abtst.Common.{ℕ, ◌≡◌, ◌≢◌, List, [], ◌∷◌, ◌++◌, length}
use abtst.Sched.Units.{World, Units}

-- Two states of a runtime in which the units and the schedulers are the same.
pub record SameUnits (units : Units) (a b : units.Runtime) : Type 0 where
  pub scheds : (unit pool : ℕ) → units.unit_get_sched unit pool b ≡ units.unit_get_sched unit pool a
  pub datas : (sched : ℕ) → units.sched_get_data sched b ≡ units.sched_get_data sched a

pub record IsQueue (units : Units) (contents : ℕ → units.Runtime → List ℕ) : Type 0 where
  pub size :
      (pool : ℕ) (rt : units.Runtime) → units.pool_get_size pool rt ≡ length (contents pool rt)
  pub pop_none :
      (pool : ℕ) (rt : units.Runtime) → contents pool rt ≡ [] → units.pool_pop pool rt ≡ (0, rt)
  pub pop_unit :
      (pool unit : ℕ) (q : List ℕ) (rt : units.Runtime)
      → contents pool rt ≡ unit ∷ q
      → (units.pool_pop pool rt).0 ≡ unit
  pub pop_rest :
      (pool unit : ℕ) (q : List ℕ) (rt : units.Runtime)
      → contents pool rt ≡ unit ∷ q
      → contents pool (units.pool_pop pool rt).1 ≡ q
  pub pop_others :
      (pool pool' : ℕ) (rt : units.Runtime)
      → pool' ≢ pool
      → contents pool' (units.pool_pop pool rt).1 ≡ contents pool' rt
  pub pop_same : (pool : ℕ) (rt : units.Runtime) → SameUnits units rt (units.pool_pop pool rt).1
  pub push :
      (pool unit : ℕ) (rt : units.Runtime)
      → contents pool (units.pool_push pool unit rt) ≡ contents pool rt ++ unit ∷ []
  pub push_others :
      (pool pool' unit : ℕ) (rt : units.Runtime)
      → pool' ≢ pool
      → contents pool' (units.pool_push pool unit rt) ≡ contents pool' rt
  pub push_same :
      (pool unit : ℕ) (rt : units.Runtime) → SameUnits units rt (units.pool_push pool unit rt)

-- The program that a unit runs leaves the streams, their pools, the ranks of the loads and the
-- schedulers' data alone: its packets go through the pools of the loads.
pub record IsTame (units : Units) (contents : ℕ → units.Runtime → List ℕ) : Type 0 where
  pub streams :
      (unit pool : ℕ) (w : World units.Runtime)
      → (units.xstream_run_unit unit pool w).store.streams ≡ w.store.streams
  pub pools :
      (unit pool j : ℕ) (w : World units.Runtime)
      → contents (w.store.streams j).pool (units.xstream_run_unit unit pool w).rt
        ≡ contents (w.store.streams j).pool w.rt
  pub curr_ranks :
      (unit pool l : ℕ) (w : World units.Runtime)
      → ((units.xstream_run_unit unit pool w).store.loads l).curr_rank ≡ (w.store.loads l).curr_rank
  pub dest_ranks :
      (unit pool l : ℕ) (w : World units.Runtime)
      → ((units.xstream_run_unit unit pool w).store.loads l).dest_rank ≡ (w.store.loads l).dest_rank
  pub sub_datas :
      (unit pool : ℕ) (w : World units.Runtime)
      → (units.xstream_run_unit unit pool w).sub_datas ≡ w.sub_datas
  pub same :
      (unit pool : ℕ) (w : World units.Runtime)
      → SameUnits units w.rt (units.xstream_run_unit unit pool w).rt
