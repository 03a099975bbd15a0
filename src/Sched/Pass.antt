-- ===== src/Sched/Pass.antt =====
-- sched_run (src/sched/base.c): the scheduler of a stream. No other thread acts in the middle of a
-- call; the stream is named by its index `k`, the scheduler's data by its address.
use abtst.Common.{
  ℕ, zero, suc, ◌+◌, ◌-◌, ◌*◌, Bool, true, false, not, ◌&&◌, ◌||◌, Option, none, some, ltb, leb,
  ◌==◌, if◌then◌else◌, get_elem?, add_u32, require, ◌>>=◌, ◌>>◌,
}
use abtst.Common.Store.{write}
use abtst.Env.{Env, is_system_stopping}
use abtst.Load.{update_curr_rank, is_migrating}
use abtst.Stream.{is_blocking, put_stream, put_load, update_sleep_time}
use abtst.Sched.Units.{World, Units}
use abtst.Sched.Data.{sub_sched_get_load, sub_sched_get_pool}

-- The local variables of the inner loop.
pub record Pass (Runtime : Type 0) : Type 0 where
  pub run_cnt : ℕ
  pub run_subpool : ℕ
  pub world : World Runtime

-- Those of the outer loop.
pub record Turn (Runtime : Type 0) : Type 0 where
  pub work_count : ℕ
  pub stop : Bool
  pub world : World Runtime

-- The next time to sleep, in nanoseconds.
unfoldable pub back_off : (run_cnt nsec : ℕ) → ℕ
back_off run_cnt nsec =
    if not (run_cnt == 0) then 100 else if ltb nsec 1000000 then nsec * 2 else nsec

module _ (units : Units) where
  open units use {
    Runtime, sched_get_data, sched_has_to_stop, pool_get_size, pool_pop, pool_push, unit_get_sched,
    xstream_run_unit, xstream_check_events,
  }

  -- The unit of a load that is to run elsewhere; a stream outside the array is not defined.
  unfoldable pub send_away : (max k load unit : ℕ) → World Runtime → Option (World Runtime)
  unfolding update_curr_rank
  send_away max k load unit w = do
    let moving = w.store.loads load
    require (leb moving.curr_rank (k + moving.dest_rank))
    let to = k + moving.dest_rank - moving.curr_rank
    require (ltb to max)
    let s = put_load load (update_curr_rank moving moving.dest_rank) w.store
    some (record w { store = s; rt = pool_push (s.streams to).pool unit w.rt })

  -- A load runs where it has packets, and once after it was made.
  unfoldable pub run_load : (pool unit load sub_pool : ℕ) → Pass Runtime → Pass Runtime
  run_load pool unit load sub_pool p =
      let w = p.world in
      let marked = put_load load (record (w.store.loads load) { used = true }) w.store in
      if not (pool_get_size sub_pool w.rt == 0) || not (w.store.loads load).used
      then record {
        run_cnt = p.run_cnt + 1;
        run_subpool = p.run_subpool + 1;
        world = xstream_run_unit unit pool (record w { store = marked });
      }
      else record p { run_subpool = p.run_subpool + 1 }

  -- A unit that was popped. `true` is for going round again.
  unfoldable pub serve_unit :
      (max : ℕ) → Env → (k pool size unit : ℕ) → Pass Runtime → Option (Bool × Pass Runtime)
  unfolding send_away run_load is_migrating
  serve_unit max env k pool size unit p =
      let sched = unit_get_sched unit pool p.world.rt in
      if sched == 0
      then some
          (false, record p { run_cnt = p.run_cnt + 1; world = xstream_run_unit unit pool p.world })
      else do
        sub_pool ← sub_sched_get_pool units sched p.world
        let load = sub_sched_get_load units sched p.world
        let ranks = p.world.store.loads load
        let away = is_migrating ranks && not (ranks.curr_rank == ranks.dest_rank)
        let ran = run_load pool unit load sub_pool p
        let kept = record ran {
          world = record (ran.world) { rt = pool_push pool unit ran.world.rt };
        }
        if away
            then (send_away max k load unit p.world >>= λ w. some (true, record p { world = w }))
            else some (ltb ran.run_subpool size, (if is_system_stopping env then ran else kept))

  unfoldable pub pass_step :
      (max : ℕ) → Env → (k pool : ℕ) → Pass Runtime → Option (Bool × Pass Runtime)
  unfolding serve_unit
  pass_step max env k pool p =
      let size = pool_get_size pool p.world.rt in
      let (unit, rt) = pool_pop pool p.world.rt in
      let popped = record p { world = record (p.world) { rt = rt } } in
      if unit == 0 then some (false, popped) else serve_unit max env k pool size unit popped

  -- The inner loop; `none` is also for fuel that runs out.
  unfoldable pub pass_loop :
      (fuel max : ℕ) → Env → (k pool : ℕ) → Pass Runtime → Option (Pass Runtime)
  unfolding pass_step
  pass_loop zero max env k pool p = none
  pass_loop (suc fuel) max env k pool p =
      if is_blocking (p.world.store.streams k)
      then some p
      else pass_step max env k pool p >>= λ r. elim r.0 [
        | true ↦ pass_loop fuel max env k pool r.1
        | false ↦ some r.1
      ]

  -- The end of a round: the scheduler sleeps where nothing ran.
  unfoldable pub doze : (data_at k run_cnt : ℕ) → World Runtime → World Runtime
  unfolding back_off update_sleep_time
  doze data_at k run_cnt w =
      let nsec = back_off run_cnt (w.datas data_at).sleep_nsec in
      let w' = record w {
        datas = write w.datas data_at (record (w.datas data_at) { sleep_nsec = nsec });
      } in
      if run_cnt == 0
      then record w' { store = put_stream k (update_sleep_time (w.store.streams k) nsec) w.store }
      else w'

  -- A round of the outer loop; `true` is for leaving it.
  unfoldable pub sched_turn :
      (fuel max : ℕ)
      → Env
      → (sched data_at freq k pool : ℕ) → Turn Runtime
      → Option (Bool × Turn Runtime)
  unfolding pass_loop doze
  sched_turn fuel max env sched data_at freq k pool t = do
    p ← pass_loop fuel max env k pool (record { run_cnt = 0; run_subpool = 0; world = t.world })
    let work_count = add_u32 t.work_count 1
    let checked = xstream_check_events sched p.world
    let stop = t.stop || sched_has_to_stop sched checked.rt
    let idle = p.run_cnt == 0 && p.run_subpool == 0
    let last : Turn Runtime = record { work_count = work_count; stop = stop; world = checked }
    let next : Turn Runtime = record {
      work_count = 0;
      stop = stop;
      world = doze data_at k p.run_cnt checked;
    }
    let other : Turn Runtime = record {
      work_count = work_count;
      stop = t.stop;
      world = doze data_at k p.run_cnt p.world;
    }
    some (
        if leb freq work_count
        then if idle && stop then (true, last) else (false, next)
        else (false, other))

  unfoldable pub sched_loop :
      (rounds fuel max : ℕ)
      → Env
      → (sched data_at freq k pool : ℕ) → Turn Runtime
      → Option (World Runtime)
  unfolding sched_turn
  sched_loop zero fuel max env sched data_at freq k pool t = none
  sched_loop (suc rounds) fuel max env sched data_at freq k pool t =
      sched_turn fuel max env sched data_at freq k pool t >>= λ r. elim r.0 [
        | true ↦ some r.1.world
        | false ↦ sched_loop rounds fuel max env sched data_at freq k pool r.1
      ]

  unfoldable pub sched_run :
      (rounds fuel max : ℕ) → Env → (sched : ℕ) → World Runtime → Option (World Runtime)
  unfolding sched_loop
  sched_run rounds fuel max env sched w = do
    let data_at = sched_get_data sched w.rt
    let data_of = w.datas data_at
    pool ← get_elem? data_of.pools 0
    sched_loop rounds fuel max env sched data_at data_of.event_freq data_of.stream pool
        (record { work_count = 0; stop = false; world = w })
