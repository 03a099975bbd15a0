-- ===== src/Sched/Turns.antt =====
-- The rounds of a stream's scheduler (sched_run in src/sched/base.c): how long it sleeps, and when it
-- leaves.
use abtst.Common.{
  ==_refl, ℕ, zero, suc, ◌+◌, ◌≤◌, ◌<◌, ◌≡◌, inl, inr, refl, ap, ◌∙◌, true, false, ◌||◌, some, List,
  [], arith, ltb, leb, ◌==◌, if◌then◌else◌, Bool-cases, get_elem?, add_u32, u32_mod,
}
use abtst.Env.{Env}
use abtst.Stream.{update_sleep_time}
use abtst.Sched.Units.{World, Units}
use abtst.Sched.Laws.{IsQueue}
use abtst.Sched.Pass.{
  Pass, Turn, back_off, pass_step, pass_loop, doze, sched_turn, sched_loop, sched_run,
}

-- A time that nanosleep takes, and less than two milliseconds.
pub record IsNap (nsec : ℕ) : Type 0 where
  pub least : 100 ≤ nsec
  pub most : nsec < 2000000

module _ (units : Units) where
  open units use {Runtime}

  -- Where a scheduler's time to sleep is between 100 nanoseconds and two milliseconds, so it is after
  -- the end of a round; where nothing ran in it, that time is added to what the stream has slept, and
  -- where something ran, nothing is.
  pub doze-IsNap :
      (data_at k run_cnt : ℕ) (w : World Runtime)
      → IsNap (w.datas data_at).sleep_nsec
      → IsNap ((doze units data_at k run_cnt w).datas data_at).sleep_nsec
        × ((((doze units data_at k run_cnt w).store.streams k).sleep_nsec ≡ (
            if run_cnt == 0
            then add_u32
                (w.store.streams k).sleep_nsec
                ((doze units data_at k run_cnt w).datas data_at).sleep_nsec
            else (w.store.streams k).sleep_nsec)))
  unfolding doze back_off update_sleep_time
  doze-IsNap data_at k run_cnt w nap = elim (Bool-cases (run_cnt == 0)) [
    | inl idle ↦ elim (Bool-cases (ltb (w.datas data_at).sleep_nsec 1000000)) [
      | inl short ↦
          rw (idle, short, ==_refl data_at, ==_refl k)
            (record { least = omega (arith, nap.least); most = ground (arith, short) }, refl)
      | inr long ↦ rw (idle, long, ==_refl data_at, ==_refl k) (nap, refl)
    ]
    | inr busy ↦
        rw (busy, ==_refl data_at) (record { least = omega arith; most = omega arith }, refl)
  ]

  module _ (contents : ℕ → Runtime → List ℕ) (queue : IsQueue units contents) (fuel max : ℕ)
      (env : Env) (sched data_at freq k pool : ℕ)
      (stops : (rt : Runtime) → units.sched_has_to_stop sched rt ≡ true) where
    abbrev idle_pass : World Runtime → Pass Runtime
    idle_pass w = record { run_cnt = 0; run_subpool = 0; world = w }

    pass_loop-empty :
        (w : World Runtime)
        → contents pool w.rt ≡ []
        → pass_loop units (suc fuel) max env k pool (idle_pass w) ≡ some (idle_pass w)
    unfolding pass_loop pass_step
    pass_loop-empty w e = elim (Bool-cases (w.store.streams k).blocking) [
      | inl still ↦ rw still refl
      | inr awake ↦ rw (awake, queue.pop_none pool w.rt e) refl
    ]

    sched_turn-empty :
        (t : Turn Runtime)
        → contents pool t.world.rt ≡ []
        → t.work_count + 1 < u32_mod
        → t.work_count + 1 < freq
        → (w : World Runtime) × (sched_turn units (suc fuel) max env sched data_at freq k pool t
            ≡ some (false, record { work_count = t.work_count + 1; stop = t.stop; world = w }))
          × (w.rt ≡ t.world.rt)
    unfolding sched_turn doze
    sched_turn-empty t e small early =
        let wraps : add_u32 t.work_count 1 ≡ t.work_count + 1 = omega arith in
        let later : leb freq (t.work_count + 1) ≡ false = ground arith in
        (doze units data_at k 0 t.world, rw (pass_loop-empty t.world e, wraps, later) refl, refl)

    sched_turn-last :
        (t : Turn Runtime)
        → contents pool t.world.rt ≡ []
        → t.work_count + 1 < u32_mod
        → freq ≤ t.work_count + 1
        → (t' : Turn Runtime) × (sched_turn units (suc fuel) max env sched data_at freq k pool t
            ≡ some (true, t'))
    unfolding sched_turn
    sched_turn-last t e small due =
        let wraps : add_u32 t.work_count 1 ≡ t.work_count + 1 = omega arith in
        let now : leb freq (t.work_count + 1) ≡ true = ground arith in
        let checked = units.xstream_check_events sched t.world in
        let stop : (t.stop || units.sched_has_to_stop sched checked.rt) ≡ true =
          ground (arith, stops checked.rt) in
        (
          record { work_count = t.work_count + 1; stop = true; world = checked },
          rw (pass_loop-empty t.world e, wraps, now, stop) refl,
        )

    sched_loop-some :
        (n : ℕ) (t : Turn Runtime)
        → contents pool t.world.rt ≡ []
        → t.work_count + n < u32_mod
        → freq ≤ t.work_count + n
        → 1 ≤ n
        → (w : World Runtime) × (sched_loop units n (suc fuel) max env sched data_at freq k pool t
            ≡ some w)
    unfolding sched_loop
    sched_loop-some zero t e small due one = absurd (omega arith)
    sched_loop-some (suc n) t e small due one = elim (Bool-cases (ltb (t.work_count + 1) freq)) [
      | inl early ↦
          let (w, runs, same) = sched_turn-empty t e (omega arith) (ground arith) in
          let t' : Turn Runtime = record {
            work_count = t.work_count + 1;
            stop = t.stop;
            world = w;
          } in
          let (w', rest) =
            sched_loop-some n t' (ap (contents pool) same ∙ e) (omega arith) (omega arith)
              (ground arith) in
          (w', rw runs rest)
      | inr late ↦
          let (t', runs) = sched_turn-last t e (omega arith) (ground arith) in
          (t'.world, rw runs refl)
    ]

  -- A scheduler whose pool is empty and that is told to stop leaves, within as many rounds as are
  -- between two looks at the events, and one at least.
  pub sched_run-some :
      (contents : ℕ → Runtime → List ℕ) (queue : IsQueue units contents) (rounds fuel max : ℕ)
      (env : Env) (sched pool : ℕ) (w : World Runtime)
      → ((rt : Runtime) → units.sched_has_to_stop sched rt ≡ true)
      → get_elem? (w.datas (units.sched_get_data sched w.rt)).pools 0 ≡ some pool
      → contents pool w.rt ≡ []
      → (w.datas (units.sched_get_data sched w.rt)).event_freq ≤ rounds
      → 1 ≤ rounds
      → rounds < u32_mod
      → 1 ≤ fuel
      → (w' : World Runtime) × (sched_run units rounds fuel max env sched w ≡ some w')
  unfolding sched_run
  sched_run-some contents queue rounds zero max env sched pool w stops first e due one small
        fueled =
      absurd (omega arith)
  sched_run-some contents queue rounds (suc fuel) max env sched pool w stops first e due one small
        fueled =
      let d = w.datas (units.sched_get_data sched w.rt) in
      let (w', runs) =
        sched_loop-some contents queue fuel max env sched (units.sched_get_data sched w.rt)
          d.event_freq d.stream pool stops rounds
          (record { work_count = 0; stop = false; world = w }) e (omega arith) (omega arith) one in
      (w', rw first runs)
