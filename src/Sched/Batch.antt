-- ===== src/Sched/Batch.antt =====
-- sub_sched_run (src/sched/sub.c): the scheduler of a load runs a batch of its packets.
use abtst.Common.{
  ℕ, zero, suc, ◌+◌, true, false, ◌||◌, Option, none, some, List, [], ◌∷◌, leb, ◌==◌, get_elem?,
  range, ◌>>=◌,
}
use abtst.Sched.Units.{World, Units}

abbrev pub max_batch_count : ℕ
max_batch_count = 16

module _ (units : Units) where
  open units use {Runtime, sched_get_data, pool_pop, xstream_run_unit}

  -- The loop on one pool; `none` is for fuel that runs out.
  unfoldable pub batch_pool : (fuel pool run_cnt : ℕ) → World Runtime → Option (ℕ × World Runtime)
  batch_pool zero pool run_cnt w = none
  batch_pool (suc fuel) pool run_cnt w =
      let (unit, rt) = pool_pop pool w.rt in
      let w' = record w { rt = rt } in
      let ran = xstream_run_unit unit pool w' in
      elim (unit == 0) [
        | true ↦ some (run_cnt, w')
        | false ↦ elim (leb max_batch_count (run_cnt + 1)) [
          | true ↦ some (run_cnt + 1, ran)
          | false ↦ batch_pool fuel pool (run_cnt + 1) ran
        ]
      ]

  -- The loop over the pools, whose indices are listed.
  unfoldable pub batch_pools :
      ℕ → (pools is : List ℕ) → ℕ → World Runtime → Option (ℕ × World Runtime)
  unfolding batch_pool
  batch_pools fuel pools [] run_cnt w = some (run_cnt, w)
  batch_pools fuel pools (i ∷ is) run_cnt w = do
    pool ← get_elem? pools i
    (run_cnt', w') ← batch_pool fuel pool run_cnt w
    batch_pools fuel pools is run_cnt' w'

  unfoldable pub batch_loop :
      (rounds fuel : ℕ) → (pools is : List ℕ) → World Runtime → Option (World Runtime)
  batch_loop zero fuel pools is w = none
  batch_loop (suc rounds) fuel pools is w = batch_pools fuel pools is 0 w >>= λ r.
      elim (r.0 == 0 || leb max_batch_count r.0) [
        | true ↦ some r.1
        | false ↦ batch_loop rounds fuel pools is r.1
      ]

  unfoldable pub sub_sched_run : (rounds fuel sched : ℕ) → World Runtime → Option (World Runtime)
  sub_sched_run rounds fuel sched w =
      let data_of = w.sub_datas (sched_get_data sched w.rt) in
      batch_loop rounds fuel data_of.pools (range 0 data_of.num_pools) w
