-- ===== src/Load/Free.antt =====
-- The end of src/load/load.c: freeing the loads of a mapping, and the stream on which a load runs.
use abtst.Common.{
  ℕ, ◌+◌, Option, some, List, [], ◌∷◌, ltb, ◌==◌, if◌then◌else◌, range, require, ◌>>◌,
}
use abtst.Common.Store.{Array}
use abtst.Abt.{Abt}
use abtst.Load.{Load}
use abtst.Load.Init.{Loads}
use abtst.Sched.{free_sched}
use abtst.Stream.{Store}

-- map_load_to_stream. A load past the array is not defined.
unfoldable pub map_load_to_stream : Loads → ℕ → Store → Option ℕ
map_load_to_stream loads load s =
    require (ltb load loads.nr_loads) >> some (s.loads (loads.loads + load)).curr_rank

module _ (abt : Abt) where
  open abt use {Runtime}

  -- The loop of abtst_free_loads; a handle of 0 is no scheduler.
  unfoldable pub free_each : Array Load → ℕ → List ℕ → Runtime → Runtime
  unfolding free_sched
  free_each loads base [] rt = rt
  free_each loads base (i ∷ is) rt =
      free_each loads base is
        (if (loads (base + i)).sched == 0 then rt else free_sched abt (loads (base + i)).sched rt)

  -- The address 0 is NULL.
  unfoldable pub free_loads : Loads → Store → Runtime → Runtime
  unfolding free_each
  free_loads loads s rt =
      if loads.loads == 0 then rt else free_each s.loads loads.loads (range 0 loads.nr_loads) rt
