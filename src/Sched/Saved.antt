-- ===== src/Sched/Saved.antt =====
-- What a load's scheduler stores is what its accessors find (src/sched/sub.c).
use abtst.Common.{ℕ, ◌≡◌, ◌≢◌, refl, false, Option, some, List, ◌∷◌, arith, ◌==◌, ==_refl}
use abtst.Common.Int.{ℤ}
use abtst.Sched.Units.{World, Units}
use abtst.Sched.Data.{sub_sched_init, sub_sched_get_load, sub_sched_get_pool}

module _ (units : Units) where
  open units use {Runtime}

  -- A scheduler finds the data that was set for it.
  abbrev pub Remembers : Type 0
  Remembers =
      (sched data_at : ℕ) (rt : Runtime)
      → units.sched_get_data sched (units.sched_set_data sched data_at rt).1 ≡ data_at

  -- After the init function of a load's scheduler, whose configuration names a load and which has a
  -- pool, the accessors find that load and the first pool.
  pub sub_sched_init-get :
      (remembers : Remembers) (sched config data_at load pool : ℕ) (pools : List ℕ)
      (freq : Option ℕ) (ret : ℤ) (w : World Runtime)
      → sched ≢ 0
      → units.sched_config_read config w.rt ≡ (freq, some load)
      → units.sched_get_pools sched (units.sched_get_num_pools sched w.rt) w.rt
        ≡ (ret, pool ∷ pools)
      → (sub_sched_get_load units sched (sub_sched_init units sched config data_at w).1 ≡ load)
        × (sub_sched_get_pool units sched (sub_sched_init units sched config data_at w).1
            ≡ some pool)
  unfolding sub_sched_init sub_sched_get_load sub_sched_get_pool
  sub_sched_init-get remembers sched config data_at load pool pools freq ret w real read got =
      let live : (sched == 0) ≡ false = ground arith in
      (
        rw (live, remembers sched data_at w.rt, ==_refl data_at, read) refl,
        rw (live, remembers sched data_at w.rt, ==_refl data_at, got) refl,
      )
