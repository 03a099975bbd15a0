-- ===== src/Sched.antt =====
-- src/sched/sched.c: how the schedulers of streams and of loads are made.
pub mod Units
pub mod Data
pub mod Pass
pub mod Batch
pub mod Saved
pub mod Turns
pub mod Drain
pub mod Laws
pub mod Step
pub mod Sending
pub mod Swept
pub mod Ready
pub mod Sweep
pub mod Orderly
pub mod Bound
pub mod Delivery
pub mod Tour
pub mod Relocated
pub mod Steps
pub mod Requeue
use abtst.Common.{ℕ, if◌then◌else◌}
use abtst.Common.Int.{ℤ, pos, negsuc, is_zero_ℤ}
use abtst.Abt.{Abt}

module _ (abt : Abt) where
  open abt use {Runtime, sched_config_create, sched_config_free, sched_create, sched_free}

  -- abtst_init_sched: `sched` is the handle that the caller holds before.
  unfoldable pub init_sched : (sched pool stream : ℕ) → Runtime → ℤ × ℕ × Runtime
  init_sched sched pool stream rt =
      let (ret, config, rt') = sched_config_create stream rt in
      let (ret', made, rt'') = sched_create pool config rt' in
      if is_zero_ℤ ret
      then ((if is_zero_ℤ ret' then pos 0 else negsuc 0), made, sched_config_free config rt'')
      else (negsuc 0, sched, rt')

  -- abtst_init_sub_sched: the code of ABT_sched_create is passed on.
  unfoldable pub init_sub_sched : (sched pool load : ℕ) → Runtime → ℤ × ℕ × Runtime
  init_sub_sched sched pool load rt =
      let (ret, config, rt') = sched_config_create load rt in
      let (ret', made, rt'') = sched_create pool config rt' in
      if is_zero_ℤ ret then (ret', made, sched_config_free config rt'') else (negsuc 0, sched, rt')

  -- abtst_free_sched and abtst_free_sub_sched: a failure is only printed.
  unfoldable pub free_sched : ℕ → Runtime → Runtime
  free_sched sched rt = (sched_free sched rt).1
