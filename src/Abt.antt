-- ===== src/Abt.antt =====
-- The calls of Argobots (the submodule argobots), which the model takes as a parameter: a state of
-- the runtime, and for each call its code, the handle that it gives out and the new state. A code
-- of 0 is ABT_SUCCESS. Nothing is assumed of the calls.
use abtst.Common.{ℕ}
use abtst.Common.Int.{ℤ}

pub record Abt : Type 1 where
  pub Runtime : Type 0
  pub pool_create_basic : Runtime → ℤ × ℕ × Runtime
  pub pool_add_sched : (pool sched : ℕ) → Runtime → ℤ × Runtime
  -- with the pointer that the scheduler is to know
  pub sched_config_create : ℕ → Runtime → ℤ × ℕ × Runtime
  pub sched_config_free : ℕ → Runtime → Runtime
  pub sched_create : (pool config : ℕ) → Runtime → ℤ × ℕ × Runtime
  pub sched_free : ℕ → Runtime → ℤ × Runtime
  pub xstream_self : Runtime → ℤ × ℕ × Runtime
  pub xstream_get_main_pool : ℕ → Runtime → ℤ × ℕ × Runtime
  pub xstream_create_with_rank : (sched rank : ℕ) → Runtime → ℤ × ℕ × Runtime
  pub xstream_join : ℕ → Runtime → ℤ × Runtime
  pub xstream_free : ℕ → Runtime → ℤ × ℕ × Runtime
