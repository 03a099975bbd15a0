-- ===== src/Load.antt =====
-- include/load.h: the load, its counters, and the accessors that the rebalancer and the schedulers
-- use. A load is named by its address, a number; the links of its `list` field are in LinkedList.
pub mod Init
pub mod Next
pub mod Free
pub mod RoundRobin
pub mod Order
pub mod Deal
pub mod Even
use abtst.Common.{ℕ, ◌-◌, ◌%◌, Bool, not, ltb, ◌==◌, if◌then◌else◌, u32_mod, add_u64}
use abtst.Common.Int.{ℤ, pos, to_int}

abbrev pub loads_per_xstream : ℕ
loads_per_xstream = 32

pub record Load : Type 0 where
  pub load_id : ℕ
  pub used : Bool
  pub pkt_started : ℕ
  pub pkt_ended : ℕ
  pub init_rank : ℕ
  pub curr_rank : ℕ
  pub dest_rank : ℕ
  pub pool : ℕ
  pub sched : ℕ

unfoldable pub get_curr_rank : Load → ℕ
get_curr_rank load = load.curr_rank

unfoldable pub update_curr_rank : Load → ℕ → Load
update_curr_rank load rank = record load { curr_rank = rank }

unfoldable pub set_migrating : Load → Bool → ℕ → Load
set_migrating load migrate dest = record load { dest_rank = dest }

unfoldable pub is_migrating : Load → Bool
is_migrating load = not (load.curr_rank == load.dest_rank)

unfoldable pub inc_started : Load → Load
inc_started load = record load { pkt_started = add_u64 load.pkt_started 1 }

unfoldable pub inc_ended : Load → Load
inc_ended load = record load { pkt_ended = add_u64 load.pkt_ended 1 }

-- The difference of two `uint64_t`, returned as an `int`: its low 32 bits, signed.
unfoldable pub get_load_size : Load → ℤ
get_load_size load =
    if ltb load.pkt_ended load.pkt_started
    then to_int ((load.pkt_started - load.pkt_ended) % u32_mod)
    else pos 0
