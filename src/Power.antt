-- ===== src/Power.antt =====
-- include/power.h and src/power/power.c: how idle each NUMA is, which NUMAs save power, and how
-- many should.
pub mod Estimate
pub mod Defined
use abtst.Common.{
  ℕ, suc, zero, ◌+◌, ◌-◌, ◌*◌, ◌/◌, ◌^◌, ◌<◌, ◌≤◌, ◌≡◌, Bool, true, false, ◌&&◌, not, Option, none,
  some, List, [], ◌∷◌, ◌==◌, if◌then◌else◌, u32_mod, add_u32, sub_u32, mul_u32, ltb, range, require,
  ◌>>=◌, ◌>>◌,
}
use abtst.Common.Int.{ℤ, pos, ◌+ℤ◌, ◌-ℤ◌}
use abtst.Common.Store.{Array, write}
use abtst.Env.{Env, cores_of, numas, get_numa_info}
use abtst.Stream.{Stream, Store}

pub record Power : Type 0 where
  pub ps_state : Array Bool
  pub ps_pct : Array ℕ
  pub ps_enabled : Bool
  pub nr_ps_numas : ℤ

unfoldable pub set_power_saving_enabled : Bool → Power → Power
set_power_saving_enabled ena power = record power { ps_enabled = ena }

abbrev pub is_power_saving_enabled : Power → Bool
is_power_saving_enabled power = power.ps_enabled

abbrev pub get_numas_in_ps_state : Power → ℤ
get_numas_in_ps_state power = power.nr_ps_numas

abbrev pub is_numa_in_ps_state : ℕ → Power → Bool
is_numa_in_ps_state numa_id power = power.ps_state numa_id

abbrev pub get_numa_ps_pct : ℕ → Power → ℕ
get_numa_ps_pct numa_id power = power.ps_pct numa_id

unfoldable pub set_numa_ps_state : ℕ → Bool → Power → Power
set_numa_ps_state numa_id state power = record power {
  ps_state = write power.ps_state numa_id state;
  nr_ps_numas = if state then power.nr_ps_numas +ℤ pos 1 else power.nr_ps_numas -ℤ pos 1;
}

unfoldable pub set_numa_ps_pct : ℕ → ℕ → Power → Power
set_numa_ps_pct numa_id pct power = record power { ps_pct = write power.ps_pct numa_id pct }

unfoldable pub clear_numas : List ℕ → Power → Power
clear_numas [] power = power
clear_numas (i ∷ is) power =
    clear_numas is
      (record power { ps_state = write power.ps_state i false; ps_pct = write power.ps_pct i 0 })

unfoldable pub init_power : Env → Power → Power
unfolding clear_numas
init_power env power = record (clear_numas (numas env) power) {
  ps_enabled = false;
  nr_ps_numas = pos 0;
}

-- The loop of update_power_stat: the milliseconds slept and the number of streams in use.
unfoldable pub sum_sleep : Array Stream → List ℕ → ℕ × ℕ → ℕ × ℕ
sum_sleep streams [] sums = sums
sum_sleep streams (j ∷ js) (msec, cnt) = sum_sleep streams js (
    if (streams j).used
    then (add_u32 msec ((streams j).sleep_nsec / 1000000), add_u32 cnt 1)
    else (msec, cnt))

-- `interval` is the rebalancer's, in seconds; an interval of 0 is a division by zero, and the product is
-- one of ints.
unfoldable pub sleep_pct : ℕ → ℕ × ℕ → Option ℕ
sleep_pct interval (msec, cnt) =
    let pct = mul_u32 (msec / cnt) 100 / (1000 * interval) in
    if cnt == 0 then some 100 else do
      require (not (interval == 0))
      require (ltb (1000 * interval) (2 ^ 31))
      some (if ltb 100 pct then 100 else pct)

unfoldable pub update_power_stat : ℕ → Env → Store → ℕ → Power → Option Power
unfolding sum_sleep sleep_pct set_numa_ps_pct
update_power_stat interval env s numa_id power = do
  numa_info ← get_numa_info env numa_id
  pct ← sleep_pct interval (sum_sleep s.streams (cores_of numa_info) (0, 0))
  some (set_numa_ps_pct numa_id pct power)

unfoldable pub update_power : ℕ → Env → Store → List ℕ → Power → Option Power
unfolding update_power_stat
update_power interval env s [] power = some power
update_power interval env s (i ∷ is) power =
    update_power_stat interval env s i power >>= update_power interval env s is

unfoldable pub update_power_stats : ℕ → Env → Store → Power → Option Power
unfolding update_power
update_power_stats interval env s power = update_power interval env s (numas env) power

unfoldable pub total_pct : Array ℕ → List ℕ → ℕ → ℕ
total_pct pct [] sum = sum
total_pct pct (i ∷ is) sum = total_pct pct is (add_u32 sum (pct i))

-- The first `i` whose half, in percent of a NUMA, is above the work that there is.
unfoldable pub first_enough : ℕ → ℕ → List ℕ → ℕ
first_enough nr_numas work [] = 0
first_enough nr_numas work (i ∷ is) =
    if ltb work (i * 50) then nr_numas - i else first_enough nr_numas work is

unfoldable pub estimate_ps_numas : Env → Power → ℕ
unfolding total_pct first_enough
estimate_ps_numas env power =
    let work = sub_u32 (mul_u32 env.nr_numas 100) (total_pct power.ps_pct (numas env) 0) in
    first_enough env.nr_numas work (range 1 (env.nr_numas - 1))
