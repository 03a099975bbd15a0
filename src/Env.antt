-- ===== src/Env.antt =====
-- include/env.h and src/arch/env.c: the cores and NUMAs of the machine, and the statistics of each
-- NUMA. `none` in place of a pointer is NULL; what sysconf and the files of /sys say is an argument.
pub mod Lookup
pub mod Sysfs
pub mod Nodes
pub mod Update
pub mod Average
use abtst.Common.{
  ℕ, suc, zero, ◌+◌, ◌-◌, ◌/◌, ◌≤◌, ◌<◌, ◌≡◌, Bool, true, false, not, ◌&&◌, ◌||◌, Option, none,
  some, List, [], ◌∷◌, ltb, leb, ◌==◌, if◌then◌else◌, add_u32, mul_u32, sub_u32, range, require,
  ◌>>=◌, ◌>>◌,
}
use abtst.Common.Store.{Array, write}

abbrev pub max_numas : ℕ
max_numas = 8

pub record Numa : Type 0 where
  pub start_core : ℕ
  pub end_core : ℕ

pub record NumaStat : Type 0 where
  pub used_cores : ℕ
  pub avg_qdepth : ℕ

pub record Env : Type 0 where
  pub nr_cores : ℕ
  pub nr_numas : ℕ
  pub numa_info : Array Numa
  pub numa_stat : Array NumaStat
  pub rebalance_enabled : Bool
  pub stopping : Bool

unfoldable pub get_numa_info : Env → ℕ → Option Numa
get_numa_info env id = if leb env.nr_numas id then none else some (env.numa_info id)

unfoldable pub get_numa_stat : Env → ℕ → Option NumaStat
get_numa_stat env id = if leb env.nr_numas id then none else some (env.numa_stat id)

unfoldable pub set_numa_stat : ℕ → ℕ → ℕ → Env → Env
set_numa_stat id cores qd env = if leb env.nr_numas id then env else record env {
  numa_stat = write env.numa_stat id (record { used_cores = cores; avg_qdepth = qd });
}

unfoldable pub set_numa_rebalance : Bool → Env → Env
set_numa_rebalance enabled env = record env { rebalance_enabled = enabled }

unfoldable pub set_stopping : Env → Env
set_stopping env = record env { stopping = true }

abbrev pub is_numa_rebalance_enabled : Env → Bool
is_numa_rebalance_enabled env = env.rebalance_enabled

abbrev pub is_system_stopping : Env → Bool
is_system_stopping env = env.stopping

-- The cores of a NUMA: `for (j = start_core; j <= end_core; j++)`.
abbrev pub cores_of : Numa → List ℕ
cores_of numa = range numa.start_core (numa.end_core + 1 - numa.start_core)

-- `for (i = 0; i < nr_numas; i++)`.
abbrev pub numas : Env → List ℕ
numas env = range 0 env.nr_numas

abbrev pub holds_core : ℕ → Numa → Bool
holds_core core numa = leb numa.start_core core && leb core numa.end_core

unfoldable pub find_numa : ℕ → Array Numa → List ℕ → Option ℕ
find_numa core info [] = none
find_numa core info (i ∷ is) = if holds_core core (info i) then some i else find_numa core info is

-- `none` is the result -1.
unfoldable pub get_numa_id : ℕ → Env → Option ℕ
unfolding find_numa
get_numa_id core env = find_numa core env.numa_info (numas env)

-- One NUMA that holds every core.
abbrev pub single_numa : Env → Env
single_numa env = record env {
  nr_numas = 1;
  numa_info = write env.numa_info 0 (record { start_core = 0; end_core = sub_u32 env.nr_cores 1 });
}

-- The loop over the nodes. `cpus i` is what get_node_cpus reads for node `i`, `none` where it
-- fails; `false` is the early return. A node beyond the array is a write past its end.
unfoldable pub read_nodes : (ℕ → Option Numa) → List ℕ → Env → Option (Env × Bool)
read_nodes cpus [] env = some (env, true)
read_nodes cpus (i ∷ is) env = require (ltb i max_numas) >> elim (cpus i) [
  | none ↦ some (single_numa env, false)
  | some numa ↦
      let env' = record env { numa_info = write env.numa_info i numa } in
      let rest = read_nodes cpus is env' in
      if leb env.nr_cores numa.start_core || leb env.nr_cores numa.end_core
      then some (single_numa env', false)
      else rest
]

-- `cores` is what sysconf says, `nodes` what get_numa_nodes finds.
unfoldable pub init_env : ℕ → ℕ → (ℕ → Option Numa) → Env → Option Env
unfolding read_nodes
init_env cores nodes cpus env₀ =
    let env = record (single_numa (record env₀ { nr_cores = cores })) { nr_numas = nodes } in
    let calm = λ (e : Env). record e { stopping = false; rebalance_enabled = false } in
    if leb nodes 1 then some (calm env) else do
      (env', through) ← read_nodes cpus (range 0 nodes) env
      some (if through then calm env' else env')

-- The sums of abtst_get_average_qdepth, of cores and of depths, over the NUMAs in use.
unfoldable pub add_numa : NumaStat → ℕ × ℕ → ℕ × ℕ
add_numa stat (cores, qdepth) =
    if stat.used_cores == 0
    then (cores, qdepth)
    else (add_u32 cores stat.used_cores, add_u32 qdepth (mul_u32 stat.avg_qdepth stat.used_cores))

unfoldable pub add_numas : Array NumaStat → List ℕ → ℕ × ℕ → ℕ × ℕ
unfolding add_numa
add_numas stats [] sums = sums
add_numas stats (i ∷ is) sums = add_numas stats is (add_numa (stats i) sums)

unfoldable pub get_average_qdepth : Env → ℕ
unfolding add_numas
get_average_qdepth env =
    let (cores, qdepth) = add_numas env.numa_stat (numas env) (0, 0) in
    if cores == 0 then 0 else qdepth / cores
