-- ===== src/Partition/Stats.antt =====
-- abtst_update_partition_stats (src/partition/partition.c): the statistics are the number and the
-- depth of the streams in use, by partition and by NUMA.
use abtst.Common.{
  ℕ, suc, zero, ◌+◌, ◌%◌, ◌<◌, ◌≤◌, ◌≡◌, ◌≢◌, inl, inr, refl, ◌∙◌, Bool, ◌&&◌, List, [], ◌∷◌, ◌++◌,
  arith, ◌==◌, if◌then◌else◌, u32_mod, range, Bool-cases, some,
}
use abtst.Common.Store.{Array}
use abtst.Env.{Env, Numa, cores_of, numas}
use abtst.Stream.{Stream, Store}
use abtst.Partition.Room.{StatsFit, tally_stream, tally_cores, tally_numas, count_numas-tally}
use abtst.Partition.{
  PartitionStat, Partitions, no_stat, reset_partition_stats, update_partition_stats,
}

abbrev pub runs_for : ℕ → Stream → Bool
runs_for p stream = stream.used && (p == stream.part_id)

-- How many of the cores `js` run a stream of the partition `p`.
unfoldable pub cores_used : ℕ → Array Stream → List ℕ → ℕ
cores_used p streams [] = 0
cores_used p streams (j ∷ js) = (if runs_for p (streams j) then 1 else 0) + cores_used p streams js

-- The depth of those streams, added up.
unfoldable pub depth_used : ℕ → Array Stream → List ℕ → ℕ
depth_used p streams [] = 0
depth_used p streams (j ∷ js) =
    (if runs_for p (streams j) then (streams j).total_qdepth else 0) + depth_used p streams js

-- The cores of the NUMAs `is`, one NUMA after the other.
pub numa_cores : Array Numa → List ℕ → List ℕ
numa_cores info [] = []
numa_cores info (i ∷ is) = cores_of (info i) ++ numa_cores info is

cores_used-append :
    (p : ℕ) (streams : Array Stream) (xs ys : List ℕ)
    → cores_used p streams (xs ++ ys) ≡ cores_used p streams xs + cores_used p streams ys
unfolding cores_used
cores_used-append p streams [] ys = omega arith
cores_used-append p streams (x ∷ xs) ys = omega (arith, cores_used-append p streams xs ys)

depth_used-append :
    (p : ℕ) (streams : Array Stream) (xs ys : List ℕ)
    → depth_used p streams (xs ++ ys) ≡ depth_used p streams xs + depth_used p streams ys
unfolding depth_used
depth_used-append p streams [] ys = omega arith
depth_used-append p streams (x ∷ xs) ys = omega (arith, depth_used-append p streams xs ys)

-- A statistic that grew by a number of cores and a depth, modulo 2 ^ 32.
pub record Grown (before : PartitionStat) (cores depth : ℕ) (now : PartitionStat) : Type 0 where
  pub used_cores : now.used_cores ≡ (before.used_cores + cores) % u32_mod
  pub qdepth : now.qdepth ≡ (before.qdepth + depth) % u32_mod

-- A statistic as the machine keeps it.
abbrev IsWord : PartitionStat → Type 0
IsWord stat = (stat.used_cores < u32_mod) × (stat.qdepth < u32_mod)

module _ (streams : Array Stream) (p : ℕ) where
  tally_stream-IsWord :
      (i : ℕ) (stream : Stream) (parts : Partitions)
      → IsWord (parts.stats p)
      → IsWord ((tally_stream i stream parts).stats p)
  tally_stream-IsWord i stream parts w = ground arith

  tally_stream-IsWord_numa :
      (i : ℕ) (stream : Stream) (parts : Partitions) (k : ℕ)
      → IsWord (parts.numa_stats p k)
      → IsWord ((tally_stream i stream parts).numa_stats p k)
  tally_stream-IsWord_numa i stream parts k w = ground arith

  tally_cores-Grown :
      (i : ℕ) (js : List ℕ) (parts : Partitions)
      → IsWord (parts.stats p)
      → Grown
          (parts.stats p)
          (cores_used p streams js)
          (depth_used p streams js)
          ((tally_cores i streams js parts).stats p)
  unfolding tally_cores cores_used depth_used
  tally_cores-Grown i [] parts w = record { used_cores = omega arith; qdepth = omega arith }
  tally_cores-Grown i (j ∷ js) parts w =
      let rest =
        tally_cores-Grown i js (tally_stream i (streams j) parts)
          (tally_stream-IsWord i (streams j) parts w) in
      record { used_cores = ground (arith, rest.used_cores); qdepth = ground (arith, rest.qdepth) }

  -- Within the NUMA that is counted.
  tally_cores-Grown_numa :
      (i : ℕ) (js : List ℕ) (parts : Partitions)
      → IsWord (parts.numa_stats p i)
      → Grown
          (parts.numa_stats p i)
          (cores_used p streams js)
          (depth_used p streams js)
          ((tally_cores i streams js parts).numa_stats p i)
  unfolding tally_cores cores_used depth_used
  tally_cores-Grown_numa i [] parts w = record { used_cores = omega arith; qdepth = omega arith }
  tally_cores-Grown_numa i (j ∷ js) parts w =
      let rest =
        tally_cores-Grown_numa i js (tally_stream i (streams j) parts)
          (tally_stream-IsWord_numa i (streams j) parts i w) in
      record { used_cores = ground (arith, rest.used_cores); qdepth = ground (arith, rest.qdepth) }

  tally_cores_other :
      (i : ℕ) (js : List ℕ) (parts : Partitions) (k : ℕ)
      → k ≢ i
      → (tally_cores i streams js parts).numa_stats p k ≡ parts.numa_stats p k
  unfolding tally_cores
  tally_cores_other i [] parts k ne = refl
  tally_cores_other i (j ∷ js) parts k ne =
      ground (arith, tally_cores_other i js (tally_stream i (streams j) parts) k ne)

  Grown-IsWord :
      {before now : PartitionStat} {cores depth : ℕ} → Grown before cores depth now → IsWord now
  Grown-IsWord g = omega arith

  module _ (info : Array Numa) where
    tally_numas_before :
        (n start : ℕ) (parts : Partitions) (k : ℕ)
        → k < start
        → (tally_numas info streams (range start n) parts).numa_stats p k ≡ parts.numa_stats p k
    unfolding tally_numas
    tally_numas_before zero start parts k lt = refl
    tally_numas_before (suc n) start parts k lt =
        tally_numas_before n (suc start) _ k (omega arith)
        ∙ tally_cores_other start (cores_of (info start)) parts k (omega arith)

    tally_numas-Grown_numa :
        (n start : ℕ) (parts : Partitions) (k : ℕ)
        → start ≤ k
        → k < start + n
        → IsWord (parts.numa_stats p k)
        → let cores = cores_of (info k) in
          Grown
            (parts.numa_stats p k)
            (cores_used p streams cores)
            (depth_used p streams cores)
            ((tally_numas info streams (range start n) parts).numa_stats p k)
    unfolding tally_numas
    tally_numas-Grown_numa zero start parts k lo hi w = absurd (omega arith)
    tally_numas-Grown_numa (suc n) start parts k lo hi w = elim (Bool-cases (k == start)) [
      | inl here ↦
          let e : k ≡ start = ground arith in
          rw e (
            rw (tally_numas_before n (suc start) _ start (omega arith))
              (tally_cores-Grown_numa start (cores_of (info start)) parts (rw e at w)))
      | inr later ↦
          let ne : k ≢ start = ground arith in
          let same = tally_cores_other start (cores_of (info start)) parts k ne in
          let rest =
            tally_numas-Grown_numa n (suc start)
              (tally_cores start streams (cores_of (info start)) parts) k (omega arith)
              (omega arith) (rw same w) in
          rw same at rest
    ]

    tally_numas-Grown :
        (is : List ℕ) (parts : Partitions)
        → IsWord (parts.stats p)
        → let cores = numa_cores info is in
          Grown
            (parts.stats p)
            (cores_used p streams cores)
            (depth_used p streams cores)
            ((tally_numas info streams is parts).stats p)
    unfolding tally_numas numa_cores cores_used depth_used
    tally_numas-Grown [] parts w = record { used_cores = omega arith; qdepth = omega arith }
    tally_numas-Grown (i ∷ is) parts w =
        let here = tally_cores-Grown i (cores_of (info i)) parts w in
        let rest =
          tally_numas-Grown is (tally_cores i streams (cores_of (info i)) parts)
            (Grown-IsWord here) in
        record {
          used_cores = omega (
            arith,
            here.used_cores,
            rest.used_cores,
            cores_used-append p streams (cores_of (info i)) (numa_cores info is),
          );
          qdepth = omega (
            arith,
            here.qdepth,
            rest.qdepth,
            depth_used-append p streams (cores_of (info i)) (numa_cores info is),
          );
        }

-- The statistics after an update count every used stream of every NUMA once: by partition and NUMA,
-- and by partition over all NUMAs.
pub record IsUpToDate (env : Env) (s : Store) (parts : Partitions) : Type 0 where
  pub by_numa :
      (p k : ℕ)
      → k < env.nr_numas
      → let cores = cores_of (env.numa_info k) in
        Grown no_stat
          (cores_used p s.streams cores)
          (depth_used p s.streams cores)
          (parts.numa_stats p k)
  pub in_all :
      (p : ℕ)
      → let cores = numa_cores env.numa_info (numas env) in
        Grown no_stat (cores_used p s.streams cores) (depth_used p s.streams cores) (parts.stats p)

-- Whatever the statistics were before, where the arrays of statistics have room for the NUMAs and for
-- the partitions of the streams in use: an update is defined, and after it each partition has the number
-- and the depth of its streams in use, modulo 2 ^ 32, in every NUMA and over the cores of all NUMAs.
pub update_partition_stats-IsUpToDate :
    (env : Env) (s : Store) (parts : Partitions)
    → StatsFit env s
    → (parts' : Partitions) × (update_partition_stats env s parts ≡ some parts')
      × IsUpToDate env s parts'
unfolding update_partition_stats reset_partition_stats
update_partition_stats-IsUpToDate env s parts fits =
    let clear = reset_partition_stats parts in
    (
      tally_numas env.numa_info s.streams (numas env) clear,
      count_numas-tally env.numa_info s.streams env.nr_numas 0 clear (omega (arith, fits.numas_fit))
          (λ k h. fits.parts_fit k (omega arith)),
      record {
        by_numa = λ p k h.
            tally_numas-Grown_numa s.streams p env.numa_info env.nr_numas 0 clear k (omega arith)
              (omega arith) (omega arith, omega arith);
        in_all = λ p.
            tally_numas-Grown s.streams p env.numa_info (numas env) clear
              (omega arith, omega arith);
      },
    )
