-- ===== src/Env/Lookup.antt =====
-- abtst_env_get_numa_id and abtst_init_env (src/arch/env.c).
use abtst.Common.{
  ℕ, suc, zero, ◌+◌, ◌≤◌, ◌<◌, ◌≡◌, inl, inr, Option, none, some, range, arith, Bool-cases,
}
use native.Mathlib.Decide.{dec_lt}
use abtst.Common.Store.{Array}
use abtst.Env.{Env, Numa, holds_core, find_numa, get_numa_id}

abbrev pub Holds : ℕ → Numa → Type 0
Holds core numa = (numa.start_core ≤ core) × (core ≤ numa.end_core)

-- What find_numa says of the indices `start, start + 1, …`: the first that holds the core, or that
-- none does.
abbrev pub Found : ℕ → Array Numa → ℕ → ℕ → Option ℕ → Type 0
Found core info start n none = (i : ℕ) → start ≤ i → i < start + n → ¬ Holds core (info i)
Found core info start n (some k) =
    (start ≤ k)
    × (k < start + n)
    × Holds core (info k)
    × ((i : ℕ) → start ≤ i → i < k → ¬ Holds core (info i))

find_numa-Found :
    (core : ℕ) (info : Array Numa) (n start : ℕ)
    → Found core info start n (find_numa core info (range start n))
unfolding find_numa
find_numa-Found core info zero start = λ i lo hi h. absurd (omega arith)
find_numa-Found core info (suc n) start = elim (Bool-cases (holds_core core (info start))) [
  | inl hit ↦ rw hit (omega arith, omega arith, ground arith, λ i lo hi h. absurd (omega arith))
  | inr miss ↦ rw miss (
      go (find_numa core info (range (suc start) n)) (find_numa-Found core info n (suc start))
        (ground arith))
]
  where
    go :
        (r : Option ℕ)
        → Found core info (suc start) n r
        → ¬ Holds core (info start)
        → Found core info start (suc n) r
    go none rest out = λ i lo hi h. elim (dec_lt start i) [
      | yes later ↦ rest i later (omega arith) h
      | no first ↦ out (let e : i ≡ start = omega arith in rw e at h)
    ]
    go (some k) rest out = (
      omega arith,
      omega arith,
      rest.2,
      λ i lo hi h. elim (dec_lt start i) [
        | yes later ↦ rest.3 i later hi h
        | no first ↦ out (let e : i ≡ start = omega arith in rw e at h)
      ],
    )

-- abtst_env_get_numa_id returns the first NUMA whose range of cores holds the core, and -1 only where
-- no NUMA does.
pub get_numa_id-Found :
    (core : ℕ) (env : Env) → Found core env.numa_info 0 env.nr_numas (get_numa_id core env)
unfolding get_numa_id
get_numa_id-Found core env = find_numa-Found core env.numa_info env.nr_numas 0
