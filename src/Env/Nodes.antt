-- ===== src/Env/Nodes.antt =====
-- What abtst_init_env (src/arch/env.c) finds of the machine.
use abtst.Common.{
  ℕ, suc, ◌+◌, ◌-◌, ◌^◌, ◌≤◌, ◌<◌, ◌≡◌, ◌⊎◌, ◌||◌, zero, inl, inr, refl, ◌∙◌, true, false, Option,
  none, some, List, [], ◌∷◌, arith, ltb, leb, ◌==◌, if◌then◌else◌, range, mem, All, Bool-cases,
  mem-range,
}
use abtst.Common.Int.{ℤ, pos, ◌≤ℤ◌}
use abtst.Common.Store.{Array, write}
use abtst.Env.{Env, Numa, max_numas, init_env, read_nodes, single_numa}
use abtst.Env.Sysfs.{node_of, raise_max, find_max, get_numa_nodes, get_node_cpus, init_env_from}

module _ (strtoul : List ℕ → ℕ) where
  -- No entry stands for a node beyond `n`.
  abbrev pub IsLast : ℕ → List ℕ → Type 0
  IsLast n name = (nd : ℤ) → node_of strtoul name ≡ some nd → nd ≤ℤ pos n

  -- An entry of a list stands for the node.
  abbrev pub IsListed : ℕ → List (List ℕ) → Type 0
  IsListed n [] = false ≡ true
  IsListed n (name ∷ names) = (node_of strtoul name ≡ some (pos n)) ⊎ IsListed n names

  raise_max-le :
      (nd : Option ℤ) (max n : ℕ)
      → max ≤ n
      → ((x : ℤ) → nd ≡ some x → x ≤ℤ pos n)
      → raise_max strtoul nd max ≤ n
  unfolding raise_max
  raise_max-le none max n h bound = h
  raise_max-le (some nd) max n h bound = let b = bound nd refl in ground arith

  find_max-le :
      (names : List (List ℕ)) (max n : ℕ)
      → max ≤ n
      → All (IsLast n) names
      → find_max strtoul names max ≤ n
  unfolding find_max
  find_max-le [] max n h all = h
  find_max-le (name ∷ names) max n h all =
      find_max-le names (raise_max strtoul (node_of strtoul name) max) n
        (raise_max-le (node_of strtoul name) max n h all.0) all.1

  raise_max-ge : (nd : Option ℤ) (max : ℕ) → max ≤ raise_max strtoul nd max
  unfolding raise_max
  raise_max-ge none max = omega arith
  raise_max-ge (some nd) max = ground arith

  find_max-ge : (names : List (List ℕ)) (max : ℕ) → max ≤ find_max strtoul names max
  unfolding find_max
  find_max-ge [] max = omega arith
  find_max-ge (name ∷ names) max = omega (
    arith,
    raise_max-ge (node_of strtoul name) max,
    find_max-ge names (raise_max strtoul (node_of strtoul name) max),
  )

  raise_max-reaches : (nd : Option ℤ) (max n : ℕ) → nd ≡ some (pos n) → n ≤ raise_max strtoul nd max
  unfolding raise_max
  raise_max-reaches nd max n e = rw e (ground arith)

  find_max-reaches :
      (names : List (List ℕ)) (max n : ℕ) → IsListed n names → n ≤ find_max strtoul names max
  unfolding find_max
  find_max-reaches [] max n h = absurd (ground arith)
  find_max-reaches (name ∷ names) max n h = elim h [
    | inl first ↦ omega (
      arith,
      raise_max-reaches (node_of strtoul name) max n first,
      find_max-ge names (raise_max strtoul (node_of strtoul name) max),
    )
    | inr later ↦ find_max-reaches names (raise_max strtoul (node_of strtoul name) max) n later
  ]

  get_numa_nodes_lem :
      (names : List (List ℕ)) (n : ℕ)
      → n < 8
      → All (IsLast n) names
      → IsListed n names
      → get_numa_nodes strtoul (some names) ≡ some (n + 1)
  unfolding get_numa_nodes
  get_numa_nodes_lem names n h all listed =
      let low = find_max-reaches names 0 n listed in
      let high = find_max-le names 0 n (omega arith) all in
      let e : find_max strtoul names 0 ≡ n = omega arith in
      let ok : ltb n (2 ^ 31 - 1) ≡ true = ground arith in rw (e, ok) refl

-- The files of the nodes name ranges of cores that the machine has.
abbrev pub IsRead : (ℕ → Option Numa) → (ℕ → Numa) → ℕ → ℕ → Type 0
IsRead cpus numa cores i =
    (i < max_numas)
    × (cpus i ≡ some (numa i))
    × ((numa i).start_core < cores)
    × ((numa i).end_core < cores)

read_nodes_lem :
    (cpus : ℕ → Option Numa) (numa : ℕ → Numa) (is : List ℕ) (env : Env)
    → All (IsRead cpus numa env.nr_cores) is
    → (info : Array Numa) × (read_nodes cpus is env ≡ some (record env { numa_info = info }, true))
      × ((k : ℕ) → info k ≡ (if mem k is then numa k else env.numa_info k))
unfolding read_nodes
read_nodes_lem cpus numa [] env all = (env.numa_info, refl, λ k. refl)
read_nodes_lem cpus numa (i ∷ is) env all =
    let (room, found, low, high) = all.0 in
    let env' = record env { numa_info = write env.numa_info i (numa i) } in
    let (info, rest, values) = read_nodes_lem cpus numa is env' all.1 in
    let fits : ltb i max_numas ≡ true = ground arith in
    let ok : (leb env.nr_cores (numa i).start_core || leb env.nr_cores (numa i).end_core) ≡ false =
      ground arith in
    (
      info,
      rw (fits, found, ok) rest,
      λ k. values k ∙ elim (Bool-cases (mem k is)) [
        | inl later ↦
            rw later
              (elim (Bool-cases (k == i)) [ inl here ↦ rw here refl | inr other ↦ rw other refl ])
        | inr never ↦ rw never (elim (Bool-cases (k == i)) [
          | inl here ↦ let e : k ≡ i = ground arith in rw (here, e) refl
          | inr other ↦ rw other refl
        ])
      ],
    )

-- What is found: the NUMAs with their cores, and nothing said yet of their streams.
pub record Discovered (cores n : ℕ) (numa : ℕ → Numa) (env : Env) : Type 0 where
  pub nr_cores : env.nr_cores ≡ cores
  pub nr_numas : env.nr_numas ≡ n
  pub ranges : (i : ℕ) → i < n → env.numa_info i ≡ numa i
  pub running : env.stopping ≡ false
  pub calm : env.rebalance_enabled ≡ false

All-to : (P : ℕ → Type 0) (n start : ℕ) → ((i : ℕ) → i < start + n → P i) → All P (range start n)
All-to P zero start h = tt
All-to P (suc n) start h =
    (h start (omega arith), All-to P n (suc start) (λ i lt. h i (omega arith)))

-- Where the directory names, in whatever order and among whatever else, nodes up to `n`, one of them
-- `n`, which is not 0 and for which the array has room, and the file of each node up to `n` names a
-- first and a last core of the machine: abtst_init_env finds `n + 1` NUMAs, each with the cores that its
-- file names, and the system is not stopping.
pub init_env_from-Discovered :
    (strtoul : List ℕ → ℕ) (scan : List ℕ → Option ℕ × Option ℕ) (cores n : ℕ)
    (names : List (List ℕ)) (files : ℕ → Option (Option (List ℕ))) (line : ℕ → List ℕ)
    (numa : ℕ → Numa) (env₀ : Env)
    → 0 < n
    → n < max_numas
    → All (IsLast strtoul n) names
    → IsListed strtoul n names
    → ((i : ℕ) → i < n + 1 → files i ≡ some (some (line i)))
    → ((i : ℕ) → i < n + 1 → scan (line i) ≡ (some (numa i).start_core, some (numa i).end_core))
    → ((i : ℕ) → i < n + 1 → (numa i).start_core < cores)
    → ((i : ℕ) → i < n + 1 → (numa i).end_core < cores)
    → (env : Env) × (init_env_from strtoul scan cores (some names) files env₀ ≡ some env)
      × Discovered cores (n + 1) numa env
unfolding init_env_from init_env get_node_cpus
init_env_from-Discovered strtoul scan cores n names files line numa env₀ several room last listed
      opened scans low high =
    let before = single_numa (record env₀ { nr_cores = cores }) in
    let start = record before { nr_numas = n + 1 } in
    let cpus : ℕ → Option Numa = λ i. get_node_cpus scan (files i) (before.numa_info i) in
    let counted = get_numa_nodes_lem strtoul names n room last listed in
    let more : leb (n + 1) 1 ≡ false = ground arith in
    let (info, ran, values) = read_nodes_lem cpus numa (range 0 (n + 1)) start (
      All-to (IsRead cpus numa cores) (n + 1) 0 (λ i lt. (
        omega arith,
        rw (opened i (omega arith), scans i (omega arith)) refl,
        low i (omega arith),
        high i (omega arith),
      ))) in
    (
      record start { numa_info = info; stopping = false; rebalance_enabled = false },
      rw (counted, more, ran) refl,
      record {
        nr_cores = refl;
        nr_numas = refl;
        ranges = λ i lt. values i ∙ rw (mem-range i (n + 1) 0 (omega arith) (omega arith)) refl;
        running = refl;
        calm = refl;
      },
    )
