-- ===== src/Env/Update.antt =====
-- abtst_update_numa_stats (src/arch/env.c). `none` is the division by zero of a NUMA with no stream
-- in use, or the access through a NULL pointer.
use abtst.Common.{
  ℕ, suc, zero, ◌+◌, ◌/◌, ◌%◌, ◌<◌, ◌≤◌, ◌≡◌, ◌⊎◌, inl, inr, refl, ◌∙◌, true, false, not, Option,
  none, some, List, [], ◌∷◌, arith, ◌==◌, if◌then◌else◌, u32_mod, add_u32, leb, range, Bool-cases,
  require, ◌>>=◌, ◌>>◌, mem, mem-range, dec_lt,
}
use abtst.Common.Store.{Array, write}
use abtst.Env.{Env, Numa, NumaStat, cores_of, numas, get_numa_info, set_numa_stat}
use abtst.Stream.{Stream, Store}

-- The loop of update_numa_stat: the depth and the number of the streams in use.
unfoldable pub sum_streams : Array Stream → List ℕ → ℕ × ℕ → ℕ × ℕ
sum_streams streams [] sums = sums
sum_streams streams (j ∷ js) (qdepth, cnt) = sum_streams streams js (
    if (streams j).used
    then (add_u32 qdepth (streams j).total_qdepth, add_u32 cnt 1)
    else (qdepth, cnt))

unfoldable pub update_numa_stat : Store → ℕ → Env → Option Env
unfolding sum_streams
update_numa_stat s numa_id env = do
  numa_info ← get_numa_info env numa_id
  let sums = sum_streams s.streams (cores_of numa_info) (0, 0)
  require (not (sums.1 == 0))
  some (set_numa_stat numa_id sums.1 (sums.0 / sums.1) env)

unfoldable pub update_all : Store → List ℕ → Env → Option Env
unfolding update_numa_stat
update_all s [] env = some env
update_all s (i ∷ is) env = update_numa_stat s i env >>= update_all s is

unfoldable pub update_numa_stats : Store → Env → Option Env
unfolding update_all
update_numa_stats s env = update_all s (numas env) env

-- The streams in use among the cores `js`, and their depth.
unfoldable pub streams_used : Array Stream → List ℕ → ℕ
streams_used streams [] = 0
streams_used streams (j ∷ js) = (if (streams j).used then 1 else 0) + streams_used streams js

unfoldable pub depth_of : Array Stream → List ℕ → ℕ
depth_of streams [] = 0
depth_of streams (j ∷ js) =
    (if (streams j).used then (streams j).total_qdepth else 0) + depth_of streams js

sum_streams_lem :
    (streams : Array Stream) (js : List ℕ) (qdepth cnt : ℕ)
    → qdepth < u32_mod
    → cnt < u32_mod
    → sum_streams streams js (qdepth, cnt)
      ≡ ((qdepth + depth_of streams js) % u32_mod, (cnt + streams_used streams js) % u32_mod)
unfolding sum_streams depth_of streams_used
sum_streams_lem streams [] qdepth cnt hq hc = ground arith
sum_streams_lem streams (j ∷ js) qdepth cnt hq hc = elim (Bool-cases (streams j).used) [
  | inl on ↦ rw on (
      sum_streams_lem streams js (add_u32 qdepth (streams j).total_qdepth) (add_u32 cnt 1)
        (omega arith) (omega arith)
      ∙ ground arith)
  | inr off ↦ rw off (sum_streams_lem streams js qdepth cnt hq hc ∙ ground arith)
]

-- A NUMA's cores fit the counter, and one of them is in use.
abbrev pub InUse : Store → Numa → Type 0
InUse s numa =
    let js = cores_of numa in
    (1 ≤ streams_used s.streams js) × (streams_used s.streams js < u32_mod)

-- The statistics that a NUMA is given.
abbrev pub stat_of : Store → Numa → NumaStat
stat_of s numa = record {
  used_cores = streams_used s.streams (cores_of numa);
  avg_qdepth =
      (depth_of s.streams (cores_of numa) % u32_mod) / streams_used s.streams (cores_of numa);
}

sum_streams_all :
    (streams : Array Stream) (js : List ℕ)
    → streams_used streams js < u32_mod
    → sum_streams streams js (0, 0) ≡ (depth_of streams js % u32_mod, streams_used streams js)
sum_streams_all streams js few =
    sum_streams_lem streams js 0 0 (omega arith) (omega arith) ∙ ground arith

write_same : (stats : Array NumaStat) (i : ℕ) (v : NumaStat) → write stats i v i ≡ v
write_same stats i v = ground arith

module _ (s : Store) where
  update_numa_stat_lem :
      (env : Env) (i : ℕ)
      → i < env.nr_numas
      → InUse s (env.numa_info i)
      → update_numa_stat s i env
        ≡ some (record env { numa_stat = write env.numa_stat i (stat_of s (env.numa_info i)) })
  unfolding update_numa_stat get_numa_info set_numa_stat
  update_numa_stat_lem env i h u =
      let before : leb env.nr_numas i ≡ false = ground arith in
      let busy : (streams_used s.streams (cores_of (env.numa_info i)) == 0) ≡ false =
        ground arith in
      rw (before, sum_streams_all s.streams (cores_of (env.numa_info i)) u.1, busy) refl

  update_numa_stat_idle :
      (env : Env) (i : ℕ)
      → streams_used s.streams (cores_of (env.numa_info i)) ≡ 0
      → update_numa_stat s i env ≡ none
  unfolding update_numa_stat get_numa_info
  update_numa_stat_idle env i idle = elim (Bool-cases (leb env.nr_numas i)) [
    | inl wild ↦ rw wild
    | inr inside ↦
        rw (inside, sum_streams_all s.streams (cores_of (env.numa_info i)) (omega arith), idle)
  ]

  update_numa_stat_cases :
      (env : Env) (i : ℕ)
      → (update_numa_stat s i env ≡ none)
        ⊎ ((stats : Array NumaStat) × (update_numa_stat s i env
              ≡ some (record env { numa_stat = stats })))
  unfolding update_numa_stat get_numa_info set_numa_stat
  update_numa_stat_cases env i = elim (Bool-cases (leb env.nr_numas i)) [
    | inl wild ↦ inl (rw wild)
    | inr inside ↦
        elim (Bool-cases ((sum_streams s.streams (cores_of (env.numa_info i)) (0, 0)).1 == 0)) [
          | inl idle ↦ inl (rw (inside, idle))
          | inr busy ↦
              let sums = sum_streams s.streams (cores_of (env.numa_info i)) (0, 0) in
              let stat : NumaStat = record { used_cores = sums.1; avg_qdepth = sums.0 / sums.1 } in
              inr (write env.numa_stat i stat, rw (inside, busy) refl)
        ]
  ]

  update_all-Updated :
      (n start : ℕ) (env : Env)
      → start + n ≤ env.nr_numas
      → ((i : ℕ) → start ≤ i → i < start + n → InUse s (env.numa_info i))
      → (stats : Array NumaStat) × (update_all s (range start n) env
          ≡ some (record env { numa_stat = stats }))
        × ((i : ℕ) → start ≤ i → i < start + n → stats i ≡ stat_of s (env.numa_info i))
        × ((i : ℕ) → i < start → stats i ≡ env.numa_stat i)
  unfolding update_all
  update_all-Updated zero start env fits used =
      (env.numa_stat, refl, λ i lo hi. absurd (omega arith), λ i lo. refl)
  update_all-Updated (suc n) start env fits used =
      let env' = record env {
        numa_stat = write env.numa_stat start (stat_of s (env.numa_info start));
      } in
      let (stats, runs, new, old) =
        update_all-Updated n (suc start) env' (omega arith)
          (λ i lo hi. used i (omega arith) (omega arith)) in
      (
        stats,
        rw (update_numa_stat_lem env start (omega arith) (used start (omega arith) (omega arith)))
            runs,
        λ i lo hi. elim (dec_lt start i) [
          | yes later ↦ new i later (omega arith)
          | no first ↦
              let e : i ≡ start = omega arith in
              rw e (old start (omega arith) ∙ write_same env.numa_stat start _)
        ],
        λ i lo. ground (arith, old i),
      )

  update_all_idle :
      (is : List ℕ) (env : Env) (k : ℕ)
      → mem k is ≡ true
      → streams_used s.streams (cores_of (env.numa_info k)) ≡ 0
      → update_all s is env ≡ none
  unfolding update_all
  update_all_idle [] env k m idle = absurd (ground arith)
  update_all_idle (i ∷ is) env k m idle = elim (Bool-cases (k == i)) [
    | inl here ↦ let e : i ≡ k = ground arith in rw (update_numa_stat_idle env i (rw e idle))
    | inr there ↦ elim (update_numa_stat_cases env i) [
      | inl fault ↦ rw fault
      | inr (stats, runs) ↦
          rw runs (update_all_idle is (record env { numa_stat = stats }) k (ground arith) idle)
    ]
  ]

  -- Where every NUMA runs a stream, and fewer than 2 ^ 32, each NUMA is given its number of streams
  -- in use and their depths, added up modulo 2 ^ 32 and divided by that number; nothing else changes.
  pub update_numa_stats_lem :
      (env : Env)
      → ((i : ℕ) → i < env.nr_numas → InUse s (env.numa_info i))
      → (stats : Array NumaStat) × (update_numa_stats s env
          ≡ some (record env { numa_stat = stats }))
        × ((i : ℕ) → i < env.nr_numas → stats i ≡ stat_of s (env.numa_info i))
  unfolding update_numa_stats
  update_numa_stats_lem env used =
      let (stats, runs, new, old) =
        update_all-Updated env.nr_numas 0 env (omega arith) (λ i lo hi. used i (omega arith)) in
      (stats, runs, λ i h. new i (omega arith) (omega arith))

  -- A NUMA with no stream in use makes the update divide by zero.
  pub update_numa_stats_idle :
      (env : Env) (k : ℕ)
      → k < env.nr_numas
      → streams_used s.streams (cores_of (env.numa_info k)) ≡ 0
      → update_numa_stats s env ≡ none
  unfolding update_numa_stats
  update_numa_stats_idle env k h idle =
      update_all_idle (numas env) env k (mem-range k env.nr_numas 0 (omega arith) (omega arith))
        idle
