-- ===== src/Env/Average.antt =====
-- abtst_get_average_qdepth (src/arch/env.c).
use abtst.Common.{
  ℕ, ◌+◌, ◌*◌, ◌/◌, ◌<◌, ◌≡◌, ◌∙◌, inl, inr, List, [], ◌∷◌, arith, ◌==◌, if◌then◌else◌, u32_mod,
  add_u32, mul_u32, Bool-cases,
}
use abtst.Common.Store.{Array}
use abtst.Env.{Env, NumaStat, numas, add_numa, add_numas, get_average_qdepth}

-- The streams in use on the NUMAs `is`, as the statistics have it.
unfoldable pub total_cores : Array NumaStat → List ℕ → ℕ
total_cores stats [] = 0
total_cores stats (i ∷ is) = (stats i).used_cores + total_cores stats is

-- Their depths, each NUMA's mean taken for all of its streams.
unfoldable pub total_depth : Array NumaStat → List ℕ → ℕ
total_depth stats [] = 0
total_depth stats (i ∷ is) = (stats i).avg_qdepth * (stats i).used_cores + total_depth stats is

add_one :
    (cores qdepth used avg rest_cores rest_depth : ℕ)
    → cores + (used + rest_cores) < u32_mod
    → qdepth + (avg * used + rest_depth) < u32_mod
    → (add_u32 cores used ≡ cores + used)
      × (add_u32 qdepth (mul_u32 avg used) ≡ qdepth + avg * used)
add_one cores qdepth used avg rest_cores rest_depth h k = (omega arith, omega arith)

product_zero : (a : ℕ) {b : ℕ} → b ≡ 0 → a * b ≡ 0
product_zero a e = rw e (omega arith)

add_numas-total_cores :
    (stats : Array NumaStat) (is : List ℕ) (cores qdepth : ℕ)
    → cores + total_cores stats is < u32_mod
    → qdepth + total_depth stats is < u32_mod
    → add_numas stats is (cores, qdepth)
      ≡ (cores + total_cores stats is, qdepth + total_depth stats is)
unfolding add_numas add_numa total_cores total_depth
add_numas-total_cores stats [] cores qdepth h k = ground arith
add_numas-total_cores stats (i ∷ is) cores qdepth h k =
    elim (Bool-cases ((stats i).used_cores == 0)) [
      | inl idle ↦
          let none_here : (stats i).used_cores ≡ 0 = ground arith in
          let rest =
            add_numas-total_cores stats is cores qdepth (omega arith)
              (omega (arith, product_zero (stats i).avg_qdepth none_here)) in
          rw idle (rest ∙ ground (arith, none_here, product_zero (stats i).avg_qdepth none_here))
      | inr busy ↦
          let (one, two) =
            add_one cores qdepth (stats i).used_cores (stats i).avg_qdepth (total_cores stats is)
              (total_depth stats is) h k in
          let rest =
            add_numas-total_cores stats is (cores + (stats i).used_cores)
              (qdepth + (stats i).avg_qdepth * (stats i).used_cores) (omega arith) (omega arith) in
          rw (busy, one, two) (rest ∙ ground arith)
    ]

-- Where the streams in use and their depths add up to less than 2 ^ 32, the average is the mean of
-- the NUMAs' mean depths, weighted by their streams in use, rounded down, and 0 where none is in use.
pub get_average_qdepth_lem :
    (env : Env)
    → total_cores env.numa_stat (numas env) < u32_mod
    → total_depth env.numa_stat (numas env) < u32_mod
    → get_average_qdepth env ≡ (
        if total_cores env.numa_stat (numas env) == 0
        then 0
        else total_depth env.numa_stat (numas env) / total_cores env.numa_stat (numas env))
unfolding get_average_qdepth
get_average_qdepth_lem env h k =
    rw (add_numas-total_cores env.numa_stat (numas env) 0 0 (omega arith) (omega arith))
      (ground arith)
