-- ===== src/Power/Defined.antt =====
-- When the update of src/power/power.c is defined.
use abtst.Common.{
  ℕ, ◌<◌, ◌≡◌, refl, true, false, some, List, [], ◌∷◌, arith, ◌==◌, leb, All, All-range, ◌*◌, ◌/◌,
  mul_u32, ltb, if◌then◌else◌, Bool-cases, inl, inr,
}
use abtst.Env.{Env, numas, get_numa_info, cores_of}
use abtst.Stream.{Store}
use abtst.Power.{
  Power, sum_sleep, sleep_pct, set_numa_ps_pct, update_power_stat, update_power, update_power_stats,
}

sleep_pct-some :
    (interval : ℕ) (sums : ℕ × ℕ)
    → 0 < interval
    → interval < 2147484
    → (pct : ℕ) × (sleep_pct interval sums ≡ some pct)
unfolding sleep_pct
sleep_pct-some interval (msec, cnt) h int =
    let product : ltb (1000 * interval) 2147483648 ≡ true = ground arith in
    let nonzero : (interval == 0) ≡ false = ground arith in
    elim (Bool-cases (cnt == 0)) [
      | inl idle ↦ (100, rw (idle) refl)
      | inr busy ↦
          let pct = mul_u32 (msec / cnt) 100 / (1000 * interval) in
          ((if ltb 100 pct then 100 else pct), rw (busy, nonzero, product) refl)
    ]

update_power-some :
    (interval : ℕ) (env : Env) (s : Store) (is : List ℕ) (power : Power)
    → 0 < interval
    → interval < 2147484
    → All (λ i. i < env.nr_numas) is
    → (power' : Power) × (update_power interval env s is power ≡ some power')
unfolding update_power update_power_stat get_numa_info
update_power-some interval env s [] power h int all = (power, refl)
update_power-some interval env s (i ∷ is) power h int all =
    let inside : leb env.nr_numas i ≡ false = ground arith in
    let (pct, e) =
      sleep_pct-some interval (sum_sleep s.streams (cores_of (env.numa_info i)) (0, 0)) h int in
    let (power', runs) =
      update_power-some interval env s is (set_numa_ps_pct i pct power) h int all.1 in
    (power', rw (inside, e) runs)

pub update_power_stats-some :
    (interval : ℕ) (env : Env) (s : Store) (power : Power)
    → 0 < interval
    → interval < 2147484
    → (power' : Power) × (update_power_stats interval env s power ≡ some power')
unfolding update_power_stats
update_power_stats-some interval env s power h int =
    update_power-some interval env s (numas env) power h int
      (All-range env.nr_numas env.nr_numas 0 (omega arith))
