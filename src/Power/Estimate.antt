-- ===== src/Power/Estimate.antt =====
-- The percentages and the estimate of src/power/power.c.
use abtst.Common.{
  ℕ, suc, zero, ◌+◌, ◌-◌, ◌*◌, ◌<◌, ◌≤◌, ◌≡◌, ◌⊎◌, inl, inr, refl, some, List, [], ◌∷◌, u32_mod,
  add_u32, sub_u32, mul_u32, ltb, range, arith, Bool-cases, >>=-eq-some, dec_lt, ◌^◌,
}
use abtst.Common.Store.{Array}
use abtst.Env.{Env, cores_of, numas, get_numa_info}
use abtst.Stream.{Store}
use abtst.Power.{
  Power, sum_sleep, sleep_pct, update_power_stat, update_power, update_power_stats, set_numa_ps_pct,
  total_pct, first_enough, estimate_ps_numas,
}

-- Every percentage is at most 100.
abbrev pub IsPct : ℕ → Power → Type 0
IsPct n power = (i : ℕ) → i < n → power.ps_pct i ≤ 100

sleep_pct-le :
    (interval : ℕ) (sums : ℕ × ℕ) (pct : ℕ) → sleep_pct interval sums ≡ some pct → pct ≤ 100
unfolding sleep_pct
sleep_pct-le interval (msec, cnt) pct e = ground arith

-- The work that `n` NUMAs do, each the part of 100 percent that it does not sleep.
pub work_of : Array ℕ → List ℕ → ℕ
work_of pct [] = 0
work_of pct (i ∷ is) = (100 - pct i) + work_of pct is

total_pct-work_of :
    (pct : Array ℕ) (n start sum : ℕ)
    → sum + n * 100 < u32_mod
    → ((i : ℕ) → start ≤ i → i < start + n → pct i ≤ 100)
    → total_pct pct (range start n) sum + work_of pct (range start n) ≡ sum + n * 100
unfolding total_pct work_of
total_pct-work_of pct zero start sum small h = omega arith
total_pct-work_of pct (suc n) start sum small h =
    let p = h start (omega arith) (omega arith) in
    omega (
      arith,
      p,
      total_pct-work_of pct n (suc start) (add_u32 sum (pct start)) (omega arith)
          (λ i lo hi. h i (omega arith) (omega arith)),
    )

-- What the search for the first NUMA count finds among `start, start + 1, …`.
abbrev pub Enough : ℕ → ℕ → ℕ → ℕ → ℕ → Type 0
Enough nr work start n r =
    ((r ≡ 0) × ((i : ℕ) → start ≤ i → i < start + n → i * 50 ≤ work))
    ⊎ ((k : ℕ) × (r ≡ nr - k)
        × (start ≤ k)
        × (k < start + n)
        × (work < k * 50)
        × ((i : ℕ) → start ≤ i → i < k → i * 50 ≤ work))

first_enough-Enough :
    (nr work n start : ℕ) → Enough nr work start n (first_enough nr work (range start n))
unfolding first_enough
first_enough-Enough nr work zero start = inl (refl, λ i lo hi. absurd (omega arith))
first_enough-Enough nr work (suc n) start = elim (Bool-cases (ltb work (start * 50))) [
  | inl hit ↦
      rw hit
        (inr (start, refl, omega arith, omega arith, ground arith, λ i lo hi. absurd (omega arith)))
  | inr miss ↦ rw miss (go (ground arith) (first_enough-Enough nr work n (suc start)))
]
  where
    below :
        start * 50 ≤ work
        → (i : ℕ) → ((j : ℕ) → suc start ≤ j → j ≤ i → j * 50 ≤ work)
        → start ≤ i
        → i * 50 ≤ work
    below b i rest lo = elim (dec_lt start i) [
      | yes later ↦ rest i later (omega arith)
      | no first ↦ let e : i ≡ start = omega arith in rw e b
    ]

    go :
        start * 50 ≤ work
        → Enough nr work (suc start) n (first_enough nr work (range (suc start) n))
        → Enough nr work start (suc n) (first_enough nr work (range (suc start) n))
    go b (inl (e, none_yet)) =
        inl (e, λ i lo hi. below b i (λ j l m. none_yet j l (omega arith)) lo)
    go b (inr (k, e, lo, hi, enough, before)) = inr (
      k,
      e,
      omega arith,
      omega arith,
      enough,
      λ i l h. below b i (λ j l' m. before j l' (omega arith)) l,
    )

-- Up to 2 ^ 24 NUMAs with percentages of at most 100: the estimate is 0 where no number of NUMAs
-- below all of them can do the work at half load, and otherwise leaves the fewest that can.
pub estimate_ps_numas-Enough :
    (env : Env) (power : Power)
    → env.nr_numas < 2 ^ 24
    → IsPct env.nr_numas power
    → Enough env.nr_numas
        (work_of power.ps_pct (numas env))
        1
        (env.nr_numas - 1)
        (estimate_ps_numas env power)
unfolding estimate_ps_numas
estimate_ps_numas-Enough env power few pct =
    let sum =
      total_pct-work_of power.ps_pct env.nr_numas 0 0 (omega arith)
        (λ i lo hi. pct i (omega arith)) in
    let work : sub_u32 (mul_u32 env.nr_numas 100) (total_pct power.ps_pct (numas env) 0)
        ≡ work_of power.ps_pct (numas env) =
      omega arith in
    rw work (first_enough-Enough env.nr_numas _ (env.nr_numas - 1) 1)

update_power_stat-IsPct :
    (interval : ℕ) (env : Env) (s : Store) (i n : ℕ) (power power' : Power)
    → IsPct n power
    → update_power_stat interval env s i power ≡ some power'
    → IsPct n power'
unfolding update_power_stat set_numa_ps_pct
update_power_stat-IsPct interval env s i n power power' v e =
    let (numa, found, e') = >>=-eq-some (get_numa_info env i) _ e in
    let sums = sum_sleep s.streams (cores_of numa) (0, 0) in
    let (pct, slept, e'') = >>=-eq-some (sleep_pct interval sums) _ e' in
    λ j h. ground (arith, v j h, sleep_pct-le interval sums pct slept, e'')

update_power-IsPct :
    (interval : ℕ) (env : Env) (s : Store) (is : List ℕ) (n : ℕ) (power power' : Power)
    → IsPct n power
    → update_power interval env s is power ≡ some power'
    → IsPct n power'
unfolding update_power
update_power-IsPct interval env s [] n power power' v e = λ j h. ground (arith, v j h)
update_power-IsPct interval env s (i ∷ is) n power power' v e =
    let (mid, first, e') = >>=-eq-some (update_power_stat interval env s i power) _ e in
    update_power-IsPct interval env s is n mid power'
      (update_power_stat-IsPct interval env s i n power mid v first) e'

-- An update that is defined keeps the percentages of the NUMAs at most 100.
pub update_power_stats-IsPct :
    (interval : ℕ) (env : Env) (s : Store) (n : ℕ) (power power' : Power)
    → IsPct n power
    → update_power_stats interval env s power ≡ some power'
    → IsPct n power'
unfolding update_power_stats
update_power_stats-IsPct interval env s n power power' =
    update_power-IsPct interval env s (numas env) n power power'
