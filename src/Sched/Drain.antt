-- ===== src/Sched/Drain.antt =====
-- What a load's scheduler (sub_sched_run in src/sched/sub.c) runs of a pool.
use abtst.Common.{
  ℕ, zero, suc, ◌+◌, ◌≤◌, ◌<◌, ◌≡◌, ◌≢◌, inl, inr, refl, sym, subst, ap, ◌∙◌, true, false, ◌||◌,
  Option, some, List, [], ◌∷◌, arith, leb, ◌==◌, length, take, drop, Bool-cases, All,
}
use abtst.Sched.Units.{World, Units}
use abtst.Sched.Laws.{IsQueue}
use abtst.Sched.Batch.{max_batch_count, batch_pool, batch_pools, batch_loop, sub_sched_run}

-- The world after each of some units was taken out of a pool and run.
module _ (units : Units) (pool : ℕ) where
  open units use {Runtime}

  abbrev pub ran : List ℕ → World Runtime → World Runtime
  ran [] w = w
  ran (u ∷ us) w =
      ran us (units.xstream_run_unit u pool (record w { rt = (units.pool_pop pool w.rt).1 }))

module _ (units : Units) (contents : ℕ → units.Runtime → List ℕ) (queue : IsQueue units contents)
    (pool : ℕ)
    (steady : (u : ℕ) (w : World units.Runtime)
      → contents pool (units.xstream_run_unit u pool w).rt ≡ contents pool w.rt) where
  open units use {Runtime}

  -- The world after one unit was taken out and run.
  abbrev one : ℕ → World Runtime → World Runtime
  one u w = units.xstream_run_unit u pool (record w { rt = (units.pool_pop pool w.rt).1 })

  one-rest :
      (u : ℕ) (q : List ℕ) (w : World Runtime)
      → contents pool w.rt ≡ u ∷ q
      → contents pool (one u w).rt ≡ q
  one-rest u q w e =
      steady u (record w { rt = (units.pool_pop pool w.rt).1 }) ∙ queue.pop_rest pool u q w.rt e

  -- With `suc n` units missing for a full batch.
  batch_pool-ran :
      (fuel n cnt : ℕ) (q : List ℕ) (w : World Runtime)
      → cnt + suc n ≡ max_batch_count
      → n < fuel
      → contents pool w.rt ≡ q
      → All (λ u. u ≢ 0) q
      → (batch_pool units fuel pool cnt w
          ≡ some (cnt + length (take (suc n) q), ran units pool (take (suc n) q) w))
        × (contents pool (ran units pool (take (suc n) q) w).rt ≡ drop (suc n) q)
  unfolding batch_pool
  batch_pool-ran zero n cnt q w full h e real = absurd (omega arith)
  batch_pool-ran (suc fuel) n cnt [] w full h e real =
      let none = queue.pop_none pool w.rt e in
      let same : cnt + 0 ≡ cnt = omega arith in
      (
        rw
            (
              batch_pool,
              ap (λ (x : ℕ × Runtime). x.0) none,
              ap (λ (x : ℕ × Runtime). x.1) none,
              same,
            )
            refl,
        e,
      )
  batch_pool-ran (suc fuel) zero cnt (u ∷ q) w full h e real =
      let head = queue.pop_unit pool u q w.rt e in
      let unit : (u == 0) ≡ false = ground (arith, real.0) in
      let enough : leb max_batch_count (cnt + 1) ≡ true = ground arith in
      (rw (batch_pool, head, unit, enough, head) refl, one-rest u q w e)
  batch_pool-ran (suc fuel) (suc n) cnt (u ∷ q) w full h e real =
      let head = queue.pop_unit pool u q w.rt e in
      let unit : (u == 0) ≡ false = ground (arith, real.0) in
      let fewer : leb max_batch_count (cnt + 1) ≡ false = ground arith in
      let (rest, left) =
        batch_pool-ran fuel n (cnt + 1) q (one u w) (omega arith) (omega arith) (one-rest u q w e)
          real.1 in
      let sum : cnt + 1 + length (take (suc n) q) ≡ cnt + suc (length (take (suc n) q)) =
        omega arith in
      (rw (batch_pool, head, unit, fewer, head, rest, sum) refl, left)

  abbrev batch : List ℕ → List ℕ
  batch q = take max_batch_count q

  -- A round over the one pool.
  batch_pools-ran :
      (fuel : ℕ) (q : List ℕ) (w : World Runtime)
      → 16 ≤ fuel
      → contents pool w.rt ≡ q
      → All (λ u. u ≢ 0) q
      → (batch_pools units fuel (pool ∷ []) (0 ∷ []) 0 w
          ≡ some (length (batch q), ran units pool (batch q) w))
        × (contents pool (ran units pool (batch q) w).rt ≡ drop max_batch_count q)
  unfolding batch_pools
  batch_pools-ran fuel q w h e real =
      let (runs, left) = batch_pool-ran fuel 15 0 q w refl (omega arith) e real in
      let sum : 0 + length (take 16 q) ≡ length (take 16 q) = omega arith in
      (rw (runs, sum) refl, left)

  batch_short : (n : ℕ) (q : List ℕ) → length (take n q) < n → drop n q ≡ []
  batch_short zero q h = absurd (omega arith)
  batch_short (suc n) [] h = refl
  batch_short (suc n) (x ∷ q) h = batch_short n q (omega arith)

  length-take : (n : ℕ) (q : List ℕ) → length (take n q) ≤ n
  length-take zero q = omega arith
  length-take (suc n) [] = omega arith
  length-take (suc n) (x ∷ q) = omega (arith, length-take n q)

  batch_loop-last :
      (rounds fuel c : ℕ) (w w' : World Runtime)
      → batch_pools units fuel (pool ∷ []) (0 ∷ []) 0 w ≡ some (c, w')
      → (c == 0 || leb max_batch_count c) ≡ true
      → batch_loop units (suc rounds) fuel (pool ∷ []) (0 ∷ []) w ≡ some w'
  unfolding batch_loop
  batch_loop-last rounds fuel c w w' e ends = rw e (
      subst
        (λ b.
          (elim b as (λ x. Option (World Runtime)) [
            | true ↦ some w'
            | false ↦ batch_loop units rounds fuel (pool ∷ []) (0 ∷ []) w'
          ])
          ≡ some w')
        (sym ends) refl)

  batch_loop-next :
      (rounds fuel c : ℕ) (w w' : World Runtime)
      → batch_pools units fuel (pool ∷ []) (0 ∷ []) 0 w ≡ some (c, w')
      → (c == 0 || leb max_batch_count c) ≡ false
      → batch_loop units (suc rounds) fuel (pool ∷ []) (0 ∷ []) w
        ≡ batch_loop units rounds fuel (pool ∷ []) (0 ∷ []) w'
  unfolding batch_loop
  batch_loop-next rounds fuel c w w' e goes = rw e (
      subst
        (λ b.
          (elim b as (λ x. Option (World Runtime)) [
            | true ↦ some w'
            | false ↦ batch_loop units rounds fuel (pool ∷ []) (0 ∷ []) w'
          ])
          ≡ batch_loop units rounds fuel (pool ∷ []) (0 ∷ []) w')
        (sym goes) refl)

  -- Two rounds are enough: the second finds an empty pool.
  batch_loop-ran :
      (rounds fuel : ℕ) (q : List ℕ) (w : World Runtime)
      → 16 ≤ fuel
      → contents pool w.rt ≡ q
      → All (λ u. u ≢ 0) q
      → batch_loop units (suc (suc rounds)) fuel (pool ∷ []) (0 ∷ []) w
        ≡ some (ran units pool (batch q) w)
  batch_loop-ran rounds fuel q w h e real =
      let (first, left) = batch_pools-ran fuel q w h e real in
      let w' = ran units pool (batch q) w in
      elim (Bool-cases (length (batch q) == 0 || leb max_batch_count (length (batch q)))) [
        | inl ends ↦ batch_loop-last (suc rounds) fuel (length (batch q)) w w' first ends
        | inr goes ↦
            let short : length (batch q) < max_batch_count = ground (arith, goes) in
            let empty = left ∙ batch_short max_batch_count q short in
            let second = (batch_pools-ran fuel [] w' h empty tt).0 in
            batch_loop-next (suc rounds) fuel (length (batch q)) w w' first goes
            ∙ batch_loop-last rounds fuel 0 w' w' second refl
      ]

  -- A load's scheduler with the one pool, where no unit that runs takes from it or adds to it: it
  -- takes out up to 16 units, runs these in their order, and leaves the others in the pool.
  pub sub_sched_run-ran :
      (rounds fuel sched : ℕ) (q : List ℕ) (w : World Runtime)
      → 2 ≤ rounds
      → 16 ≤ fuel
      → (w.sub_datas (units.sched_get_data sched w.rt)).pools ≡ pool ∷ []
      → (w.sub_datas (units.sched_get_data sched w.rt)).num_pools ≡ 1
      → contents pool w.rt ≡ q
      → All (λ u. u ≢ 0) q
      → (sub_sched_run units rounds fuel sched w ≡ some (ran units pool (take 16 q) w))
        × (contents pool (ran units pool (take 16 q) w).rt ≡ drop 16 q)
  unfolding sub_sched_run
  sub_sched_run-ran zero fuel sched q w two h pools num e real = absurd (omega arith)
  sub_sched_run-ran (suc zero) fuel sched q w two h pools num e real = absurd (omega arith)
  sub_sched_run-ran (suc (suc rounds)) fuel sched q w two h pools num e real = (
    rw (pools, num) (batch_loop-ran rounds fuel q w h e real),
    (batch_pools-ran fuel q w h e real).1,
  )
