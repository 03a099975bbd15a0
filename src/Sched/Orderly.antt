-- ===== src/Sched/Orderly.antt =====
-- The state in which the schedulers of the streams (src/sched/base.c) are between two passes, and what
-- one pass of a stream makes of it.
use abtst.Common.{
  ℕ, ◌<◌, ◌≤◌, ◌≡◌, inl, inr, refl, sym, ap, ◌∙◌, true, false, List, [], ◌∷◌, ◌++◌, arith, ◌==◌,
  Bool-cases, count, mem, All, Distinct,
}
use abtst.Stream.Placed.{mem_one}
use abtst.Sched.Units.{World, Units}
use abtst.Sched.Data.{sub_sched_get_load}
use abtst.Sched.Step.{load_of, IsUnit}
use abtst.Sched.Swept.{loads_of}
use abtst.Sched.Ready.{Ready}

append_nil : (xs : List ℕ) → xs ++ [] ≡ xs
append_nil [] = refl
append_nil (x ∷ xs) = ap (λ ys. x ∷ ys) (append_nil xs)

abbrev pub pool_of : {Runtime : Type 0} → ℕ → World Runtime → ℕ
pool_of j w = (w.store.streams j).pool

module _ (units : Units) (contents : ℕ → units.Runtime → List ℕ) where
  open units use {Runtime, unit_get_sched}

  -- The unit stands in the pool of the stream.
  abbrev pub Holds : ℕ → ℕ → World Runtime → Type 0
  Holds j u w = mem u (contents (pool_of j w) w.rt) ≡ true

  -- The load that a unit of the stream's pool runs.
  abbrev pub load_at : ℕ → ℕ → World Runtime → ℕ
  load_at j u w = load_of units contents (pool_of j w) u w

  module _ (max : ℕ) where
    -- The streams have pools of their own, each unit in the pool of a stream runs a load of that stream,
    -- no two the same, and has one scheduler whichever of the pools it is asked for by.
    pub record Orderly (w : World Runtime) : Type 0 where
      pub awake : (j : ℕ) → j < max → (w.store.streams j).blocking ≡ false
      pub apart : (i j : ℕ) → i < max → j < max → pool_of i w ≡ pool_of j w → i ≡ j
      pub runs_load :
          (j u : ℕ) → j < max → Holds j u w → IsUnit units contents max j (pool_of j w) u w
      pub once : (j u : ℕ) → j < max → count u (contents (pool_of j w) w.rt) ≤ 1
      pub own_load :
          (j u v : ℕ) → j < max → Holds j u w → Holds j v w → load_at j u w ≡ load_at j v w → u ≡ v
      pub one_sched :
          (i j u : ℕ)
          → i < max
          → j < max
          → unit_get_sched u (pool_of i w) w.rt ≡ unit_get_sched u (pool_of j w) w.rt

    module _ {w : World Runtime} (o : Orderly w) where
      pub load_same : (i j u : ℕ) → i < max → j < max → load_at i u w ≡ load_at j u w
      load_same i j u i_lt j_lt =
          ap (λ s. sub_sched_get_load units s w) (o.one_sched i j u i_lt j_lt)

      -- Units of two pools run different loads.
      pub apart_loads :
          (i j u v : ℕ)
          → i < max
          → j < max
          → Holds i u w
          → Holds j v w
          → load_at i u w ≡ load_at j v w
          → i ≡ j
      apart_loads i j u v i_lt j_lt hu hv e =
          sym (o.runs_load i u i_lt hu).here
          ∙ ap (λ l. (w.store.loads l).curr_rank) e
          ∙ (o.runs_load j v j_lt hv).here

      -- The order that a pass wants of a part of a pool.
      All-units :
          (k : ℕ) (a : List ℕ)
          → k < max
          → ((u : ℕ) → mem u a ≡ true → Holds k u w)
          → All (λ u. IsUnit units contents max k (pool_of k w) u w) a
      All-units k [] lt sub = tt
      All-units k (u ∷ a) lt sub = (
        o.runs_load k u lt (sub u (ground arith)),
        All-units k a lt (λ v m. sub v (ground (arith, m))),
      )

      pub mem_loads :
          (k : ℕ) (a : List ℕ) (l : ℕ)
          → mem l (loads_of units contents (pool_of k w) a w) ≡ true
          → (u : ℕ) × (mem u a ≡ true) × (load_at k u w ≡ l)
      mem_loads k [] l m = absurd (ground arith)
      mem_loads k (x ∷ a) l m = elim (Bool-cases (l == load_at k x w)) [
        | inl here ↦ (x, ground arith, ground arith)
        | inr there ↦ let (u, mu, e) = mem_loads k a l (ground arith) in (u, ground (arith, mu), e)
      ]

      Distinct-loads :
          (k : ℕ) (a : List ℕ)
          → k < max
          → ((u : ℕ) → mem u a ≡ true → Holds k u w)
          → ((u : ℕ) → count u a ≤ 1)
          → Distinct (loads_of units contents (pool_of k w) a w)
      Distinct-loads k [] lt sub single = tt
      Distinct-loads k (x ∷ a) lt sub single = (
        elim (Bool-cases (mem (load_at k x w) (loads_of units contents (pool_of k w) a w))) [
          | inr away ↦ away
          | inl twice ↦
              let (u, mu, e) = mem_loads k a (load_at k x w) twice in
              let same =
                o.own_load k u x lt (sub u (ground (arith, mu))) (sub x (ground arith)) e in
              absurd (ground (arith, single x, mem_one u a mu, same))
        ],
        Distinct-loads k a lt (λ v m. sub v (ground (arith, m))) (λ v. ground (arith, single v)),
      )

      pub Orderly-Ready :
          (k : ℕ)
          → k < max
          → Ready units contents max k w.store.streams
              (contents (pool_of k w) w.rt)
              []
              (record { run_cnt = 0; run_subpool = 0; world = w })
      Orderly-Ready k lt = record {
        awake = o.awake k lt;
        apart = o.apart;
        shown = sym (append_nil (contents (pool_of k w) w.rt));
        counted = refl;
        ours = All-units k (contents (pool_of k w) w.rt) lt (λ u m. m);
        distinct =
            Distinct-loads k (contents (pool_of k w) w.rt) lt (λ u m. m) (λ u. o.once k u lt);
        settled = tt;
      }
