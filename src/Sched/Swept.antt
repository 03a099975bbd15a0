-- ===== src/Sched/Swept.antt =====
-- What a pass of sched_run (src/sched/base.c) over the pool of its stream amounts to.
use abtst.Common.{
  ℕ, ◌+◌, ◌<◌, ◌≡◌, inl, inr, refl, true, false, List, [], ◌∷◌, arith, ◌==◌, if◌then◌else◌,
  Bool-cases, count, mem, All,
}
use abtst.Common.Store.{Array}
use abtst.Stream.{Stream}
use abtst.Sched.Units.{World, Units}
use abtst.Sched.Step.{load_of, IsUnit, SameScheds, SameRanks, IsUnit-Same, SameScheds-load_of}

pub All-map {ℓ κ} :
    {P : ℕ → Type ℓ} {Q : ℕ → Type κ} (xs : List ℕ)
    → ((x : ℕ) → mem x xs ≡ true → P x → Q x)
    → All P xs
    → All Q xs
All-map [] f all = tt
All-map {P} {Q} (x ∷ xs) f all =
    (f x (ground arith) all.0, All-map {P = P} {Q = Q} xs (λ y m. f y (ground (arith, m))) all.1)

module _ (units : Units) (contents : ℕ → units.Runtime → List ℕ) where
  open units use {Runtime}

  -- The loads that the units of a pool run, and those of the units that are bound for a stream.
  abbrev pub loads_of : ℕ → List ℕ → World Runtime → List ℕ
  loads_of pool [] w = []
  loads_of pool (u ∷ us) w = load_of units contents pool u w ∷ loads_of pool us w

  abbrev pub bound_for : (j pool : ℕ) → List ℕ → World Runtime → List ℕ
  bound_for j pool [] w = []
  bound_for j pool (u ∷ us) w =
      if (w.store.loads (load_of units contents pool u w)).dest_rank == j
      then u ∷ bound_for j pool us w
      else bound_for j pool us w

  -- The world `w'` comes from `w` by a pass over the units `a` of the stream `k`, with the units `b`
  -- behind them: the pool of a stream has what it had, and the units that are bound for it; the pool
  -- of `k` has `b` instead of what it had. Each load runs on the stream that it is bound for, which
  -- stays the same.
  pub record Swept (max k : ℕ) (st : Array Stream) (a b : List ℕ) (w w' : World Runtime)
      : Type 0 where
    pub same : SameScheds units contents w w'
    pub delivered :
        (j v : ℕ)
        → j < max
        → count v (contents (st j).pool w'.rt)
          ≡ count v (if j == k then b else contents (st j).pool w.rt)
            + count v (bound_for j (st k).pool a w)
    pub arrived :
        All
          (λ u.
            (w'.store.loads (load_of units contents (st k).pool u w)).curr_rank
            ≡ (w.store.loads (load_of units contents (st k).pool u w)).dest_rank)
          a
    pub others :
        (l : ℕ) → mem l (loads_of (st k).pool a w) ≡ false → SameRanks units contents l w w'
    pub dests : (l : ℕ) → (w'.store.loads l).dest_rank ≡ (w.store.loads l).dest_rank

  -- Two worlds that agree on the schedulers and on the ranks of some units' loads.
  pub record Kept (pool : ℕ) (a : List ℕ) (w w' : World Runtime) : Type 0 where
    pub same : SameScheds units contents w w'
    pub ranks :
        (u : ℕ) → mem u a ≡ true → SameRanks units contents (load_of units contents pool u w) w w'

  pub IsUnit-Kept :
      (max k pool : ℕ) (a : List ℕ) (w w' : World Runtime)
      → Kept pool a w w'
      → All (λ u. IsUnit units contents max k pool u w) a
      → All (λ u. IsUnit units contents max k pool u w') a
  IsUnit-Kept max k pool a w w' v all =
      All-map {P = λ u. IsUnit units contents max k pool u w}
        {Q = λ u. IsUnit units contents max k pool u w'} a
        (λ u m. IsUnit-Same units contents v.same (v.ranks u m)) all

  pub loads_of-same :
      (pool : ℕ) (a : List ℕ) {w w' : World Runtime}
      → SameScheds units contents w w'
      → loads_of pool a w' ≡ loads_of pool a w
  loads_of-same pool [] same = refl
  loads_of-same pool (u ∷ a) {w} {w'} same =
      rw (SameScheds-load_of units contents same pool u, loads_of-same pool a same) refl

  dest-Kept :
      {pool : ℕ} {a : List ℕ} {w w' : World Runtime}
      → Kept pool a w w'
      → (u : ℕ) → mem u a ≡ true
      → (w'.store.loads (load_of units contents pool u w')).dest_rank
        ≡ (w.store.loads (load_of units contents pool u w)).dest_rank
  dest-Kept {pool} {a} {w} {w'} v u m =
      rw (SameScheds-load_of units contents v.same pool u) (v.ranks u m).dest

  tail-Kept :
      {pool u : ℕ} {a : List ℕ} {w w' : World Runtime} → Kept pool (u ∷ a) w w' → Kept pool a w w'
  tail-Kept v = record { same = v.same; ranks = λ u m. v.ranks u (ground (arith, m)) }

  pub bound_for-Kept :
      (j pool : ℕ) (a : List ℕ) {w w' : World Runtime}
      → Kept pool a w w'
      → bound_for j pool a w' ≡ bound_for j pool a w
  bound_for-Kept j pool [] v = refl
  bound_for-Kept j pool (u ∷ a) {w} {w'} v =
      rw (dest-Kept v u (ground arith), bound_for-Kept j pool a (tail-Kept v)) refl

  pub mem-loads_of :
      (pool u : ℕ) (a : List ℕ) (w : World Runtime)
      → mem u a ≡ true
      → mem (load_of units contents pool u w) (loads_of pool a w) ≡ true
  mem-loads_of pool u [] w m = cc
  mem-loads_of pool u (x ∷ a) w m = elim (Bool-cases (u == x)) [
    | inl here ↦ let e : u ≡ x = ground arith in rw e (ground arith)
    | inr there ↦ ground (arith, mem-loads_of pool u a w (ground arith))
  ]
