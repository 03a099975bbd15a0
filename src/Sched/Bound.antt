-- ===== src/Sched/Bound.antt =====
-- The units of a pool that are bound for a stream (src/sched/base.c).
use abtst.Common.{
  ℕ, ◌≡◌, Bool, inl, inr, refl, subst, ap, ◌∙◌, true, false, List, [], ◌∷◌, arith, ◌==◌,
  if◌then◌else◌, Bool-cases, count, mem, All,
}
use abtst.Sched.Units.{World, Units}
use abtst.Sched.Step.{load_of}
use abtst.Sched.Swept.{bound_for}
use abtst.Sched.Orderly.{pool_of, Holds, load_at}

pub if_count :
    (t : Bool) (v : ℕ) (xs : List ℕ)
    → count v (if t then [] else xs) ≡ (if t then 0 else count v xs)
if_count true v xs = refl
if_count false v xs = refl

pub All-at : (P : ℕ → Type 0) (xs : List ℕ) (x : ℕ) → All P xs → mem x xs ≡ true → P x
All-at P [] x all m = absurd (ground arith)
All-at P (y ∷ xs) x all m = elim (Bool-cases (x == y)) [
  | inl here ↦ let e : y ≡ x = ground arith in subst P e all.0
  | inr there ↦ All-at P xs x all.1 (ground arith)
]

module _ (units : Units) (contents : ℕ → units.Runtime → List ℕ) where
  open units use {Runtime, unit_get_sched}

  abbrev pub queue_of : ℕ → World Runtime → List ℕ
  queue_of j w = contents (pool_of j w) w.rt

  -- Every unit in the pool of the stream is to run there.
  abbrev pub IsSettled : ℕ → World Runtime → Type 0
  IsSettled j w =
      (v : ℕ)
      → Holds units contents j v w
      → (w.store.loads (load_at units contents j v w)).dest_rank ≡ j

  -- How often a unit is among those that are bound for a stream.
  pub count_bound :
      (j pool v : ℕ) (a : List ℕ) (w : World Runtime)
      → count v (bound_for units contents j pool a w) ≡ (
          if (w.store.loads (load_of units contents pool v w)).dest_rank == j then count v a else 0)
  count_bound j pool v [] w = ground arith
  count_bound j pool v (u ∷ a) w =
      let rest = count_bound j pool v a w in
      let dest : ℕ → ℕ = λ x. (w.store.loads (load_of units contents pool x w)).dest_rank in
      elim (Bool-cases (dest u == j)) [
        | inl hit ↦ rw hit (elim (Bool-cases (v == u)) [
          | inl here ↦
              let e : v ≡ u = ground arith in
              let hit' : (dest v == j) ≡ true = ap (λ x. dest x == j) e ∙ hit in
              ground (arith, rest)
          | inr there ↦ ground (arith, rest)
        ])
        | inr miss ↦ rw miss (elim (Bool-cases (v == u)) [
          | inl here ↦
              let e : v ≡ u = ground arith in
              let miss' : (dest v == j) ≡ false = ap (λ x. dest x == j) e ∙ miss in
              ground (arith, rest)
          | inr there ↦ ground (arith, rest)
        ])
      ]
