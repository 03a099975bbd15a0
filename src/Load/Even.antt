-- ===== src/Load/Even.antt =====
-- Loads are dealt out evenly (abtst_init_loads in src/load/load.c).
use abtst.Common.{
  ℕ, zero, suc, ◌+◌, ◌-◌, ◌<◌, ◌≡◌, ◌≢◌, ◌⊎◌, inl, inr, refl, sym, subst, ◌∙◌, true, false, some,
  List, [], ◌∷◌, arith, ◌==◌, length, count, mem, mem-range, mem-range_iff, All, All-get, Distinct,
  ◌&&◌, range, Bool-cases,
}
use mathlib.Core.List.{append-nil}
use abtst.Common.Int.{pos}
use abtst.Common.Store.{Array}
use abtst.Abt.{Abt}
use abtst.Load.Init.{Loads, serves, zero_loads, init_loads}
use abtst.Load.Order.{serving, order_from}
use abtst.Load.RoundRobin.{round_robin, length-round_robin, round_robin-Even, round_robin-mem}
use abtst.Load.Deal.{IsWorking, Dealt, deal_loads-Dealt}
use abtst.Stream.{Stream, Store}
use abtst.Stream.Move.{bare}

serving-mem :
    (p : ℕ) (streams : Array Stream) (is : List ℕ) (j : ℕ)
    → mem j (serving p streams is) ≡ (mem j is && serves p (streams j))
unfolding serving
serving-mem p streams [] j = refl
serving-mem p streams (i ∷ is) j = elim (Bool-cases (j == i)) [
  | inl here ↦ let e : j ≡ i = ground arith in rw e (ground (arith, serving-mem p streams is i))
  | inr there ↦ ground (arith, there, serving-mem p streams is j)
]

pub range-out : (n start : ℕ) → mem start (range (suc start) n) ≡ false
range-out n start = elim (Bool-cases (mem start (range (suc start) n))) [
  | inl m ↦ absurd (let bad = mem-range_iff start n (suc start) m in omega arith)
  | inr e ↦ e
]

serving-Distinct :
    (p : ℕ) (streams : Array Stream) (n start : ℕ) → Distinct (serving p streams (range start n))
unfolding serving
serving-Distinct p streams zero start = tt
serving-Distinct p streams (suc n) start = elim (Bool-cases (serves p (streams start))) [
  | inl hit ↦ rw hit (
    ground (arith, range-out n start, serving-mem p streams (range (suc start) n) start),
    serving-Distinct p streams n (suc start),
  )
  | inr miss ↦ rw miss (serving-Distinct p streams n (suc start))
]

zero_loads-streams :
    (base : ℕ) (is : List ℕ) (s : Store) → (zero_loads base is s).streams ≡ s.streams
unfolding zero_loads
zero_loads-streams base [] s = refl
zero_loads-streams base (i ∷ is) s = zero_loads-streams base is _

-- The store `t` is what is left of `streams` when the loads at `base` were dealt out: of the streams that the partition
-- uses, each has `share` loads more or one beyond that, each load runs on such a stream, and nothing
-- else of a stream but its queue and the length kept of it differs.
pub record DealtEvenly (base max p nr_loads : ℕ) (streams : Array Stream) (t : Store) : Type 0 where
  pub share : ℕ
  pub even :
      (j : ℕ)
      → j < max
      → serves p (streams j) ≡ true
      → (length (t.streams j).load_q ≡ length (streams j).load_q + share)
        ⊎ (length (t.streams j).load_q ≡ length (streams j).load_q + suc share)
  pub others :
      (j : ℕ)
      → serves p (streams j) ≡ false
      → length (t.streams j).load_q ≡ length (streams j).load_q
  pub fields : (j : ℕ) → bare (t.streams j) ≡ bare (streams j)
  pub runs_on :
      (a : ℕ)
      → a < nr_loads
      → (k : ℕ) × (k < max) × (serves p (streams k) ≡ true) × ((t.loads (base + a)).curr_rank ≡ k)

count_out :
    (j : ℕ) (q ks : List ℕ) → mem j q ≡ false → All (λ k. mem k q ≡ true) ks → count j ks ≡ 0
count_out j q [] out all = refl
count_out j q (k ∷ ks) out all = elim (Bool-cases (k == j)) [
  | inl same ↦
      let e : k ≡ j = ground arith in
      absurd (let bad = subst (λ x. mem x q ≡ true) e all.0 in ground arith)
  | inr apart ↦ ground (arith, apart, count_out j q ks out all.1)
]

length-round_robin_ne : (n : ℕ) (q : List ℕ) → q ≢ [] → length (round_robin n q) ≡ n
length-round_robin_ne n [] ne = absurd (ne refl)
length-round_robin_ne n (k ∷ q) ne = length-round_robin n k q

module _ (base max : ℕ) (loads : Loads) (s t : Store)
    (ranked : (k : ℕ) → k < max → (s.streams k).rank ≡ k) where
  abbrev q : List ℕ
  q = serving loads.partition_id s.streams (range 0 max)

  Dealt-DealtEvenly :
      q ≢ []
      → Dealt base 0 (round_robin loads.nr_loads q) s t
      → DealtEvenly base max loads.partition_id loads.nr_loads s.streams t
  Dealt-DealtEvenly ne v =
      let p = loads.partition_id in
      let (c, turns) = round_robin-Even loads.nr_loads q (serving-Distinct p s.streams max 0) in
      let all = round_robin-mem loads.nr_loads q in
      record {
        share = c;
        even = λ j lt hit.
            let m : mem j q ≡ true = ground (
              arith,
              serving-mem p s.streams (range 0 max) j,
              hit,
              mem-range j max 0 (omega arith) (omega arith),
            ) in
            elim (turns j m) [
              | inl e ↦ inl (omega (arith, v.queued j, e))
              | inr e ↦ inr (omega (arith, v.queued j, e))
            ];
        others = λ j miss.
            let out : mem j q ≡ false =
              ground (arith, serving-mem p s.streams (range 0 max) j, miss) in
            omega (arith, v.queued j, count_out j q (round_robin loads.nr_loads q) out all);
        fields = v.fields;
        runs_on = λ a lt.
            let (k, at, m) =
              All-get (λ k. mem k q ≡ true) (round_robin loads.nr_loads q) a all
                (omega (arith, length-round_robin_ne loads.nr_loads q ne)) in
            let inside = serving-mem p s.streams (range 0 max) k in
            let range_k : mem k (range 0 max) ≡ true = ground (arith, inside, m) in
            let here = mem-range_iff k max 0 range_k in
            let there : base + (0 + a) ≡ base + a = omega arith in
            (
              k,
              omega arith,
              ground (arith, inside, m),
              subst (λ l. (t.loads l).curr_rank ≡ (s.streams k).rank) there (v.runs_on a k at)
                  ∙ ranked k (omega arith),
            );
      }

order_from-start :
    (p : ℕ) (streams : Array Stream) (max : ℕ)
    → order_from p streams max 0 ≡ serving p streams (range 0 max)
unfolding serving
order_from-start p streams max =
    let all : max - 0 ≡ max = omega arith in rw all (append-nil (serving p streams (range 0 max)))

not_nil : (j : ℕ) (xs : List ℕ) → mem j xs ≡ true → xs ≢ []
not_nil j [] m e = absurd (ground arith)
not_nil j (x ∷ xs) m e = cc

-- Where the calls of Argobots succeed, ranks are indices and the partition uses a stream, the loads
-- are dealt out: the code is 0, no stream of the partition has two loads more than another from it,
-- and each load runs on a stream that the partition uses.
pub init_loads-DealtEvenly :
    (abt : Abt) (works : IsWorking abt) (base max : ℕ) (loads : Loads) (s : Store)
    (rt : abt.Runtime) (k : ℕ)
    → ((j : ℕ) → j < max → (s.streams j).rank ≡ j)
    → k < max
    → serves loads.partition_id (s.streams k) ≡ true
    → (t : Store) × (rt' : abt.Runtime) × (init_loads abt (some base) max loads s rt
        ≡ some (pos 0, record loads { loads = base }, t, rt'))
      × DealtEvenly base max loads.partition_id loads.nr_loads s.streams t
unfolding init_loads
init_loads-DealtEvenly abt works base max loads s rt k ranked lt hit =
    let all = range 0 loads.nr_loads in
    let made = record loads { loads = base } in
    let z = zero_loads base all s in
    let same = zero_loads-streams base all s in
    let order : order_from loads.partition_id z.streams max 0
        ≡ serving loads.partition_id z.streams (range 0 max) =
      order_from-start loads.partition_id z.streams max in
    let in_order =
      subst (λ st. mem k (serving loads.partition_id st (range 0 max)) ≡ true) (sym same)
        (ground (
          arith,
          serving-mem loads.partition_id s.streams (range 0 max) k,
          hit,
          mem-range k max 0 (omega arith) (omega arith),
        )) in
    let ne = not_nil k (serving loads.partition_id z.streams (range 0 max)) in_order in
    let ranks =
      subst (λ (st : Array Stream). (j : ℕ) → j < max → (st j).rank ≡ j) (sym same) ranked in
    let (t, rt', runs, v) =
      deal_loads-Dealt abt works max made (omega arith) loads.nr_loads 0 0 z rt
        (serving loads.partition_id z.streams (range 0 max)) (omega arith) ranks order ne in
    (
      t,
      rt',
      rw runs refl,
      subst (λ st. DealtEvenly base max loads.partition_id loads.nr_loads st t) same
          (Dealt-DealtEvenly base max made z t ranks ne v),
    )
