-- ===== src/Sched/Steps.antt =====
-- The units of a pool, one after the other, in sched_run (src/sched/base.c).
use abtst.Common.{
  ℕ, ◌+◌, ◌<◌, ◌≡◌, ◌≢◌, inl, inr, refl, sym, subst, ap, ◌∙◌, true, false, List, [], ◌∷◌, ◌++◌,
  arith, ◌==◌, if◌then◌else◌, Bool-cases, count, count-append_one, mem, All,
}
use abtst.Common.Store.{Array}
use abtst.Load.{Load}
use abtst.Stream.{Stream}
use abtst.Sched.Units.{World, Units}
use abtst.Sched.Step.{
  load_of, SameScheds, SameRanks, Requeued, Sent, SameScheds-load_of, trans-SameScheds,
}
use abtst.Sched.Swept.{
  All-map, loads_of, bound_for, Swept, Kept, loads_of-same, bound_for-Kept, mem-loads_of,
}

apart_from : (l : ℕ) (xs : List ℕ) (x : ℕ) → mem l xs ≡ false → mem x xs ≡ true → x ≢ l
apart_from l xs x out here e =
    absurd (let bad = subst (λ y. mem y xs ≡ true) e here in ground arith)

module _ (units : Units) (contents : ℕ → units.Runtime → List ℕ) (max k : ℕ) where
  open units use {Runtime}

  -- After the last unit: nothing but the order of the pool has changed.
  pub Swept-last :
      (b : List ℕ) (w w' : World Runtime)
      → SameScheds units contents w w'
      → ((v : ℕ) → count v (contents (w.store.streams k).pool w'.rt) ≡ count v b)
      → ((j : ℕ)
          → j < max
          → j ≢ k
          → contents (w.store.streams j).pool w'.rt ≡ contents (w.store.streams j).pool w.rt)
      → ((l : ℕ) → SameRanks units contents l w w')
      → Swept units contents max k w.store.streams [] b w w'
  Swept-last b w w' same at_k others ranks = record {
    same = same;
    delivered = λ j v lt. elim (Bool-cases (j == k)) [
      | inl here ↦ let e : j ≡ k = ground arith in rw e (ground (arith, at_k v))
      | inr there ↦ rw (there, others j lt (λ e. ground arith)) (omega arith)
    ];
    arrived = tt;
    others = λ l m. ranks l;
    dests = λ l. (ranks l).dest;
  }

  module _ (st : Array Stream)
      (apart : (i j : ℕ) → i < max → j < max → (st i).pool ≡ (st j).pool → i ≡ j) (lt : k < max)
      (u load : ℕ) (a b : List ℕ) (w w1 w' : World Runtime) (at : w.store.streams ≡ st)
      (is_load : load_of units contents (st k).pool u w ≡ load)
      (distinct : mem load (loads_of units contents (st k).pool a w) ≡ false) where
    abbrev pool : ℕ
    pool = (st k).pool

    Kept-ranks :
        SameScheds units contents w w1
        → ((l : ℕ) → l ≢ load → SameRanks units contents l w w1)
        → Kept units contents pool a w w1
    Kept-ranks same ranks = record {
      same = same;
      ranks = λ x m. ranks (load_of units contents pool x w) (
          apart_from load (loads_of units contents pool a w) (load_of units contents pool x w)
            distinct (mem-loads_of units contents pool x a w m));
    }

    -- The loads behind the first, and the first.
    arrived-cons :
        (to : ℕ)
        → Kept units contents pool a w w1
        → (w.store.loads load).dest_rank ≡ to
        → (w1.store.loads load).curr_rank ≡ to
        → (c : List ℕ) → Swept units contents max k st a c w1 w'
        → All
            (λ x.
              (w'.store.loads (load_of units contents pool x w)).curr_rank
              ≡ (w.store.loads (load_of units contents pool x w)).dest_rank)
            (u ∷ a)
    arrived-cons to kept goal first c v =
        let out : mem load (loads_of units contents pool a w1) ≡ false =
          rw (loads_of-same units contents pool a kept.same) distinct in
        (
          rw is_load ((v.others load out).curr ∙ first ∙ sym goal),
          All-map
              {P = λ x.
                (w'.store.loads (load_of units contents pool x w1)).curr_rank
                ≡ (w1.store.loads (load_of units contents pool x w1)).dest_rank}
              {Q = λ x.
                (w'.store.loads (load_of units contents pool x w)).curr_rank
                ≡ (w.store.loads (load_of units contents pool x w)).dest_rank}
              a
              (λ x m h.
                subst (λ l. (w'.store.loads l).curr_rank ≡ (w1.store.loads l).dest_rank)
                  (SameScheds-load_of units contents kept.same pool x) h
                ∙ (kept.ranks x m).dest)
              v.arrived,
        )

    others-cons :
        Kept units contents pool a w w1
        → ((l : ℕ) → l ≢ load → SameRanks units contents l w w1)
        → (c : List ℕ) → Swept units contents max k st a c w1 w'
        → (l : ℕ)
        → mem l (load_of units contents pool u w ∷ loads_of units contents pool a w) ≡ false
        → SameRanks units contents l w w'
    others-cons kept ranks c v l m =
        let ne : l ≢ load = λ e. ground (arith, is_load, m) in
        let out : mem l (loads_of units contents pool a w1) ≡ false =
          rw (loads_of-same units contents pool a kept.same) (ground (arith, m)) in
        let r = ranks l ne in
        let r' = v.others l out in record { curr = r'.curr ∙ r.curr; dest = r'.dest ∙ r.dest }

    -- What the pool of a stream has once the units behind the first are passed, where that stream is
    -- the one that the first is bound for, and where it is not.
    delivered-to :
        (j x : ℕ) (c c' : List ℕ)
        → Kept units contents pool a w w1
        → (w.store.loads load).dest_rank ≡ j
        → count x c' ≡ count x c + (if u == x then 1 else 0)
        → count x (contents (st j).pool w'.rt)
          ≡ count x c' + count x (bound_for units contents j pool a w1)
        → count x (contents (st j).pool w'.rt)
          ≡ count x c + count x (bound_for units contents j pool (u ∷ a) w)
    delivered-to j x c c' kept goal more d =
        let same : bound_for units contents j pool a w1 ≡ bound_for units contents j pool a w =
          bound_for-Kept units contents j pool a kept in
        let hit : ((w.store.loads (load_of units contents pool u w)).dest_rank == j) ≡ true =
          rw is_load (ground (arith, goal)) in
        rw hit (omega (arith, more, d, ap (count x) same))

    delivered-not :
        (j x : ℕ) (c c' : List ℕ)
        → Kept units contents pool a w w1
        → (w.store.loads load).dest_rank ≢ j
        → count x c' ≡ count x c
        → count x (contents (st j).pool w'.rt)
          ≡ count x c' + count x (bound_for units contents j pool a w1)
        → count x (contents (st j).pool w'.rt)
          ≡ count x c + count x (bound_for units contents j pool (u ∷ a) w)
    delivered-not j x c c' kept away more d =
        let same : bound_for units contents j pool a w1 ≡ bound_for units contents j pool a w =
          bound_for-Kept units contents j pool a kept in
        let miss : ((w.store.loads (load_of units contents pool u w)).dest_rank == j) ≡ false =
          rw is_load (ground (arith, away)) in
        rw miss (omega (arith, more, d, ap (count x) same))

    delivered-Sent :
        (to : ℕ)
        → to < max
        → to ≢ k
        → (w.store.loads load).dest_rank ≡ to
        → Sent units contents k to u load (a ++ b) w w1
        → Kept units contents pool a w w1
        → Swept units contents max k st a b w1 w'
        → (j x : ℕ) → j < max
        → count x (contents (st j).pool w'.rt)
          ≡ count x (if j == k then b else contents (st j).pool w.rt)
            + count x (bound_for units contents j pool (u ∷ a) w)
    delivered-Sent to inside away goal s kept v j x j_lt =
        let d = v.delivered j x j_lt in
        elim (Bool-cases (j == k)) [
          | inl here ↦
              let e : j ≡ k = ground arith in
              let d' =
                subst
                  (λ t.
                    count x (contents (st j).pool w'.rt)
                    ≡ count x (if t then b else contents (st j).pool w1.rt)
                      + count x (bound_for units contents j pool a w1))
                  here d in
              rw here (delivered-not j x b b kept (λ bad. away (sym goal ∙ (bad ∙ e))) refl d')
          | inr there ↦
              let ne : j ≢ k = ground arith in
              let d' =
                subst
                  (λ t.
                    count x (contents (st j).pool w'.rt)
                    ≡ count x (if t then b else contents (st j).pool w1.rt)
                      + count x (bound_for units contents j pool a w1))
                  there d in
              rw there (elim (Bool-cases (to == j)) [
                | inl hit ↦
                    let e : to ≡ j = ground arith in
                    let more =
                      subst (λ i. contents (st i).pool w1.rt ≡ contents (st i).pool w.rt ++ u ∷ [])
                        e
                        (subst
                          (λ (t : Array Stream).
                            contents (t to).pool w1.rt ≡ contents (t to).pool w.rt ++ u ∷ [])
                          at s.arrived) in
                    delivered-to j x (contents (st j).pool w.rt) (contents (st j).pool w1.rt) kept
                      (goal ∙ e)
                      (omega (
                        arith,
                        ap (count x) more,
                        count-append_one u x (contents (st j).pool w.rt),
                      ))
                      d'
                | inr miss ↦
                    let same =
                      subst
                        (λ (t : Array Stream).
                          (t j).pool ≢ (t k).pool
                          → (t j).pool ≢ (t to).pool
                          → contents (t j).pool w1.rt ≡ contents (t j).pool w.rt)
                        at (s.others j) (λ bad. ne (apart j k j_lt lt bad))
                        (λ bad. let e = apart j to j_lt inside bad in ground arith) in
                    delivered-not j x (contents (st j).pool w.rt) (contents (st j).pool w1.rt) kept
                      (λ bad. let e : to ≡ j = sym goal ∙ bad in ground arith) (ap (count x) same)
                      d'
              ])
        ]

    delivered-Requeued :
        (w.store.loads load).dest_rank ≡ k
        → Requeued units contents k u (a ++ b) w w1
        → Kept units contents pool a w w1
        → Swept units contents max k st a (b ++ u ∷ []) w1 w'
        → (j x : ℕ) → j < max
        → count x (contents (st j).pool w'.rt)
          ≡ count x (if j == k then b else contents (st j).pool w.rt)
            + count x (bound_for units contents j pool (u ∷ a) w)
    delivered-Requeued goal s kept v j x j_lt =
        let d = v.delivered j x j_lt in
        elim (Bool-cases (j == k)) [
          | inl here ↦
              let e : k ≡ j = ground arith in
              let d' =
                subst
                  (λ t.
                    count x (contents (st j).pool w'.rt)
                    ≡ count x (if t then b ++ u ∷ [] else contents (st j).pool w1.rt)
                      + count x (bound_for units contents j pool a w1))
                  here d in
              rw here (
                delivered-to j x b (b ++ u ∷ []) kept (goal ∙ e)
                  (omega (arith, count-append_one u x b)) d')
          | inr there ↦
              let ne : j ≢ k = ground arith in
              let d' =
                subst
                  (λ t.
                    count x (contents (st j).pool w'.rt)
                    ≡ count x (if t then b ++ u ∷ [] else contents (st j).pool w1.rt)
                      + count x (bound_for units contents j pool a w1))
                  there d in
              let same =
                subst
                  (λ (t : Array Stream).
                    (t j).pool ≢ (t k).pool → contents (t j).pool w1.rt ≡ contents (t j).pool w.rt)
                  at (s.others j) (λ bad. ne (apart j k j_lt lt bad)) in
              rw there (
                delivered-not j x (contents (st j).pool w.rt) (contents (st j).pool w1.rt) kept
                  (λ bad. ne (sym bad ∙ goal)) (ap (count x) same) d')
        ]

    pub Swept-Sent :
        (to : ℕ)
        → to < max
        → to ≢ k
        → (w.store.loads load).dest_rank ≡ to
        → Sent units contents k to u load (a ++ b) w w1
        → Swept units contents max k st a b w1 w'
        → Swept units contents max k st (u ∷ a) b w w'
    Swept-Sent to inside away goal s v =
        let ranks : (l : ℕ) → l ≢ load → SameRanks units contents l w w1 = λ l ne. record {
          curr = ap (λ (x : Load). x.curr_rank) (s.ranks l ne);
          dest = ap (λ (x : Load). x.dest_rank) (s.ranks l ne);
        } in
        let kept = Kept-ranks s.same ranks in
        record {
          same = trans-SameScheds units contents s.same v.same;
          delivered = delivered-Sent to inside away goal s kept v;
          arrived = arrived-cons to kept goal s.moved b v;
          others = others-cons kept ranks b v;
          dests = λ l. v.dests l ∙ elim (Bool-cases (l == load)) [
            | inl here ↦ let e : l ≡ load = ground arith in rw e (s.kept ∙ sym goal)
            | inr there ↦ (ranks l (λ e. ground arith)).dest
          ];
        }

    pub Swept-Requeued :
        (w.store.loads load).dest_rank ≡ k
        → (w.store.loads load).curr_rank ≡ k
        → Requeued units contents k u (a ++ b) w w1
        → Swept units contents max k st a (b ++ u ∷ []) w1 w'
        → Swept units contents max k st (u ∷ a) b w w'
    Swept-Requeued goal here s v =
        let ranks : (l : ℕ) → l ≢ load → SameRanks units contents l w w1 = λ l ne. s.ranks l in
        let kept = Kept-ranks s.same ranks in
        record {
          same = trans-SameScheds units contents s.same v.same;
          delivered = delivered-Requeued goal s kept v;
          arrived = arrived-cons k kept goal ((s.ranks load).curr ∙ here) (b ++ u ∷ []) v;
          others = others-cons kept ranks (b ++ u ∷ []) v;
          dests = λ l. v.dests l ∙ (s.ranks l).dest;
        }
