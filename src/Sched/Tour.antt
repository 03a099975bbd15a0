-- ===== src/Sched/Tour.antt =====
-- Passes of sched_run (src/sched/base.c), one stream after another.
use abtst.Common.{
  ℕ, suc, ◌<◌, ◌≡◌, ◌⊎◌, inl, inr, refl, subst, ap, ◌∙◌, true, false, Option, some, List, [], ◌∷◌,
  arith, ◌==◌, if◌then◌else◌, length, Bool-cases, ==_refl, mem, All, ◌>>=◌,
}
use abtst.Env.{Env}
use abtst.Stream.{Stream}
use abtst.Sched.Units.{World, Units}
use abtst.Sched.Laws.{IsQueue, IsTame}
use abtst.Sched.Pass.{pass_loop}
use abtst.Sched.Step.{load_of, SameScheds, SameScheds-load_of, refl-SameScheds, trans-SameScheds}
use abtst.Sched.Swept.{Swept}
use abtst.Sched.Sweep.{pass_loop-Swept}
use abtst.Sched.Orderly.{pool_of, Holds, load_at, Orderly, Orderly-Ready, load_same}
use abtst.Sched.Bound.{queue_of, IsSettled}
use abtst.Sched.Delivery.{stays, goes, load_then, pass-Orderly, pass-IsSettled}

module _ (units : Units) (contents : ℕ → units.Runtime → List ℕ) (max : ℕ) (env : Env) where
  open units use {Runtime}

  -- A pass of the stream `k`, with one round more than its pool has units.
  abbrev pub pass_of : ℕ → World Runtime → Option (World Runtime)
  pass_of k w =
      pass_loop units (suc (length (queue_of units contents k w))) max env k (pool_of k w)
        (record { run_cnt = 0; run_subpool = 0; world = w })
      >>= λ p. some p.world

  -- The streams of a list, in its order.
  abbrev pub tour : List ℕ → World Runtime → Option (World Runtime)
  tour [] w = some w
  tour (k ∷ ks) w = pass_of k w >>= λ w'. tour ks w'

  -- The stream whose pool has a unit of the stream `i` after the passes of a list.
  abbrev goal_of : (i v : ℕ) → List ℕ → World Runtime → ℕ
  goal_of i v ks w =
      if mem i ks then (w.store.loads (load_at units contents i v w)).dest_rank else i

  record Toured (ks : List ℕ) (w w' : World Runtime) : Type 0 where
    orderly : Orderly units contents max w'
    same : SameScheds units contents w w'
    dests : (l : ℕ) → (w'.store.loads l).dest_rank ≡ (w.store.loads l).dest_rank
    settles :
        (j : ℕ)
        → j < max
        → (mem j ks ≡ true) ⊎ IsSettled units contents j w
        → IsSettled units contents j w'
    goes_home :
        (i v : ℕ)
        → i < max
        → Holds units contents i v w
        → Holds units contents (goal_of i v ks w) v w'

  Toured-none : (w : World Runtime) → Orderly units contents max w → Toured [] w w
  Toured-none w o = record {
    orderly = o;
    same = refl-SameScheds units contents w;
    dests = λ l. refl;
    settles = λ j j_lt before. elim before [ inl bad ↦ absurd (ground arith) | inr all ↦ all ];
    goes_home = λ i v i_lt h. h;
  }

  -- A pass of the stream `k`, and then those of the list.
  module _ (k : ℕ) (ks : List ℕ) {w w1 w' : World Runtime} (lt : k < max)
      (o : Orderly units contents max w)
      (s : Swept units contents max k w.store.streams (queue_of units contents k w) [] w w1)
      (t : Toured ks w1 w') where
    -- The stream that a unit's load is to run on is the one it was.
    goal_kept :
        (i j v : ℕ)
        → i < max
        → j < max
        → (w1.store.loads (load_at units contents i v w1)).dest_rank
          ≡ (w.store.loads (load_at units contents j v w)).dest_rank
    goal_kept i j v i_lt j_lt =
        s.dests (load_at units contents i v w1)
        ∙ ap (λ l. (w.store.loads l).dest_rank)
            (load_then units contents max k lt o s i j v i_lt j_lt)

    home_first :
        (v : ℕ) → Holds units contents k v w → Holds units contents (goal_of k v (k ∷ ks) w) v w'
    home_first v h =
        let goal = (w.store.loads (load_at units contents k v w)).dest_rank in
        let inside = (o.runs_load k v lt h).inside in
        let there =
          t.goes_home goal v inside (goes units contents max k lt o s goal v inside h refl) in
        let same : goal_of goal v ks w1 ≡ goal_of k v (k ∷ ks) w = elim (Bool-cases (mem goal ks)) [
          | inl later ↦ rw (later, ==_refl k) (goal_kept goal k v inside lt)
          | inr never ↦ rw (never, ==_refl k) refl
        ] in
        subst (λ j. Holds units contents j v w') same there

    home_later :
        (i v : ℕ)
        → i < max
        → (i == k) ≡ false
        → Holds units contents i v w
        → Holds units contents (goal_of i v (k ∷ ks) w) v w'
    home_later i v i_lt other h =
        let there =
          t.goes_home i v i_lt (stays units contents max k lt o s i v i_lt (λ e. ground arith) h) in
        let same : goal_of i v ks w1 ≡ goal_of i v (k ∷ ks) w =
          rw (other, goal_kept i i v i_lt i_lt) refl in
        subst (λ j. Holds units contents j v w') same there

    Toured-then : Toured (k ∷ ks) w w'
    Toured-then = record {
      orderly = t.orderly;
      same = trans-SameScheds units contents s.same t.same;
      dests = λ l. t.dests l ∙ s.dests l;
      settles = λ j j_lt before. t.settles j j_lt (elim (Bool-cases (mem j ks)) [
        | inl later ↦ inl later
        | inr never ↦ inr (
            pass-IsSettled units contents max k lt o s j j_lt
              (elim before [ inl among ↦ inl (ground arith) | inr all ↦ inr all ]))
      ]);
      goes_home = λ i v i_lt h. elim (Bool-cases (i == k)) [
        | inl first ↦
            let e : k ≡ i = ground arith in
            subst
              (λ j. Holds units contents j v w → Holds units contents (goal_of j v (k ∷ ks) w) v w')
              e (home_first v) h
        | inr other ↦ home_later i v i_lt other h
      ];
    }

  -- What a pass of each stream leaves.
  pub record Delivered (w w' : World Runtime) : Type 0 where
    pub orderly : Orderly units contents max w'
    pub streams : w'.store.streams ≡ w.store.streams
    pub home :
        (i v : ℕ)
        → i < max
        → Holds units contents i v w
        → Holds units contents (w.store.loads (load_at units contents i v w)).dest_rank v w'
    pub running :
        (j v : ℕ)
        → j < max
        → Holds units contents j v w'
        → ((w'.store.loads (load_at units contents j v w')).curr_rank ≡ j)
          × ((w'.store.loads (load_at units contents j v w')).dest_rank ≡ j)
    pub dests : (l : ℕ) → (w'.store.loads l).dest_rank ≡ (w.store.loads l).dest_rank
    pub same_loads :
        (i j v : ℕ)
        → i < max
        → j < max
        → load_at units contents j v w' ≡ load_at units contents i v w

  module _ (queue : IsQueue units contents) (tame : IsTame units contents)
      (runs : env.stopping ≡ false) where
    tour-Toured :
        (ks : List ℕ) (w : World Runtime)
        → All (λ k. k < max) ks
        → Orderly units contents max w
        → (w' : World Runtime) × (tour ks w ≡ some w') × Toured ks w w'
    tour-Toured [] w all o = (w, refl, Toured-none w o)
    tour-Toured (k ∷ ks) w all o =
        let (p, pass, s) =
          pass_loop-Swept units contents queue tame max k env all.0 runs
            (suc (length (queue_of units contents k w))) (queue_of units contents k w) w
            (omega arith) (Orderly-Ready units contents max o k all.0) in
        let o1 = pass-Orderly units contents max k all.0 o s in
        let (w', rest, t) = tour-Toured ks p.world all.1 o1 in
        (w', rw pass rest, Toured-then k ks all.0 o s t)

    -- Where the streams are orderly and the system is not stopping: if each stream makes a pass, in
    -- whatever order, some of them more than once, every pass ends; afterwards the streams are orderly,
    -- each unit is in the pool of the stream that its load was to run on, and each load runs on the
    -- stream whose pool has its unit.
    pub tour-Delivered :
        (ks : List ℕ) (w : World Runtime)
        → All (λ k. k < max) ks
        → ((j : ℕ) → j < max → mem j ks ≡ true)
        → Orderly units contents max w
        → (w' : World Runtime) × (tour ks w ≡ some w') × Delivered w w'
    tour-Delivered ks w all every o =
        let (w', ran, t) = tour-Toured ks w all o in
        (
          w',
          ran,
          record {
            orderly = t.orderly;
            streams = t.same.streams;
            home = λ i v i_lt h.
                subst
                  (λ b.
                    Holds units contents
                      (if b then (w.store.loads (load_at units contents i v w)).dest_rank else i) v
                      w')
                  (every i i_lt) (t.goes_home i v i_lt h);
            running = λ j v j_lt h.
                ((t.orderly.runs_load j v j_lt h).here, t.settles j j_lt (inl (every j j_lt)) v h);
            dests = t.dests;
            same_loads = λ i j v i_lt j_lt.
                SameScheds-load_of units contents t.same (pool_of j w') v
                ∙ (ap (λ (st : ℕ → Stream). load_of units contents (st j).pool v w) t.same.streams
                    ∙ load_same units contents max o j i v j_lt i_lt);
          },
        )
