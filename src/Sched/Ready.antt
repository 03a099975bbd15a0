-- ===== src/Sched/Ready.antt =====
-- The state in which a pass of sched_run (src/sched/base.c) is between two units.
use abtst.Common.{
  ℕ, ◌+◌, ◌<◌, ◌≡◌, ◌≢◌, sym, subst, ap, ◌∙◌, true, false, List, [], ◌∷◌, ◌++◌, arith, length,
  length-append, mem, All, Distinct,
}
use mathlib.Core.List.{append_assoc}
use abtst.Common.Store.{Array}
use abtst.Load.{Load}
use abtst.Stream.{Stream}
use abtst.Sched.Units.{World, Units}
use abtst.Sched.Pass.{Pass}
use abtst.Sched.Step.{
  load_of, IsUnit, SameScheds, SameRanks, Requeued, Sent, IsUnit-Same, SameScheds-load_of,
}
use abtst.Sched.Swept.{All-map, loads_of, Kept, IsUnit-Kept, loads_of-same, mem-loads_of}

module _ (units : Units) (contents : ℕ → units.Runtime → List ℕ) (max k : ℕ) where
  open units use {Runtime}

  -- A unit of the stream whose load stays there.
  pub record Settled (pool unit : ℕ) (w : World Runtime) : Type 0 where
    pub is_unit : IsUnit units contents max k pool unit w
    pub stays : (w.store.loads (load_of units contents pool unit w)).dest_rank ≡ k

  -- The state of a pass that has the units `a` before it, and `b` behind them.
  pub record Ready (st : Array Stream) (a b : List ℕ) (p : Pass Runtime) : Type 0 where
    pub awake : (st k).blocking ≡ false
    pub apart : (i j : ℕ) → i < max → j < max → (st i).pool ≡ (st j).pool → i ≡ j
    pub shown : contents (st k).pool p.world.rt ≡ a ++ b
    pub counted : p.run_subpool ≡ length b
    pub ours : All (λ u. IsUnit units contents max k (st k).pool u p.world) a
    pub distinct : Distinct (loads_of units contents (st k).pool a p.world)
    pub settled : All (λ u. Settled (st k).pool u p.world) b

  pub Settled-Same :
      {pool u : ℕ} {w w' : World Runtime}
      → SameScheds units contents w w'
      → SameRanks units contents (load_of units contents pool u w) w w'
      → Settled pool u w
      → Settled pool u w'
  Settled-Same {pool} {u} {w} {w'} same ranks s = record {
    is_unit = IsUnit-Same units contents same ranks s.is_unit;
    stays = rw (SameScheds-load_of units contents same pool u, ranks.dest) s.stays;
  }

  pub Ready-Sent :
      {u load to : ℕ} {a b : List ℕ} {p : Pass Runtime} {w : World Runtime}
      → Ready p.world.store.streams (u ∷ a) b p
      → load_of units contents (p.world.store.streams k).pool u p.world ≡ load
      → (p.world.store.loads load).dest_rank ≡ to
      → to ≢ k
      → Sent units contents k to u load (a ++ b) p.world w
      → Ready w.store.streams a b (record p { world = w })
  Ready-Sent {u} {load} {to} {a} {b} {p} {w} r is_load goal away s =
      let pool = (p.world.store.streams k).pool in
      let ranks : (l : ℕ) → l ≢ load → SameRanks units contents l p.world w = λ l ne. record {
        curr = ap (λ (x : Load). x.curr_rank) (s.ranks l ne);
        dest = ap (λ (x : Load). x.dest_rank) (s.ranks l ne);
      } in
      let out : mem load (loads_of units contents pool a p.world) ≡ false =
        subst (λ l. mem l (loads_of units contents pool a p.world) ≡ false) is_load r.distinct.0 in
      let kept : Kept units contents pool a p.world w = record {
        same = s.same;
        ranks = λ x m. ranks (load_of units contents pool x p.world) (λ e. absurd (
            let bad =
              subst (λ l. mem l (loads_of units contents pool a p.world) ≡ true) e
                (mem-loads_of units contents pool x a p.world m) in
            ground arith));
      } in
      subst (λ (st : Array Stream). Ready st a b (record p { world = w })) (sym s.same.streams)
        record {
          awake = r.awake;
          apart = r.apart;
          shown = s.gone;
          counted = r.counted;
          ours = IsUnit-Kept units contents max k pool a p.world w kept r.ours.1;
          distinct = rw (loads_of-same units contents pool a s.same) r.distinct.1;
          settled =
              All-map {P = λ x. Settled pool x p.world} {Q = λ x. Settled pool x w} b
                (λ x m h.
                  Settled-Same s.same
                    (ranks (load_of units contents pool x p.world) (λ e.
                      away (
                        sym goal
                        ∙ (ap (λ l. (p.world.store.loads l).dest_rank) (sym e) ∙ h.stays))))
                    h)
                r.settled;
        }

  All-append_one : (P : ℕ → Type 0) (xs : List ℕ) (x : ℕ) → All P xs → P x → All P (xs ++ x ∷ [])
  All-append_one P [] x all h = (h, tt)
  All-append_one P (y ∷ xs) x all h = (all.0, All-append_one P xs x all.1 h)

  pub Ready-Requeued :
      {u : ℕ} {a b : List ℕ} {p p' : Pass Runtime}
      → Ready p.world.store.streams (u ∷ a) b p
      → (p.world.store.loads
          (load_of units contents (p.world.store.streams k).pool u p.world)).dest_rank
        ≡ k
      → p'.run_subpool ≡ p.run_subpool + 1
      → Requeued units contents k u (a ++ b) p.world p'.world
      → Ready p'.world.store.streams a (b ++ u ∷ []) p'
  Ready-Requeued {u} {a} {b} {p} {p'} r goal more s =
      let pool = (p.world.store.streams k).pool in
      let w = p'.world in
      let kept : Kept units contents pool a p.world w = record {
        same = s.same;
        ranks = λ x m. s.ranks (load_of units contents pool x p.world);
      } in
      let now : (x : ℕ) → Settled pool x p.world → Settled pool x w =
        λ x h. Settled-Same s.same (s.ranks (load_of units contents pool x p.world)) h in
      subst (λ (st : Array Stream). Ready st a (b ++ u ∷ []) p') (sym s.same.streams)
        record {
          awake = r.awake;
          apart = r.apart;
          shown = s.back ∙ append_assoc a b (u ∷ []);
          counted = omega (arith, more, r.counted, length-append b (u ∷ []));
          ours = IsUnit-Kept units contents max k pool a p.world w kept r.ours.1;
          distinct = rw (loads_of-same units contents pool a s.same) r.distinct.1;
          settled =
              All-append_one (λ x. Settled pool x w) b u
                (All-map {P = λ x. Settled pool x p.world} {Q = λ x. Settled pool x w} b
                  (λ x m h. now x h) r.settled)
                (now u (record { is_unit = r.ours.0; stays = goal }));
        }
