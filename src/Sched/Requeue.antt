-- ===== src/Sched/Requeue.antt =====
-- A load's unit that stays on its stream, in the loop of sched_run (src/sched/base.c).
use abtst.Common.{
  ℕ, suc, ◌+◌, ◌≡◌, inl, inr, refl, ap, ◌∙◌, true, false, not, ◌||◌, some, List, [], ◌∷◌, ◌++◌,
  arith, ltb, ◌==◌, length, Bool-cases,
}
use abtst.Env.{Env}
use abtst.Load.{is_migrating}
use abtst.Stream.{put_load}
use abtst.Sched.Units.{Units}
use abtst.Sched.Laws.{IsQueue, IsTame}
use abtst.Sched.Pass.{Pass, run_load, serve_unit, pass_step}
use abtst.Sched.Step.{
  SameScheds-load_of, load_of, IsUnit, SameScheds, SameRanks, Requeued, trans-SameUnits,
  IsUnit-Same,
}
use abtst.Sched.Sending.{popped, popped-SameScheds, pass_step-popped}

module _ (units : Units) (contents : ℕ → units.Runtime → List ℕ)
    (tame : IsTame units contents) where
  open units use {Runtime, unit_get_sched}

  -- What running a load, or passing it by, leaves as it was.
  record Ran (p p' : Pass Runtime) : Type 0 where
    pub counted : p'.run_subpool ≡ p.run_subpool + 1
    pub same : SameScheds units contents p.world p'.world
    pub ranks : (l : ℕ) → SameRanks units contents l p.world p'.world
    pub pools :
        (j : ℕ)
        → contents (p.world.store.streams j).pool p'.world.rt
          ≡ contents (p.world.store.streams j).pool p.world.rt

  run_load-Ran :
      (pool unit load sub_pool : ℕ) (p : Pass Runtime)
      → Ran p (run_load units pool unit load sub_pool p)
  unfolding run_load
  run_load-Ran pool unit load sub_pool p =
      let w = p.world in
      let marked = record w {
        store = put_load load (record (w.store.loads load) { used = true }) w.store;
      } in
      elim (Bool-cases
        (not (units.pool_get_size sub_pool w.rt == 0) || not (w.store.loads load).used)) [
          | inl runs ↦ rw runs record {
            counted = refl;
            same = record {
              streams = tame.streams unit pool marked;
              sub_datas = tame.sub_datas unit pool marked;
              handles = tame.same unit pool marked;
            };
            ranks = λ l. record {
              curr = tame.curr_ranks unit pool l marked ∙ ground arith;
              dest = tame.dest_ranks unit pool l marked ∙ ground arith;
            };
            pools = λ j. tame.pools unit pool j marked;
          }
          | inr rests ↦ rw rests record {
            counted = refl;
            same = record {
              streams = refl;
              sub_datas = refl;
              handles = record { scheds = λ u q. refl; datas = λ s. refl };
            };
            ranks = λ l. record { curr = refl; dest = refl };
            pools = λ j. refl;
          }
        ]

  serve_unit-stays :
      (max : ℕ) (env : Env) (k pool size unit : ℕ) (p : Pass Runtime)
      → (u : IsUnit units contents max k pool unit p.world)
      → (p.world.store.loads (load_of units contents pool unit p.world)).dest_rank ≡ k
      → env.stopping ≡ false
      → (ran : Pass Runtime) × Ran p ran
        × (serve_unit units max env k pool size unit p
            ≡ some (
              ltb ran.run_subpool size,
              record ran {
                world = record (ran.world) { rt = units.pool_push pool unit ran.world.rt };
              },
            ))
  unfolding serve_unit is_migrating
  serve_unit-stays max env k pool size unit p u goal runs =
      let load = load_of units contents pool unit p.world in
      let null : (unit_get_sched unit pool p.world.rt == 0) ≡ false = ground (arith, u.sched) in
      let on : ((p.world.store.loads load).curr_rank == (p.world.store.loads load).dest_rank)
          ≡ true =
        ground (arith, u.here) in
      (
        run_load units pool unit load u.sub_pool p,
        run_load-Ran pool unit load u.sub_pool p,
        rw (null, u.has_pool, on, runs) refl,
      )

  module _ (queue : IsQueue units contents) where
    pub pass_step-Requeued :
        (max : ℕ) (env : Env) (k unit : ℕ) (q : List ℕ) (p : Pass Runtime)
        → contents (p.world.store.streams k).pool p.world.rt ≡ unit ∷ q
        → IsUnit units contents max k (p.world.store.streams k).pool unit p.world
        → (p.world.store.loads
            (load_of units contents (p.world.store.streams k).pool unit p.world)).dest_rank
          ≡ k
        → env.stopping ≡ false
        → (p' : Pass Runtime) × (pass_step units max env k (p.world.store.streams k).pool p
            ≡ some (ltb (p.run_subpool + 1) (suc (length q)), p'))
          × (p'.run_subpool ≡ p.run_subpool + 1)
          × Requeued units contents k unit q p.world p'.world
    pass_step-Requeued max env k unit q p e u goal runs =
        let pool = (p.world.store.streams k).pool in
        let mid = popped units contents queue pool p.world in
        let same = popped-SameScheds units contents queue pool p.world in
        let first = pass_step-popped units contents queue max env k pool unit q p e u.exists in
        let u' = IsUnit-Same units contents same (record { curr = refl; dest = refl }) u in
        let goal' : (mid.store.loads (load_of units contents pool unit mid)).dest_rank ≡ k =
          rw (SameScheds-load_of units contents same pool unit) goal in
        let (ran, v, serves) =
          serve_unit-stays max env k pool (suc (length q)) unit (record p { world = mid }) u' goal'
            runs in
        let out = record ran {
          world = record (ran.world) { rt = units.pool_push pool unit ran.world.rt };
        } in
        (
          out,
          first ∙ serves ∙ ap (λ c. some (ltb c (suc (length q)), out)) v.counted,
          v.counted,
          record {
            same = record {
              streams = v.same.streams;
              sub_datas = v.same.sub_datas;
              handles =
                  trans-SameUnits (trans-SameUnits (queue.pop_same pool p.world.rt) v.same.handles)
                    (queue.push_same pool unit ran.world.rt);
            };
            back =
                queue.push pool unit ran.world.rt
                ∙ ap (λ c. c ++ unit ∷ []) (v.pools k ∙ queue.pop_rest pool unit q p.world.rt e);
            others = λ j off.
                queue.push_others pool (p.world.store.streams j).pool unit ran.world.rt off
                ∙ (v.pools j ∙ queue.pop_others pool (p.world.store.streams j).pool p.world.rt off);
            ranks = λ l. record { curr = (v.ranks l).curr; dest = (v.ranks l).dest };
          },
        )
