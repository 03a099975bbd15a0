-- ===== src/Sched/Sending.antt =====
-- A load's unit that is sent to another stream, in the loop of sched_run (src/sched/base.c).
use abtst.Common.{
  ℕ, suc, ◌+◌, ◌-◌, ◌<◌, ◌≡◌, ◌≢◌, refl, sym, subst, ap, ◌∙◌, true, false, some, List, [], ◌∷◌,
  ◌++◌, arith, leb, ◌==◌, length, lt→ltb,
}
use abtst.Env.{Env}
use abtst.Load.{update_curr_rank, is_migrating}
use abtst.Stream.{Store, put_load}
use abtst.Sched.Units.{World, Units}
use abtst.Sched.Laws.{IsQueue}
use abtst.Sched.Pass.{Pass, send_away, serve_unit, pass_step}
use abtst.Sched.Step.{
  trans-SameUnits, load_of, IsUnit, SameScheds, Sent, SameScheds-load_of, IsUnit-Same,
}

moved-put :
    (l to : ℕ) (s : Store)
    → ((put_load l (update_curr_rank (s.loads l) to) s).loads l).curr_rank ≡ to
unfolding update_curr_rank
moved-put l to s = ground arith

kept-put :
    (l to : ℕ) (s : Store)
    → ((put_load l (update_curr_rank (s.loads l) to) s).loads l).dest_rank ≡ (s.loads l).dest_rank
unfolding update_curr_rank
kept-put l to s = ground arith

module _ (units : Units) (contents : ℕ → units.Runtime → List ℕ) where
  open units use {Runtime, unit_get_sched}

  -- The world after a load's unit was sent to the stream `to`.
  abbrev sent : (to load unit : ℕ) → World Runtime → World Runtime
  sent to load unit w = record w {
    store = put_load load (update_curr_rank (w.store.loads load) to) w.store;
    rt = units.pool_push (w.store.streams to).pool unit w.rt;
  }

  send_away-some :
      (max k load unit : ℕ) (w : World Runtime)
      → (w.store.loads load).curr_rank ≡ k
      → (w.store.loads load).dest_rank < max
      → send_away units max k load unit w ≡ some (sent (w.store.loads load).dest_rank load unit w)
  unfolding send_away
  send_away-some max k load unit w here inside =
      let to = (w.store.loads load).dest_rank in
      let left : leb k (k + to) ≡ true = ground arith in
      let index : k + to - k ≡ to = omega arith in rw (here, left, index, lt→ltb to max inside) refl

  serve_unit-sent :
      (max : ℕ) (env : Env) (k pool size unit : ℕ) (p : Pass Runtime)
      → IsUnit units contents max k pool unit p.world
      → (p.world.store.loads (load_of units contents pool unit p.world)).dest_rank ≢ k
      → serve_unit units max env k pool size unit p
        ≡ some (
          true,
          record p {
            world =
                sent
                  (p.world.store.loads (load_of units contents pool unit p.world)).dest_rank
                  (load_of units contents pool unit p.world)
                  unit
                  p.world;
          },
        )
  unfolding serve_unit is_migrating
  serve_unit-sent max env k pool size unit p u away =
      let load = load_of units contents pool unit p.world in
      let null : (unit_get_sched unit pool p.world.rt == 0) ≡ false = ground (arith, u.sched) in
      let off : ((p.world.store.loads load).curr_rank == (p.world.store.loads load).dest_rank)
          ≡ false =
        ground (arith, u.here) in
      let goes = send_away-some max k load unit p.world u.here u.inside in
      rw (null, u.has_pool, off) (rw goes refl)

  module _ (queue : IsQueue units contents) where
    -- Taking a unit out.
    abbrev pub popped : ℕ → World Runtime → World Runtime
    popped pool w = record w { rt = (units.pool_pop pool w.rt).1 }

    pub popped-SameScheds :
        (pool : ℕ) (w : World Runtime) → SameScheds units contents w (popped pool w)
    popped-SameScheds pool w = record {
      streams = refl;
      sub_datas = refl;
      handles = queue.pop_same pool w.rt;
    }

    pub pass_step-popped :
        (max : ℕ) (env : Env) (k pool unit : ℕ) (q : List ℕ) (p : Pass Runtime)
        → contents pool p.world.rt ≡ unit ∷ q
        → unit ≢ 0
        → pass_step units max env k pool p
          ≡ serve_unit units max env k pool
              (suc (length q))
              unit
              (record p { world = popped pool p.world })
    unfolding pass_step
    pass_step-popped max env k pool unit q p e ne =
        let size : units.pool_get_size pool p.world.rt ≡ suc (length q) =
          queue.size pool p.world.rt ∙ ap length e in
        let null : (unit == 0) ≡ false = ground arith in
        rw (size, queue.pop_unit pool unit q p.world.rt e, null) refl

    pub pass_step-Sent :
        (max : ℕ) (env : Env) (k unit load to : ℕ) (q : List ℕ) (p : Pass Runtime)
        → contents (p.world.store.streams k).pool p.world.rt ≡ unit ∷ q
        → IsUnit units contents max k (p.world.store.streams k).pool unit p.world
        → load_of units contents (p.world.store.streams k).pool unit p.world ≡ load
        → (p.world.store.loads load).dest_rank ≡ to
        → to ≢ k
        → (p.world.store.streams to).pool ≢ (p.world.store.streams k).pool
        → (w : World Runtime) × (pass_step units max env k (p.world.store.streams k).pool p
            ≡ some (true, record p { world = w }))
          × Sent units contents k to unit load q p.world w
    pass_step-Sent max env k unit load to q p e u is_load goal away apart =
        let pool = (p.world.store.streams k).pool in
        let mid = popped pool p.world in
        let same = popped-SameScheds pool p.world in
        let first = pass_step-popped max env k pool unit q p e u.exists in
        let u' = IsUnit-Same units contents same (record { curr = refl; dest = refl }) u in
        let is_load' : load_of units contents pool unit mid ≡ load =
          SameScheds-load_of units contents same pool unit ∙ is_load in
        let goal' : (mid.store.loads (load_of units contents pool unit mid)).dest_rank ≡ to =
          rw is_load' goal in
        let runs =
          serve_unit-sent max env k pool (suc (length q)) unit (record p { world = mid }) u'
            (λ bad. away (sym goal' ∙ bad)) in
        let runs' : serve_unit units max env k pool (suc (length q)) unit (record p { world = mid })
            ≡ some (true, record p { world = sent to load unit mid }) =
          subst
            (λ l.
              serve_unit units max env k pool (suc (length q)) unit (record p { world = mid })
              ≡ some (true, record p { world = sent (mid.store.loads l).dest_rank l unit mid }))
            is_load' runs
          ∙ rw goal refl in
        (
          sent to load unit mid,
          first ∙ runs',
          record {
            same = record {
              streams = refl;
              sub_datas = refl;
              handles =
                  trans-SameUnits (queue.pop_same pool p.world.rt)
                    (queue.push_same (mid.store.streams to).pool unit mid.rt);
            };
            gone =
                queue.push_others (mid.store.streams to).pool pool unit mid.rt (λ b. apart (sym b))
                ∙ queue.pop_rest pool unit q p.world.rt e;
            arrived =
                queue.push (mid.store.streams to).pool unit mid.rt
                ∙ ap (λ c. c ++ unit ∷ [])
                    (queue.pop_others pool (mid.store.streams to).pool p.world.rt apart);
            others = λ j off k_off.
                queue.push_others (mid.store.streams to).pool (p.world.store.streams j).pool unit
                  mid.rt k_off
                ∙ queue.pop_others pool (p.world.store.streams j).pool p.world.rt off;
            moved = moved-put load to p.world.store;
            kept = kept-put load to p.world.store ∙ goal;
            ranks = λ l ne. ground arith;
          },
        )
