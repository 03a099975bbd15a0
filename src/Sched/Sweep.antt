-- ===== src/Sched/Sweep.antt =====
-- That a pass of sched_run (src/sched/base.c) ends, and what it leaves.
use abtst.Common.{
  ℕ, zero, suc, ◌+◌, ◌<◌, ◌≡◌, ◌≢◌, inl, inr, refl, subst, ap, ◌∙◌, true, false, some, List, [],
  ◌∷◌, ◌++◌, arith, ltb, ◌==◌, length, length-append, Bool-cases, count, count-append_one, mem,
}
use abtst.Common.Store.{Array}
use abtst.Env.{Env}
use abtst.Stream.{Stream}
use abtst.Sched.Units.{World, Units}
use abtst.Sched.Laws.{IsQueue, IsTame}
use abtst.Sched.Pass.{Pass, pass_step, pass_loop}
use abtst.Sched.Step.{load_of, refl-SameScheds, Requeued, Sent}
use abtst.Sched.Sending.{pass_step-Sent}
use abtst.Sched.Requeue.{pass_step-Requeued}
use abtst.Sched.Swept.{loads_of, Swept}
use abtst.Sched.Steps.{Swept-last, Swept-Sent, Swept-Requeued}
use abtst.Sched.Ready.{Ready, Ready-Sent, Ready-Requeued}

module _ (units : Units) (contents : ℕ → units.Runtime → List ℕ) (queue : IsQueue units contents)
    (tame : IsTame units contents) (max k : ℕ) (env : Env) (lt : k < max)
    (runs : env.stopping ≡ false) where
  open units use {Runtime}

  abbrev Ends : ℕ → List ℕ → List ℕ → Pass Runtime → Type 0
  Ends fuel a b p =
      (p' : Pass Runtime) × (pass_loop units fuel max env k (p.world.store.streams k).pool p
        ≡ some p')
      × Swept units contents max k p.world.store.streams a b p.world p'.world

  pass_step-empty :
      (p : Pass Runtime)
      → contents (p.world.store.streams k).pool p.world.rt ≡ []
      → pass_step units max env k (p.world.store.streams k).pool p ≡ some (false, p)
  unfolding pass_step
  pass_step-empty p e = rw (queue.pop_none (p.world.store.streams k).pool p.world.rt e) refl

  -- No unit is left to pass.
  Ends-empty :
      (fuel : ℕ) (p : Pass Runtime)
      → Ready units contents max k p.world.store.streams [] [] p
      → Ends (suc fuel) [] [] p
  unfolding pass_loop
  Ends-empty fuel p r = (
    p,
    rw (r.awake, pass_step-empty p r.shown) refl,
    Swept-last units contents max k [] p.world p.world (refl-SameScheds units contents p.world)
        (λ v. ap (count v) r.shown) (λ j j_lt ne. refl) (λ l. record { curr = refl; dest = refl }),
  )

  Requeued-last :
      (c : ℕ) (b : List ℕ) (w w' : World Runtime)
      → ((i j : ℕ)
          → i < max
          → j < max
          → (w.store.streams i).pool ≡ (w.store.streams j).pool
          → i ≡ j)
      → Requeued units contents k c b w w'
      → Swept units contents max k w.store.streams [] (c ∷ b) w w'
  Requeued-last c b w w' apart s =
      Swept-last units contents max k (c ∷ b) w w' s.same
        (λ v. ap (count v) s.back ∙ count-append_one c v b)
        (λ j j_lt ne. s.others j (λ e. ne (apart j k j_lt lt e))) s.ranks

  -- The last unit was sent away, so that the first that stays is served again.
  Ends-again :
      (fuel c : ℕ) (b : List ℕ) (p : Pass Runtime)
      → Ready units contents max k p.world.store.streams [] (c ∷ b) p
      → Ends (suc fuel) [] (c ∷ b) p
  unfolding pass_loop
  Ends-again fuel c b p r =
      let (p', step, more, s) =
        pass_step-Requeued units contents tame queue max env k c b p r.shown r.settled.0.is_unit
          r.settled.0.stays runs in
      let full : ltb (p.run_subpool + 1) (suc (length b)) ≡ false = ground (arith, r.counted) in
      (p', rw (r.awake, step, full) refl, Requeued-last c b p.world p'.world r.apart s)

  Ends-Sent :
      (fuel u : ℕ) (a b : List ℕ) (p : Pass Runtime) (w : World Runtime) (load to : ℕ)
      → Ready units contents max k p.world.store.streams (u ∷ a) b p
      → load_of units contents (p.world.store.streams k).pool u p.world ≡ load
      → (p.world.store.loads load).dest_rank ≡ to
      → to < max
      → to ≢ k
      → pass_step units max env k (p.world.store.streams k).pool p
        ≡ some (true, record p { world = w })
      → Sent units contents k to u load (a ++ b) p.world w
      → Ends fuel a b (record p { world = w })
      → Ends (suc fuel) (u ∷ a) b p
  unfolding pass_loop
  Ends-Sent fuel u a b p w load to r is_load goal inside away step s (p', rest, v) =
      let rest' =
        subst
          (λ (st : Array Stream).
            pass_loop units fuel max env k (st k).pool (record p { world = w }) ≡ some p')
          s.same.streams rest in
      let v' =
        subst (λ (st : Array Stream). Swept units contents max k st a b w p'.world) s.same.streams
          v in
      let out =
        subst
          (λ l. mem l (loads_of units contents (p.world.store.streams k).pool a p.world) ≡ false)
          is_load r.distinct.0 in
      (
        p',
        rw (r.awake, step) rest',
        Swept-Sent units contents max k p.world.store.streams r.apart lt u load a b p.world w
            p'.world refl is_load out to inside away goal s v',
      )

  Swept-Requeued_first :
      {u : ℕ} {a b : List ℕ} {p : Pass Runtime} (w1 : World Runtime) {w' : World Runtime}
      → Ready units contents max k p.world.store.streams (u ∷ a) b p
      → (p.world.store.loads
          (load_of units contents (p.world.store.streams k).pool u p.world)).dest_rank
        ≡ k
      → Requeued units contents k u (a ++ b) p.world w1
      → Swept units contents max k w1.store.streams a (b ++ u ∷ []) w1 w'
      → Swept units contents max k p.world.store.streams (u ∷ a) b p.world w'
  Swept-Requeued_first {u} {a} {b} {p} w1 {w'} r goal s v =
      let v' =
        subst (λ (st : Array Stream). Swept units contents max k st a (b ++ u ∷ []) w1 w')
          s.same.streams v in
      Swept-Requeued units contents max k p.world.store.streams r.apart lt u
        (load_of units contents (p.world.store.streams k).pool u p.world) a b p.world w1 w' refl
        refl r.distinct.0 goal r.ours.0.here s v'

  -- The last unit stays, or there are others.
  Ends-Requeued :
      (fuel u : ℕ) (a b : List ℕ) (p p1 : Pass Runtime)
      → Ready units contents max k p.world.store.streams (u ∷ a) b p
      → (p.world.store.loads
          (load_of units contents (p.world.store.streams k).pool u p.world)).dest_rank
        ≡ k
      → pass_step units max env k (p.world.store.streams k).pool p
        ≡ some (ltb (p.run_subpool + 1) (suc (length (a ++ b))), p1)
      → Requeued units contents k u (a ++ b) p.world p1.world
      → Ready units contents max k p1.world.store.streams a (b ++ u ∷ []) p1
      → Ends fuel a (b ++ u ∷ []) p1
      → Ends (suc fuel) (u ∷ a) b p
  unfolding pass_loop
  Ends-Requeued fuel u [] b p p1 r goal step s r1 rest =
      let full : ltb (p.run_subpool + 1) (suc (length b)) ≡ false = ground (arith, r.counted) in
      let last =
        Swept-last units contents max k (b ++ u ∷ []) p1.world p1.world
          (refl-SameScheds units contents p1.world) (λ v. ap (count v) r1.shown) (λ j j_lt ne. refl)
          (λ l. record { curr = refl; dest = refl }) in
      (p1, rw (r.awake, step, full) refl, Swept-Requeued_first p1.world r goal s last)
  Ends-Requeued fuel u (x ∷ a) b p p1 r goal step s r1 (p', rest, v) =
      let more : ltb (p.run_subpool + 1) (suc (length ((x ∷ a) ++ b))) ≡ true =
        ground (arith, r.counted, length-append a b) in
      let rest' =
        subst (λ (st : Array Stream). pass_loop units fuel max env k (st k).pool p1 ≡ some p')
          s.same.streams rest in
      (p', rw (r.awake, step, more) rest', Swept-Requeued_first p1.world r goal s v)

  pass_loop-Ends :
      (fuel : ℕ) (a b : List ℕ) (p : Pass Runtime)
      → length a < fuel
      → Ready units contents max k p.world.store.streams a b p
      → Ends fuel a b p
  pass_loop-Ends zero a b p h r = absurd (omega arith)
  pass_loop-Ends (suc fuel) [] [] p h r = Ends-empty fuel p r
  pass_loop-Ends (suc fuel) [] (c ∷ b) p h r = Ends-again fuel c b p r
  pass_loop-Ends (suc fuel) (u ∷ a) b p h r =
      let load = load_of units contents (p.world.store.streams k).pool u p.world in
      elim (Bool-cases ((p.world.store.loads load).dest_rank == k)) [
        | inl here ↦
            let goal : (p.world.store.loads load).dest_rank ≡ k = ground arith in
            let (p1, step, more, s) =
              pass_step-Requeued units contents tame queue max env k u (a ++ b) p r.shown r.ours.0
                goal runs in
            let r1 : Ready units contents max k p1.world.store.streams a (b ++ u ∷ []) p1 =
              Ready-Requeued units contents max k {p' = p1} r goal more s in
            Ends-Requeued fuel u a b p p1 r goal step s r1
              (pass_loop-Ends fuel a (b ++ u ∷ []) p1 (omega arith) r1)
        | inr there ↦
            let away : (p.world.store.loads load).dest_rank ≢ k = ground arith in
            let to = (p.world.store.loads load).dest_rank in
            let (w1, step, s) =
              pass_step-Sent units contents queue max env k u load to (a ++ b) p r.shown r.ours.0
                refl refl away (λ e. away (r.apart to k r.ours.0.inside lt e)) in
            Ends-Sent fuel u a b p w1 load to r refl refl r.ours.0.inside away step s (
              pass_loop-Ends fuel a b (record p { world = w1 }) (omega arith)
                (Ready-Sent units contents max k r refl refl away s))
      ]

  -- A pass ends within one round more than the pool has units, where the system is not stopping, the
  -- stream is not blocking, no two streams have one pool, each unit of the pool runs a load of this
  -- stream, and no two the same: afterwards each load runs on the stream that it is bound for, and the
  -- pool of every stream has the units that are bound for it and, but for this stream, those it had.
  pub pass_loop-Swept :
      (fuel : ℕ) (q : List ℕ) (w : World Runtime)
      → length q < fuel
      → Ready units contents max k w.store.streams q []
          (record { run_cnt = 0; run_subpool = 0; world = w })
      → (p : Pass Runtime) × (pass_loop units fuel max env k
            (w.store.streams k).pool
            (record { run_cnt = 0; run_subpool = 0; world = w })
          ≡ some p)
        × Swept units contents max k w.store.streams q [] w p.world
  pass_loop-Swept fuel q w h r =
      pass_loop-Ends fuel q [] (record { run_cnt = 0; run_subpool = 0; world = w }) h r
