-- ===== src/Sched/Relocated.antt =====
-- The schedulers (src/sched/base.c) where the rebalancer moved loads (src/stream/stream.c).
use abtst.Common.{ℕ, ◌<◌, ◌≡◌, sym, subst, ap, ◌∙◌, true, List, mem}
use abtst.Env.{Env}
use abtst.Load.{Load}
use abtst.Stream.{Stream, Store}
use abtst.Stream.Placed.{IsPlaced, IsQueued}
use abtst.Stream.Rehoused.{Rehoused}
use abtst.Sched.Units.{World, Units}
use abtst.Sched.Data.{sub_sched_get_load, sub_sched_get_pool}
use abtst.Sched.Orderly.{pool_of, Holds, load_at, Orderly}
use abtst.Sched.Tour.{Delivered}

module _ (units : Units) (contents : ℕ → units.Runtime → List ℕ) (max : ℕ) where
  open units use {Runtime, unit_get_sched}

  -- The pools of the streams hold the units of the loads that are queued, each on some stream.
  pub record Carried (w : World Runtime) : Type 0 where
    pub queued :
        (i u : ℕ)
        → i < max
        → Holds units contents i u w
        → IsQueued (load_at units contents i u w) w.store
    pub has_unit :
        (l : ℕ)
        → IsQueued l w.store
        → (i : ℕ) × (u : ℕ) × (i < max)
          × Holds units contents i u w
          × (load_at units contents i u w ≡ l)

  -- The world `w` with other streams and loads.
  abbrev pub relocated : World Runtime → Store → World Runtime
  relocated w t = record w { store = t }

  module _ (w : World Runtime) (t : Store) (v : Rehoused w.store t) where
    pool_kept : (j : ℕ) → pool_of j (relocated w t) ≡ pool_of j w
    pool_kept j = ap (λ (st : Stream). st.pool) (v.frames j)

    load_kept :
        (j u : ℕ) → load_at units contents j u (relocated w t) ≡ load_at units contents j u w
    unfolding sub_sched_get_load
    load_kept j u =
        ap (λ pool. sub_sched_get_load units (unit_get_sched u pool w.rt) w) (pool_kept j)

    sub_pool_kept :
        (j u : ℕ)
        → sub_sched_get_pool units
            (unit_get_sched u (pool_of j (relocated w t)) w.rt)
            (relocated w t)
          ≡ sub_sched_get_pool units (unit_get_sched u (pool_of j w) w.rt) w
    unfolding sub_sched_get_pool
    sub_pool_kept j u =
        ap (λ pool. sub_sched_get_pool units (unit_get_sched u pool w.rt) w) (pool_kept j)

    holds_back : (j u : ℕ) → Holds units contents j u (relocated w t) → Holds units contents j u w
    holds_back j u h = subst (λ pool. mem u (contents pool w.rt) ≡ true) (pool_kept j) h

    pub relocated-Orderly :
        IsPlaced t
        → ((j l : ℕ) → mem l (t.streams j).load_q ≡ true → j < max)
        → ((j : ℕ) → j < max → (w.store.streams j).rank ≡ j)
        → Carried w
        → Orderly units contents max w
        → Orderly units contents max (relocated w t)
    relocated-Orderly placed inside ranks carried o = record {
      awake = λ j j_lt. ap (λ (st : Stream). st.blocking) (v.frames j) ∙ o.awake j j_lt;
      apart = λ i j i_lt j_lt e. o.apart i j i_lt j_lt (sym (pool_kept i) ∙ (e ∙ pool_kept j));
      runs_load = λ j u j_lt h.
          let unit = o.runs_load j u j_lt (holds_back j u h) in
          let l = load_at units contents j u w in
          let (k, q) = v.there l (carried.queued j u j_lt (holds_back j u h)) in
          let k_lt = inside k l q in
          let goal : (t.loads l).dest_rank ≡ k =
            placed.home k l q ∙ (ap (λ (st : Stream). st.rank) (v.frames k) ∙ ranks k k_lt) in
          record {
            exists = unit.exists;
            sched = rw (pool_kept j) unit.sched;
            sub_pool = unit.sub_pool;
            has_pool = sub_pool_kept j u ∙ unit.has_pool;
            here = rw (load_kept j u) (ap (λ (x : Load). x.curr_rank) (v.cargos l) ∙ unit.here);
            inside = rw (load_kept j u, goal) k_lt;
          };
      once = λ j u j_lt. rw (pool_kept j) (o.once j u j_lt);
      own_load = λ j a b j_lt ha hb e.
          o.own_load j a b j_lt (holds_back j a ha) (holds_back j b hb)
            (sym (load_kept j a) ∙ (e ∙ load_kept j b));
      one_sched = λ i j u i_lt j_lt. rw (pool_kept i, pool_kept j) (o.one_sched i j u i_lt j_lt);
    }

    -- A load that is queued on a stream runs there once each stream made a pass.
    pub runs_where_queued :
        IsPlaced t
        → ((j l : ℕ) → mem l (t.streams j).load_q ≡ true → j < max)
        → ((j : ℕ) → j < max → (w.store.streams j).rank ≡ j)
        → Carried w
        → (env : Env) (w' : World Runtime) → Delivered units contents max env (relocated w t) w'
        → (j l : ℕ) → mem l (t.streams j).load_q ≡ true
        → (u : ℕ) × Holds units contents j u w'
          × (load_at units contents j u w' ≡ l)
          × ((w'.store.loads l).curr_rank ≡ j)
    runs_where_queued placed inside ranks carried env w' d j l q =
        let j_lt = inside j l q in
        let goal : (t.loads l).dest_rank ≡ j =
          placed.home j l q ∙ (ap (λ (st : Stream). st.rank) (v.frames j) ∙ ranks j j_lt) in
        let (i, u, i_lt, h, e) = carried.has_unit l (v.back l (j, q)) in
        let e' : load_at units contents i u (relocated w t) ≡ l = load_kept i u ∙ e in
        let there = d.home i u i_lt (rw (pool_kept i) h) in
        let here : Holds units contents j u w' =
          subst (λ x. Holds units contents x u w') (ap (λ x. (t.loads x).dest_rank) e' ∙ goal)
            there in
        let same = d.same_loads i j u i_lt j_lt ∙ e' in
        (
          u,
          here,
          same,
          ap (λ x. (w'.store.loads x).curr_rank) (sym same) ∙ (d.running j u j_lt here).0,
        )
