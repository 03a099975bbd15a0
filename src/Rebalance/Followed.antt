-- ===== src/Rebalance/Followed.antt =====
-- The schedulers of the streams (src/sched/base.c) after a pass of the rebalancer
-- (src/rebalance/rebalance.c) at its default level.
use abtst.Common.{
  mem-range, ℕ, ◌<◌, ◌≤◌, ◌≡◌, inl, inr, subst, true, false, some, List, [], ◌∷◌, arith, All, count,
  mem, range, mem-range_iff, Bool-cases, ◌==◌,
}
use abtst.Stream.{Store, SortParam}
use abtst.Stream.Shift.{queued, weigh}
use abtst.Stream.Placed.{IsPlaced, IsQueued, mem_one, count_not_mem}
use abtst.Stream.Rehoused.{Steps-Rehoused}
use abtst.Sched.Units.{World, Units}
use abtst.Sched.Laws.{IsQueue, IsTame}
use abtst.Sched.Orderly.{Holds, load_at, Orderly}
use abtst.Sched.Tour.{tour, tour-Delivered}
use abtst.Sched.Relocated.{Carried, relocated, relocated-Orderly, runs_where_queued}
use abtst.Global.{Global}
use abtst.Rebalance.Sorting.{IsSort}
use abtst.Rebalance.Ready.{IsReady, Contained, cores-IsClosed}
use abtst.Rebalance.InPartition.{reb_in_partitions}
use abtst.Rebalance.InPartition.Containment.{reb_in_partitions-Contained}
use abtst.Rebalance.Inside.{reb_in_partitions-Moves}

-- A load that is queued on a set of streams, and one that is not.
queued_some :
    (l j : ℕ) (is : List ℕ) (s : Store)
    → mem j is ≡ true
    → mem l (s.streams j).load_q ≡ true
    → 1 ≤ queued l is s
unfolding weigh
queued_some l j [] s m h = absurd (ground arith)
queued_some l j (i ∷ is) s m h = elim (Bool-cases (j == i)) [
  | inl here ↦
      let e : j ≡ i = ground arith in
      let n = subst (λ x. 1 ≤ count l (s.streams x).load_q) e (mem_one l (s.streams j).load_q h) in
      omega (arith, n)
  | inr there ↦ omega (arith, queued_some l j is s (ground arith) h)
]

queued_where :
    (l : ℕ) (is : List ℕ) (s : Store)
    → 1 ≤ queued l is s
    → (j : ℕ) × (mem j is ≡ true) × (mem l (s.streams j).load_q ≡ true)
unfolding weigh
queued_where l [] s h = absurd (omega arith)
queued_where l (i ∷ is) s h = elim (Bool-cases (mem l (s.streams i).load_q)) [
  | inl here ↦ (i, ground arith, here)
  | inr there ↦
      let nothing = count_not_mem l (s.streams i).load_q there in
      let (j, m, q) = queued_where l is s (omega arith) in (j, ground (arith, m), q)
]

-- Level 1 queues the loads of the machine's cores on those cores.
stay_inside :
    (g g' : Global)
    → IsReady g
    → Contained g g'
    → IsPlaced g'.store
    → ((l : ℕ) → IsQueued l g'.store → IsQueued l g.store)
    → ((j l : ℕ) → mem l (g.store.streams j).load_q ≡ true → j < g.env.nr_cores)
    → (j l : ℕ) → mem l (g'.store.streams j).load_q ≡ true
    → j < g.env.nr_cores
stay_inside g g' r c placed back inside j l q =
    let cores = range 0 g.env.nr_cores in
    let (i, q') = back l (j, q) in
    let i_lt = inside i l q' in
    let before =
      queued_some l i cores g.store (mem-range i g.env.nr_cores 0 (omega arith) (omega arith)) q' in
    let same = c.shift.kept l cores (cores-IsClosed g r) in
    let (k, m, there) = queued_where l cores g'.store (omega (arith, before, same)) in
    let e = placed.apart j k l q there in
    let (low, high) = mem-range_iff k g.env.nr_cores 0 m in omega (arith, e, high)

module _ (units : Units) (contents : ℕ → units.Runtime → List ℕ) where
  -- What level 1 and a pass of each stream leave: the loads that were queued are, and each runs on the
  -- stream that it is queued on, whose pool has its unit.
  pub record Followed (g g' : Global) (w' : World units.Runtime) : Type 0 where
    pub placed : IsPlaced g'.store
    pub there : (l : ℕ) → IsQueued l g.store → IsQueued l g'.store
    pub back : (l : ℕ) → IsQueued l g'.store → IsQueued l g.store
    pub running :
        (j l : ℕ)
        → mem l (g'.store.streams j).load_q ≡ true
        → (u : ℕ) × Holds units contents j u w'
          × (load_at units contents j u w' ≡ l)
          × ((w'.store.loads l).curr_rank ≡ j)

module _ (qsort : List SortParam → List SortParam) (sorts : IsSort qsort) (units : Units)
    (contents : ℕ → units.Runtime → List ℕ) (queue : IsQueue units contents)
    (tame : IsTame units contents) where
  -- A ready state of the rebalancer and an orderly one of the schedulers, which carry the loads that
  -- are queued, each once, on the machine's streams, whose ranks are indices; the system is not
  -- stopping. Whatever sort is used: level 1 is defined, and then, if each stream makes a pass, in
  -- whatever order, every pass ends; the loads that were queued are, and each runs on the stream that
  -- it is queued on then, whose pool has its unit.
  pub level-Followed :
      (ks : List ℕ) (g : Global) (w : World units.Runtime)
      → IsReady g
      → g.env.stopping ≡ false
      → IsPlaced g.store
      → ((j l : ℕ) → mem l (g.store.streams j).load_q ≡ true → j < g.env.nr_cores)
      → ((j : ℕ) → j < g.env.nr_cores → (g.store.streams j).rank ≡ j)
      → Orderly units contents g.env.nr_cores (relocated units contents g.env.nr_cores w g.store)
      → Carried units contents g.env.nr_cores (relocated units contents g.env.nr_cores w g.store)
      → All (λ k. k < g.env.nr_cores) ks
      → ((j : ℕ) → j < g.env.nr_cores → mem j ks ≡ true)
      → (g' : Global) × (w' : World units.Runtime) × (reb_in_partitions qsort g ≡ some g')
        × (tour units contents g.env.nr_cores g.env ks
              (relocated units contents g.env.nr_cores w g'.store)
            ≡ some w')
        × Followed units contents g g' w'
  level-Followed ks g w r runs placed inside ranks o carried all every =
      let cores = g.env.nr_cores in
      let v = relocated units contents cores w g.store in
      let (g', level, c) = reb_in_partitions-Contained qsort sorts g r in
      let kept = Steps-Rehoused (reb_in_partitions-Moves qsort g g' level) in
      let placed' = kept.placed placed in
      let inside' = stay_inside g g' r c placed' kept.back inside in
      let o' =
        relocated-Orderly units contents cores v g'.store kept placed' inside' ranks carried o in
      let (w', ran, d) =
        tour-Delivered units contents cores g.env queue tame runs ks
          (relocated units contents cores w g'.store) all every o' in
      (
        g',
        w',
        level,
        ran,
        record {
          placed = placed';
          there = kept.there;
          back = kept.back;
          running =
              runs_where_queued units contents cores v g'.store kept placed' inside' ranks carried
                g.env w' d;
        },
      )
