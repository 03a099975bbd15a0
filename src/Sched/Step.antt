-- ===== src/Sched/Step.antt =====
-- What the loop of sched_run (src/sched/base.c) does with one unit of a load: what is kept.
use abtst.Common.{ℕ, ◌<◌, ◌≡◌, ◌≢◌, refl, sym, ◌∙◌, some, List, [], ◌∷◌, ◌++◌}
use abtst.Sched.Units.{World, Units}
use abtst.Sched.Data.{sub_sched_get_load, sub_sched_get_pool}
use abtst.Sched.Laws.{SameUnits}

pub trans-SameUnits :
    {units : Units} {a b c : units.Runtime}
    → SameUnits units a b
    → SameUnits units b c
    → SameUnits units a c
trans-SameUnits p q = record {
  scheds = λ unit pool. q.scheds unit pool ∙ p.scheds unit pool;
  datas = λ sched. q.datas sched ∙ p.datas sched;
}

module _ (units : Units) (contents : ℕ → units.Runtime → List ℕ) where
  open units use {Runtime, unit_get_sched}

  -- The load that a unit of a pool runs.
  abbrev pub load_of : ℕ → ℕ → World Runtime → ℕ
  load_of pool unit w = sub_sched_get_load units (unit_get_sched unit pool w.rt) w

  -- A unit in the pool of the stream `k` that runs a load of that stream.
  pub record IsUnit (max k pool unit : ℕ) (w : World Runtime) : Type 0 where
    pub exists : unit ≢ 0
    pub sched : unit_get_sched unit pool w.rt ≢ 0
    pub sub_pool : ℕ
    pub has_pool : sub_sched_get_pool units (unit_get_sched unit pool w.rt) w ≡ some sub_pool
    pub here : (w.store.loads (load_of pool unit w)).curr_rank ≡ k
    pub inside : (w.store.loads (load_of pool unit w)).dest_rank < max

  -- Two worlds that agree on the streams and on the schedulers.
  pub record SameScheds (w w' : World Runtime) : Type 0 where
    pub streams : w'.store.streams ≡ w.store.streams
    pub sub_datas : w'.sub_datas ≡ w.sub_datas
    pub handles : SameUnits units w.rt w'.rt

  pub refl-SameScheds : (w : World Runtime) → SameScheds w w
  refl-SameScheds w = record {
    streams = refl;
    sub_datas = refl;
    handles = record { scheds = λ u p. refl; datas = λ s. refl };
  }

  pub trans-SameScheds :
      {w w' w'' : World Runtime} → SameScheds w w' → SameScheds w' w'' → SameScheds w w''
  trans-SameScheds p q = record {
    streams = q.streams ∙ p.streams;
    sub_datas = q.sub_datas ∙ p.sub_datas;
    handles = trans-SameUnits p.handles q.handles;
  }

  -- … and on the ranks of the load `l`.
  pub record SameRanks (l : ℕ) (w w' : World Runtime) : Type 0 where
    pub curr : (w'.store.loads l).curr_rank ≡ (w.store.loads l).curr_rank
    pub dest : (w'.store.loads l).dest_rank ≡ (w.store.loads l).dest_rank

  -- What a round does with the unit of a load that stays on its stream `k`, and
  -- with one that is to run elsewhere.
  pub record Requeued (k unit : ℕ) (q : List ℕ) (w w' : World Runtime) : Type 0 where
    pub same : SameScheds w w'
    pub back : contents (w.store.streams k).pool w'.rt ≡ q ++ unit ∷ []
    pub others :
        (j : ℕ)
        → (w.store.streams j).pool ≢ (w.store.streams k).pool
        → contents (w.store.streams j).pool w'.rt ≡ contents (w.store.streams j).pool w.rt
    pub ranks : (l : ℕ) → SameRanks l w w'

  pub record Sent (k to unit load : ℕ) (q : List ℕ) (w w' : World Runtime) : Type 0 where
    pub same : SameScheds w w'
    pub gone : contents (w.store.streams k).pool w'.rt ≡ q
    pub arrived :
        contents (w.store.streams to).pool w'.rt
        ≡ contents (w.store.streams to).pool w.rt ++ unit ∷ []
    pub others :
        (j : ℕ)
        → (w.store.streams j).pool ≢ (w.store.streams k).pool
        → (w.store.streams j).pool ≢ (w.store.streams to).pool
        → contents (w.store.streams j).pool w'.rt ≡ contents (w.store.streams j).pool w.rt
    pub moved : (w'.store.loads load).curr_rank ≡ to
    pub kept : (w'.store.loads load).dest_rank ≡ to
    pub ranks : (l : ℕ) → l ≢ load → w'.store.loads l ≡ w.store.loads l

  pub SameScheds-load_of :
      {w w' : World Runtime}
      → SameScheds w w'
      → (pool unit : ℕ) → load_of pool unit w' ≡ load_of pool unit w
  unfolding sub_sched_get_load
  SameScheds-load_of {w} {w'} same pool unit =
      rw
        (
          same.handles.scheds unit pool,
          same.handles.datas (unit_get_sched unit pool w.rt),
          same.sub_datas,
        )
        refl

  SameScheds-sub_pool :
      {w w' : World Runtime}
      → SameScheds w w'
      → (pool unit : ℕ)
      → sub_sched_get_pool units (unit_get_sched unit pool w'.rt) w'
        ≡ sub_sched_get_pool units (unit_get_sched unit pool w.rt) w
  unfolding sub_sched_get_pool
  SameScheds-sub_pool {w} {w'} same pool unit =
      rw
        (
          same.handles.scheds unit pool,
          same.handles.datas (unit_get_sched unit pool w.rt),
          same.sub_datas,
        )
        refl

  pub IsUnit-Same :
      {max k pool unit : ℕ} {w w' : World Runtime}
      → SameScheds w w'
      → SameRanks (load_of pool unit w) w w'
      → IsUnit max k pool unit w
      → IsUnit max k pool unit w'
  IsUnit-Same {max} {k} {pool} {unit} {w} {w'} same ranks u = record {
    exists = u.exists;
    sched = λ e. u.sched (sym (same.handles.scheds unit pool) ∙ e);
    sub_pool = u.sub_pool;
    has_pool = SameScheds-sub_pool same pool unit ∙ u.has_pool;
    here = rw (SameScheds-load_of same pool unit, ranks.curr) u.here;
    inside = rw (SameScheds-load_of same pool unit, ranks.dest) u.inside;
  }
