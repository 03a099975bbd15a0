-- ===== src/Rebalance/Ready.antt =====
-- The state that the levels of src/rebalance/rebalance.c need, and what they keep.
use abtst.Common.{
  ◌%◌, count-range, mem-range_iff, length-range, ℕ, ◌+◌, ◌-◌, ◌≤◌, ◌<◌, ◌≡◌, inl, inr, refl, sym,
  subst, ◌∙◌, ap, true, List, [], ◌∷◌, arith, ◌==◌, length, mem, mem-range, range, Bool-cases,
  u32_mod,
}
use abtst.Common.Store.{Array}
use abtst.Env.{Env, cores_of}
use abtst.Partition.{Partitions}
use abtst.Partition.Stats.{cores_used}
use abtst.Stream.{Stream, Store}
use abtst.Stream.Move.{IsCounted}
use abtst.Stream.Shift.{Shift, Shift-refl, Shift-trans, weigh, nr_queued, IsClosed}
use abtst.Global.{Global}

-- Two streams in use by one partition, on cores of one NUMA.
pub record Neighbours (g : Global) (i j : ℕ) : Type 0 where
  pub numa : ℕ
  pub of_numa : numa < g.env.nr_numas
  pub here : mem i (cores_of (g.env.numa_info numa)) ≡ true
  pub there : mem j (cores_of (g.env.numa_info numa)) ≡ true
  pub same_part : (g.store.streams i).part_id ≡ (g.store.streams j).part_id
  pub used_here : (g.store.streams i).used ≡ true
  pub used_there : (g.store.streams j).used ≡ true

-- What a level leaves: only the store differs, and loads moved between neighbours alone.
pub record Contained (g g' : Global) : Type 0 where
  pub rest : record g' { store = g.store } ≡ g
  pub shift : Shift (Neighbours g) g.store g'.store

pub Contained-refl : (g : Global) → Contained g g
Contained-refl g = record { rest = refl; shift = Shift-refl g.store }

-- What level 1 needs: every NUMA's cores exist, the kept lengths are right, the loads queued fit 32
-- bits, and the partition statistics count the streams in use.
pub record IsReady (g : Global) : Type 0 where
  pub cores_exist : (k : ℕ) → k < g.env.nr_numas → (g.env.numa_info k).end_core < g.env.nr_cores
  pub cores_fit : g.env.nr_cores < u32_mod
  pub all_counted : (i : ℕ) → IsCounted (g.store.streams i)
  pub few_loads : nr_queued (range 0 g.env.nr_cores) g.store < u32_mod
  pub up_to_date :
      (p k : ℕ)
      → k < g.env.nr_numas
      → (g.partitions.numa_stats p k).used_cores
        ≡ cores_used p g.store.streams (cores_of (g.env.numa_info k)) % u32_mod

pub cores_used-le :
    (p : ℕ) (streams : Array Stream) (is : List ℕ) → cores_used p streams is ≤ length is
unfolding cores_used
cores_used-le p streams [] = omega arith
cores_used-le p streams (i ∷ is) = ground (arith, cores_used-le p streams is)

pub length-le-nr_queued :
    (i : ℕ) (is : List ℕ) (s : Store)
    → mem i is ≡ true
    → length (s.streams i).load_q ≤ nr_queued is s
unfolding weigh
length-le-nr_queued i [] s m = absurd (ground arith)
length-le-nr_queued i (j ∷ is) s m = elim (Bool-cases (i == j)) [
  | inl here ↦ let e : i ≡ j = ground arith in rw e (omega arith)
  | inr there ↦ omega (arith, length-le-nr_queued i is s (ground arith))
]

-- Moves between neighbours keep the cores of the machine and those of each partition closed.
pub cores-IsClosed : (g : Global) → IsReady g → IsClosed (Neighbours g) (range 0 g.env.nr_cores)
cores-IsClosed g r i j n =
    let low = r.cores_exist n.numa n.of_numa in
    let at_i = mem-range_iff i _ (g.env.numa_info n.numa).start_core n.here in
    let at_j = mem-range_iff j _ (g.env.numa_info n.numa).start_core n.there in
    count-range i g.env.nr_cores 0 (omega arith) (omega arith)
    ∙ sym (count-range j g.env.nr_cores 0 (omega arith) (omega arith))

-- A queue of a core of the machine is short, and a NUMA has no more cores than the machine.
pub short_queue :
    (g : Global) (k i : ℕ)
    → IsReady g
    → k < g.env.nr_numas
    → mem i (cores_of (g.env.numa_info k)) ≡ true
    → length (g.store.streams i).load_q < u32_mod
short_queue g k i r h m =
    let low = r.cores_exist k h in
    let at_i = mem-range_iff i _ (g.env.numa_info k).start_core m in
    let on_machine = mem-range i g.env.nr_cores 0 (omega arith) (omega arith) in
    omega (arith, length-le-nr_queued i (range 0 g.env.nr_cores) g.store on_machine, r.few_loads)

pub length-numa :
    (g : Global) (k : ℕ)
    → IsReady g
    → k < g.env.nr_numas
    → length (cores_of (g.env.numa_info k)) ≤ g.env.nr_cores
length-numa g k r h =
    let low = r.cores_exist k h in
    omega (
      arith,
      length-range ((g.env.numa_info k).end_core + 1 - (g.env.numa_info k).start_core)
          (g.env.numa_info k).start_core,
    )

Shift-mono :
    {R R' : ℕ → ℕ → Type 0} {s t : Store}
    → ((i j : ℕ) → R i j → R' i j)
    → Shift R s t
    → Shift R' s t
Shift-mono up v = record {
  fields = v.fields;
  counted = v.counted;
  kept = λ a is h. v.kept a is (λ i j r. h i j (up i j r));
  kept_number = λ is h. v.kept_number is (λ i j r. h i j (up i j r));
}

-- A level's work, seen from the state before it.
module _ {g h : Global} (c : Contained g h) where
  pub same_env : h.env ≡ g.env
  same_env = ap (λ (x : Global). x.env) c.rest

  pub same_partitions : h.partitions ≡ g.partitions
  same_partitions = ap (λ (x : Global). x.partitions) c.rest

  pub same_used : (i : ℕ) → (h.store.streams i).used ≡ (g.store.streams i).used
  same_used i = ap (λ (st : Stream). st.used) (c.shift.fields i)

  same_part_id : (i : ℕ) → (h.store.streams i).part_id ≡ (g.store.streams i).part_id
  same_part_id i = ap (λ (st : Stream). st.part_id) (c.shift.fields i)

  Neighbours-back : (i j : ℕ) → Neighbours h i j → Neighbours g i j
  Neighbours-back i j n = record {
    numa = n.numa;
    of_numa = subst (λ (e : Env). n.numa < e.nr_numas) same_env n.of_numa;
    here = subst (λ (e : Env). mem i (cores_of (e.numa_info n.numa)) ≡ true) same_env n.here;
    there = subst (λ (e : Env). mem j (cores_of (e.numa_info n.numa)) ≡ true) same_env n.there;
    same_part = ground (arith, same_part_id i, same_part_id j, n.same_part);
    used_here = sym (same_used i) ∙ n.used_here;
    used_there = sym (same_used j) ∙ n.used_there;
  }

  cores_used_same :
      (p : ℕ) (is : List ℕ) → cores_used p h.store.streams is ≡ cores_used p g.store.streams is
  unfolding cores_used
  cores_used_same p [] = refl
  cores_used_same p (i ∷ is) = rw (same_used i, same_part_id i, cores_used_same p is)

  pub Contained-trans : {k : Global} → Contained h k → Contained g k
  Contained-trans {k} d = record {
    rest = ap (λ (x : Global). record x { store = g.store }) d.rest ∙ c.rest;
    shift = Shift-trans c.shift (Shift-mono Neighbours-back d.shift);
  }

  -- The level leaves a state that the next one can work on.
  pub Contained-IsReady : IsReady g → IsReady h
  Contained-IsReady r = record {
    cores_exist =
        subst (λ (e : Env). (k : ℕ) → k < e.nr_numas → (e.numa_info k).end_core < e.nr_cores)
          (sym same_env) r.cores_exist;
    cores_fit = subst (λ (e : Env). e.nr_cores < u32_mod) (sym same_env) r.cores_fit;
    all_counted = c.shift.counted r.all_counted;
    few_loads =
        subst (λ (e : Env). nr_queued (range 0 e.nr_cores) h.store < u32_mod) (sym same_env)
          (omega (
            arith,
            c.shift.kept_number (range 0 g.env.nr_cores) (cores-IsClosed g r),
            r.few_loads,
          ));
    up_to_date =
        subst
          (λ (e : Env).
            (p k : ℕ)
            → k < e.nr_numas
            → (h.partitions.numa_stats p k).used_cores
              ≡ cores_used p h.store.streams (cores_of (e.numa_info k)) % u32_mod)
          (sym same_env)
          λ p k lt.
            ap (λ (x : Partitions). (x.numa_stats p k).used_cores) same_partitions
            ∙ r.up_to_date p k lt
            ∙ ap (λ n. n % u32_mod) (sym (cores_used_same p (cores_of (g.env.numa_info k))));
  }
