-- ===== src/Load/Deal.antt =====
-- abtst_init_loads (src/load/load.c) where the calls of Argobots succeed: the loads of a mapping are
-- dealt out in turn to the streams that its partition uses.
use abtst.Common.{
  ℕ, zero, suc, ◌+◌, ◌-◌, ◌%◌, ◌≤◌, ◌<◌, ◌≡◌, ◌≢◌, refl, ◌∙◌, ap, false, some, List, [], ◌∷◌, ◌++◌,
  arith, ◌==◌, if◌then◌else◌, length, get_elem?, count, range,
}
use abtst.Common.Int.{pos}
use abtst.Common.Store.{Array}
use abtst.Abt.{Abt}
use abtst.Load.{Load}
use abtst.Load.Init.{
  Loads, serves, find_next_stream, search_order, fresh_load, init_load, deal_load, deal_loads,
}
use abtst.Load.Order.{serving, first_stream-serving, serving-search_order, order_from, order-turn}
use abtst.Load.RoundRobin.{round_robin}
use abtst.Sched.{init_sub_sched}
use abtst.Stream.{Stream, Store, put_load, add_load_to_stream}
use abtst.Stream.Move.{bare}

-- Every call that the making of a load depends on returns ABT_SUCCESS.
pub record IsWorking (abt : Abt) : Type 0 where
  pub pools : (rt : abt.Runtime) → (abt.pool_create_basic rt).0 ≡ pos 0
  pub configs : (load : ℕ) (rt : abt.Runtime) → (abt.sched_config_create load rt).0 ≡ pos 0
  pub scheds : (pool config : ℕ) (rt : abt.Runtime) → (abt.sched_create pool config rt).0 ≡ pos 0
  pub adds : (pool sched : ℕ) (rt : abt.Runtime) → (abt.pool_add_sched pool sched rt).0 ≡ pos 0

-- The store `t` is `s` after one load went to the stream `k`.
pub record Placed (k l : ℕ) (s t : Store) : Type 0 where
  pub queued :
      (j : ℕ)
      → (t.streams j).load_q ≡ (if j == k then l ∷ (s.streams j).load_q else (s.streams j).load_q)
  pub fields : (j : ℕ) → bare (t.streams j) ≡ bare (s.streams j)
  pub runs_on : (t.loads l).curr_rank ≡ (s.streams k).rank
  pub others : (a : ℕ) → a ≢ l → t.loads a ≡ s.loads a

-- The store `t` is `s` after the loads from the number `i` on went to the streams `ks`, in turn.
pub record Dealt (base i : ℕ) (ks : List ℕ) (s t : Store) : Type 0 where
  pub queued : (j : ℕ) → length (t.streams j).load_q ≡ length (s.streams j).load_q + count j ks
  pub fields : (j : ℕ) → bare (t.streams j) ≡ bare (s.streams j)
  pub runs_on :
      (a k : ℕ)
      → get_elem? ks a ≡ some k
      → (t.loads (base + (i + a))).curr_rank ≡ (s.streams k).rank
  pub others : (l : ℕ) → l < base + i → t.loads l ≡ s.loads l

Placed-runs_on :
    {k base i : ℕ} {ks : List ℕ} {s m t : Store}
    → Placed k (base + i) s m
    → Dealt base (suc i) ks m t
    → (a k' : ℕ) → get_elem? (k ∷ ks) a ≡ some k'
    → (t.loads (base + (i + a))).curr_rank ≡ (s.streams k').rank
Placed-runs_on {k} {base} {i} {ks} {s} {m} {t} one rest zero k' e =
    let here : base + (i + 0) ≡ base + i = omega arith in
    let same : k ≡ k' = cc in
    rw (here, rest.others (base + i) (omega arith), one.runs_on, same) refl
Placed-runs_on {k} {base} {i} {ks} {s} {m} {t} one rest (suc a) k' e =
    let there : base + (i + suc a) ≡ base + (suc i + a) = omega arith in
    rw there (rest.runs_on a k' e) ∙ ap (λ (st : Stream). st.rank) (one.fields k')

Placed-Dealt :
    {k base i : ℕ} {ks : List ℕ} {s m t : Store}
    → Placed k (base + i) s m
    → Dealt base (suc i) ks m t
    → Dealt base i (k ∷ ks) s t
Placed-Dealt {k} {base} {i} {ks} {s} {m} {t} one rest = record {
  queued = λ j. ground (arith, one.queued j, rest.queued j);
  fields = λ j. rest.fields j ∙ one.fields j;
  runs_on = Placed-runs_on one rest;
  others = λ l h. rest.others l (omega arith) ∙ one.others l (λ e. omega arith);
}

module _ (abt : Abt) (works : IsWorking abt) where
  open abt use {Runtime}

  init_sub_sched-some :
      (sched pool load : ℕ) (rt : Runtime)
      → (made : ℕ) × (rt' : Runtime) × (init_sub_sched abt sched pool load rt ≡ (pos 0, made, rt'))
  unfolding init_sub_sched
  init_sub_sched-some sched pool load rt =
      let config = abt.sched_config_create load rt in
      let made = abt.sched_create pool config.1 config.2 in
      (
        made.1,
        abt.sched_config_free config.1 made.2,
        rw (works.configs load rt, works.scheds pool config.1 config.2) refl,
      )

  init_load-some :
      (l rank : ℕ) (s : Store) (rt : Runtime)
      → (load : Load) × (rt' : Runtime) × (init_load abt l rank s rt
          ≡ (pos 0, put_load l load s, rt'))
        × (load.curr_rank ≡ rank)
  unfolding init_load fresh_load
  init_load-some l rank s rt =
      let pool = abt.pool_create_basic rt in
      let (made, rt', runs) = init_sub_sched-some (s.loads l).sched pool.1 l pool.2 in
      (
        record (fresh_load rank (s.loads l)) { pool = pool.1; sched = made },
        rt',
        rw (works.pools rt, runs) refl,
        refl,
      )

  deal_load-Placed :
      (max : ℕ) (loads : Loads) (i start k : ℕ) (s : Store) (rt : Runtime)
      → find_next_stream max loads.partition_id start s.streams ≡ some (some k)
      → (t : Store) × (rt' : Runtime) × (deal_load abt max loads i start s rt
          ≡ some (pos 0, (s.streams k).rank + 1, t, rt'))
        × Placed k (loads.loads + i) s t
  unfolding deal_load add_load_to_stream
  deal_load-Placed max loads i start k s rt found =
      let l = loads.loads + i in
      let s1 = put_load l (record (s.loads l) { load_id = i }) s in
      let (load, rt1, runs, here) = init_load-some l (s.streams k).rank s1 rt in
      let s2 = put_load l load s1 in
      let added = abt.pool_add_sched (s2.streams k).pool (s2.loads l).sched rt1 in
      (
        add_load_to_stream k l s2,
        added.1,
        rw (found, runs, works.adds (s2.streams k).pool (s2.loads l).sched rt1) refl,
        record {
          queued = λ j. ground arith;
          fields = λ j. ground arith;
          runs_on = ground (arith, here);
          others = λ a ne. ground arith;
        },
      )

serving-same :
    (p : ℕ) (streams streams' : Array Stream) (is : List ℕ)
    → ((j : ℕ) → bare (streams' j) ≡ bare (streams j))
    → serving p streams' is ≡ serving p streams is
unfolding serving serves
serving-same p streams streams' [] same = refl
serving-same p streams streams' (i ∷ is) same =
    let used = ap (λ (st : Stream). st.used) (same i) in
    let part = ap (λ (st : Stream). st.part_id) (same i) in
    rw (used, part, serving-same p streams streams' is same) refl

order_from-same :
    (p : ℕ) (streams streams' : Array Stream) (max t : ℕ)
    → ((j : ℕ) → bare (streams' j) ≡ bare (streams j))
    → order_from p streams' max t ≡ order_from p streams max t
order_from-same p streams streams' max t same =
    rw
      (
        serving-same p streams streams' (range t (max - t)) same,
        serving-same p streams streams' (range 0 t) same,
      )
      refl

not_empty : (q : List ℕ) (k : ℕ) → q ++ k ∷ [] ≢ []
not_empty [] k e = cc
not_empty (x ∷ q) k e = cc

Dealt-none : (base i : ℕ) (s : Store) → Dealt base i [] s s
Dealt-none base i s = record {
  queued = λ j. omega arith;
  fields = λ j. refl;
  runs_on = λ a k e. cc;
  others = λ l h. refl;
}

-- What a search from `start` on finds.
find_next_stream-head :
    (max p start k : ℕ) (streams : Array Stream) (q : List ℕ)
    → 0 < max
    → start ≤ max
    → order_from p streams max start ≡ k ∷ q
    → find_next_stream max p start streams ≡ some (some k)
unfolding find_next_stream
find_next_stream-head max p start k streams q h le e =
    let size : (max == 0) ≡ false = ground arith in
    rw
      (
        size,
        first_stream-serving p streams (search_order max (start % max)),
        serving-search_order p streams max start h le,
        e,
      )
      refl

module _ (abt : Abt) (works : IsWorking abt) (max : ℕ) (loads : Loads) (some_stream : 0 < max) where
  open abt use {Runtime}

  pub deal_loads-Dealt :
      (n i start : ℕ) (s : Store) (rt : Runtime) (q : List ℕ)
      → start ≤ max
      → ((k : ℕ) → k < max → (s.streams k).rank ≡ k)
      → order_from loads.partition_id s.streams max start ≡ q
      → q ≢ []
      → (t : Store) × (rt' : Runtime) × (deal_loads abt max loads (range i n) start s rt
          ≡ some (pos 0, t, rt'))
        × Dealt loads.loads i (round_robin n q) s t
  unfolding deal_loads round_robin
  deal_loads-Dealt zero i start s rt q le ranked e ne = (s, rt, refl, Dealt-none loads.loads i s)
  deal_loads-Dealt (suc n) i start s rt [] le ranked e ne = absurd (ne refl)
  deal_loads-Dealt (suc n) i start s rt (k ∷ q) le ranked e ne =
      let p = loads.partition_id in
      let found = find_next_stream-head max p start k s.streams q some_stream le e in
      let (m, rt1, first, one) = deal_load-Placed abt works max loads i start k s rt found in
      let turn = order-turn p s.streams max start k q le e in
      let next : (s.streams k).rank + 1 ≡ suc k = omega (arith, ranked k turn.0) in
      let order : order_from p m.streams max (suc k) ≡ q ++ k ∷ [] =
        order_from-same p s.streams m.streams max (suc k) one.fields ∙ turn.2 in
      let (t, rt2, runs, rest) =
        deal_loads-Dealt n (suc i) (suc k) m rt1 (q ++ k ∷ []) (omega (arith, turn.0))
          (λ j h. ap (λ (st : Stream). st.rank) (one.fields j) ∙ ranked j h) order
          (not_empty q k) in
      (t, rt2, rw (first, next) runs, Placed-Dealt one rest)
