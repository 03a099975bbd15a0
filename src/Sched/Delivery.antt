-- ===== src/Sched/Delivery.antt =====
-- What a pass of one stream (sched_run of src/sched/base.c) does to the units of all streams.
use abtst.Common.{
  ℕ, ◌+◌, ◌<◌, ◌≤◌, ◌≡◌, ◌≢◌, ◌⊎◌, inl, inr, refl, sym, subst, ap, ◌∙◌, false, List, [], arith,
  ◌==◌, if◌then◌else◌, Bool-cases, count, mem,
}
use abtst.Stream.{Stream}
use abtst.Stream.Placed.{mem_one, count_not_mem}
use abtst.Stream.Move.{mem_of_count}
use abtst.Sched.Units.{World, Units}
use abtst.Sched.Data.{sub_sched_get_pool}
use abtst.Sched.Step.{load_of, IsUnit, SameScheds-load_of, SameRanks}
use abtst.Sched.Swept.{loads_of, Swept}
use abtst.Sched.Orderly.{pool_of, Holds, load_at, Orderly, load_same, apart_loads, mem_loads}
use abtst.Sched.Bound.{if_count, All-at, queue_of, IsSettled, count_bound}

module _ (units : Units) (contents : ℕ → units.Runtime → List ℕ) where
  open units use {Runtime, unit_get_sched}

  -- A pass of the stream `k` over its pool.
  module _ (max k : ℕ) (lt : k < max) {w w' : World Runtime} (o : Orderly units contents max w)
      (s : Swept units contents max k w.store.streams (contents (pool_of k w) w.rt) [] w w') where
    counted :
        (j v : ℕ)
        → j < max
        → count v (queue_of units contents j w')
          ≡ (if j == k then 0 else count v (queue_of units contents j w))
            + (if (w.store.loads (load_at units contents k v w)).dest_rank == j
                then count v (queue_of units contents k w)
                else 0)
    counted j v j_lt =
        ap (λ (st : ℕ → Stream). count v (contents (st j).pool w'.rt)) s.same.streams
        ∙ (s.delivered j v j_lt
            ∙ rw
                (
                  if_count (j == k) v (queue_of units contents j w),
                  count_bound units contents j (pool_of k w) v (queue_of units contents k w) w,
                )
                refl)

    in_pool : (j v : ℕ) → Holds units contents j v w → 1 ≤ count v (queue_of units contents j w)
    in_pool j v h = mem_one v (queue_of units contents j w) h

    pub stays :
        (j v : ℕ) → j < max → j ≢ k → Holds units contents j v w → Holds units contents j v w'
    stays j v j_lt ne h =
        mem_of_count v (queue_of units contents j w')
          (ground (arith, counted j v j_lt, in_pool j v h))

    pub goes :
        (j v : ℕ)
        → j < max
        → Holds units contents k v w
        → (w.store.loads (load_at units contents k v w)).dest_rank ≡ j
        → Holds units contents j v w'
    goes j v j_lt h e =
        mem_of_count v (queue_of units contents j w')
          (ground (arith, counted j v j_lt, in_pool k v h, e))

    -- A unit that the pool of `j` has now, though it kept none of it.
    sent :
        (j v : ℕ)
        → j < max
        → Holds units contents j v w'
        → (if j == k then 0 else count v (queue_of units contents j w)) ≡ 0
        → Holds units contents k v w
          × ((w.store.loads (load_at units contents k v w)).dest_rank ≡ j)
    sent j v j_lt h none_left =
        let n = mem_one v (queue_of units contents j w') h in
        let c = counted j v j_lt in
        elim (Bool-cases ((w.store.loads (load_at units contents k v w)).dest_rank == j)) [
          | inr miss ↦ absurd (ground arith)
          | inl hit ↦ (mem_of_count v (queue_of units contents k w) (ground arith), ground arith)
        ]

    pub was :
        (j v : ℕ)
        → j < max
        → Holds units contents j v w'
        → ((j ≢ k) × Holds units contents j v w)
          ⊎ (Holds units contents k v w
              × ((w.store.loads (load_at units contents k v w)).dest_rank ≡ j))
    was j v j_lt h =
        let some_here = mem_one v (queue_of units contents j w') h in
        elim (Bool-cases (j == k)) [
          | inl here ↦ inr (sent j v j_lt h (rw here refl))
          | inr there ↦ elim (Bool-cases (mem v (queue_of units contents j w))) [
            | inl before ↦ inl ((λ e. ground arith), before)
            | inr not_before ↦ inr (
                sent j v j_lt h
                  (rw there (count_not_mem v (queue_of units contents j w) not_before)))
          ]
        ]

    -- The loads of the other streams keep their ranks.
    other_ranks :
        (j v : ℕ)
        → j < max
        → j ≢ k
        → Holds units contents j v w
        → SameRanks units contents (load_at units contents j v w) w w'
    other_ranks j v j_lt ne h =
        let l = load_at units contents j v w in
        elim (Bool-cases
          (mem l (loads_of units contents (pool_of k w) (queue_of units contents k w) w))) [
            | inr away ↦ s.others l away
            | inl among ↦
                let (u, hu, e) =
                  mem_loads units contents max o k (queue_of units contents k w) l among in
                absurd (ne (sym (apart_loads units contents max o k j u v lt j_lt hu h e)))
          ]

    pub arrived :
        (v : ℕ)
        → Holds units contents k v w
        → (w'.store.loads (load_at units contents k v w)).curr_rank
          ≡ (w.store.loads (load_at units contents k v w)).dest_rank
    arrived v h = All-at _ (queue_of units contents k w) v s.arrived h

    -- A unit's load is the same in every pool of a stream, now as before.
    pub load_then :
        (i j v : ℕ)
        → i < max
        → j < max
        → load_at units contents i v w' ≡ load_at units contents j v w
    load_then i j v i_lt j_lt =
        SameScheds-load_of units contents s.same (pool_of i w') v
        ∙ ap (λ (st : ℕ → Stream). load_of units contents (st i).pool v w) s.same.streams
        ∙ load_same units contents max o i j v i_lt j_lt

    one_scheduler :
        (i j v : ℕ)
        → i < max
        → j < max
        → unit_get_sched v (pool_of i w') w'.rt ≡ unit_get_sched v (pool_of j w) w.rt
    one_scheduler i j v i_lt j_lt =
        s.same.handles.scheds v (pool_of i w')
        ∙ ap (λ (st : ℕ → Stream). unit_get_sched v (st i).pool w.rt) s.same.streams
        ∙ o.one_sched i j v i_lt j_lt

    sub_pool_then :
        (i j v : ℕ)
        → i < max
        → j < max
        → sub_sched_get_pool units (unit_get_sched v (pool_of i w') w'.rt) w'
          ≡ sub_sched_get_pool units (unit_get_sched v (pool_of j w) w.rt) w
    unfolding sub_sched_get_pool
    sub_pool_then i j v i_lt j_lt =
        rw
          (
            one_scheduler i j v i_lt j_lt,
            s.same.handles.datas (unit_get_sched v (pool_of j w) w.rt),
            s.same.sub_datas,
          )
          refl

    -- A unit of the stream `i` whose load is to run, or goes on to run, on the stream `j`.
    later-IsUnit :
        (i j v : ℕ)
        → i < max
        → j < max
        → IsUnit units contents max i (pool_of i w) v w
        → (w'.store.loads (load_at units contents i v w)).curr_rank ≡ j
        → IsUnit units contents max j (pool_of j w') v w'
    later-IsUnit i j v i_lt j_lt u now = record {
      exists = u.exists;
      sched = λ e. u.sched (sym (one_scheduler j i v j_lt i_lt) ∙ e);
      sub_pool = u.sub_pool;
      has_pool = sub_pool_then j i v j_lt i_lt ∙ u.has_pool;
      here = rw (load_then j i v j_lt i_lt) now;
      inside = rw (load_then j i v j_lt i_lt, s.dests (load_at units contents i v w)) u.inside;
    }

    -- Two units of one pool had their loads before, of which no two were the same.
    own_then :
        (j u v : ℕ)
        → j < max
        → Holds units contents j u w'
        → Holds units contents j v w'
        → load_at units contents j u w' ≡ load_at units contents j v w'
        → u ≡ v
    own_then j u v j_lt hu hv e = elim (was j u j_lt hu) [
      | inl (ne, before_u) ↦ elim (was j v j_lt hv) [
        | inl (ne', before_v) ↦ o.own_load j u v j_lt before_u before_v (earlier j j j_lt j_lt)
        | inr (sent_v, to_v) ↦ absurd (
            ne (
              apart_loads units contents max o j k u v j_lt lt before_u sent_v
                (earlier j k j_lt lt)))
      ]
      | inr (sent_u, to_u) ↦ elim (was j v j_lt hv) [
        | inl (ne, before_v) ↦ absurd (
            ne (
              sym (
                apart_loads units contents max o k j u v lt j_lt sent_u before_v
                  (earlier k j lt j_lt))))
        | inr (sent_v, to_v) ↦ o.own_load k u v lt sent_u sent_v (earlier k k lt lt)
      ]
    ]
      where
        earlier :
            (a b : ℕ)
            → a < max
            → b < max
            → load_at units contents a u w ≡ load_at units contents b v w
        earlier a b a_lt b_lt = sym (load_then j a u j_lt a_lt) ∙ (e ∙ load_then j b v j_lt b_lt)

    once_then : (j v : ℕ) → j < max → count v (queue_of units contents j w') ≤ 1
    once_then j v j_lt =
        let c = counted j v j_lt in
        let old = o.once j v j_lt in
        let mine = o.once k v lt in
        elim (Bool-cases (mem v (queue_of units contents k w))) [
          | inr not_mine ↦
              let nothing = count_not_mem v (queue_of units contents k w) not_mine in ground arith
          | inl hk ↦ elim (Bool-cases (j == k)) [
            | inl here ↦ ground arith
            | inr there ↦ elim (Bool-cases (mem v (queue_of units contents j w))) [
              | inr not_there ↦
                  let nothing = count_not_mem v (queue_of units contents j w) not_there in
                  ground arith
              | inl hj ↦
                  let e =
                    apart_loads units contents max o j k v v j_lt lt hj hk
                      (load_same units contents max o j k v j_lt lt) in
                  absurd (ground arith)
            ]
          ]
        ]

    pub pass-Orderly : Orderly units contents max w'
    pass-Orderly = record {
      awake = λ j j_lt.
          subst (λ (st : ℕ → Stream). (st j).blocking ≡ false) (sym s.same.streams)
            (o.awake j j_lt);
      apart = λ i j i_lt j_lt e.
          o.apart i j i_lt j_lt
            (subst (λ (st : ℕ → Stream). (st i).pool ≡ (st j).pool) s.same.streams e);
      runs_load = λ j v j_lt h. elim (was j v j_lt h) [
        | inl (ne, before) ↦
            later-IsUnit j j v j_lt j_lt (o.runs_load j v j_lt before)
              ((other_ranks j v j_lt ne before).curr ∙ (o.runs_load j v j_lt before).here)
        | inr (sent_v, to_v) ↦
            later-IsUnit k j v lt j_lt (o.runs_load k v lt sent_v) (arrived v sent_v ∙ to_v)
      ];
      once = once_then;
      own_load = own_then;
      one_sched =
          λ i j v i_lt j_lt. one_scheduler i j v i_lt j_lt ∙ sym (one_scheduler j j v j_lt j_lt);
    }

    -- No unit of the stream is to run elsewhere.
    pub pass-IsSettled :
        (j : ℕ) → j < max → (j ≡ k) ⊎ IsSettled units contents j w → IsSettled units contents j w'
    pass-IsSettled j j_lt before v h =
        rw (load_then j j v j_lt j_lt, s.dests (load_at units contents j v w))
          (elim (was j v j_lt h) [
            | inr (sent_v, to_v) ↦
                ap (λ l. (w.store.loads l).dest_rank) (load_same units contents max o j k v j_lt lt)
                ∙ to_v
            | inl (ne, there) ↦ elim before [ inl e ↦ absurd (ne e) | inr all ↦ all v there ]
          ])
