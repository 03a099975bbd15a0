-- ===== src/App/Started.antt =====
-- What abtst_init (src/app/abt_st.c) leaves of the streams.
use abtst.Common.{
  ℕ, ◌<◌, ◌≡◌, inl, inr, refl, sym, subst, ◌∙◌, true, false, Option, none, some, List, [], ◌∷◌,
  arith, ◌==◌, Bool-cases, mem, mem-range, range,
}
use abtst.Common.Int.{ℤ, pos}
use abtst.Common.Store.{Array}
use abtst.Abt.{Abt}
use abtst.Env.{Env, init_env}
use abtst.Power.{init_power}
use abtst.Partition.{Partition, Partitions, init_partitions}
use abtst.Stream.{Stream, Store, put_stream}
use abtst.Stream.Lifecycle.{
  StreamArray, Streams, no_stream, apply_config, init_main, init_used, init_xstream, init_all,
  init_streams, fresh_stream,
}
use abtst.Sched.{init_sched}
use abtst.Global.{Global}
use abtst.App.Applied.{apply_config-Applied}
use abtst.App.{System, params_of, init_rebalance, init_global}

-- No call of Argobots that makes a stream fails.
pub record MakesStreams (abt : Abt) : Type 0 where
  pub selfs : (rt : abt.Runtime) → (abt.xstream_self rt).0 ≡ pos 0
  pub main_pools :
      (xstream : ℕ) (rt : abt.Runtime) → (abt.xstream_get_main_pool xstream rt).0 ≡ pos 0
  pub pools : (rt : abt.Runtime) → (abt.pool_create_basic rt).0 ≡ pos 0
  pub configs : (stream : ℕ) (rt : abt.Runtime) → (abt.sched_config_create stream rt).0 ≡ pos 0
  pub scheds : (pool config : ℕ) (rt : abt.Runtime) → (abt.sched_create pool config rt).0 ≡ pos 0
  pub xstreams :
      (sched rank : ℕ) (rt : abt.Runtime) → (abt.xstream_create_with_rank sched rank rt).0 ≡ pos 0

-- What the initialisation of a stream keeps of it.
record SameUse (a b : Stream) : Type 0 where
  pub rank : b.rank ≡ a.rank
  pub used : b.used ≡ a.used
  pub part_id : b.part_id ≡ a.part_id

-- A stream of the partition that the map names, or of none.
pub record Configured (map : Array (Option ℕ)) (j : ℕ) (st : Stream) : Type 0 where
  pub rank : st.rank ≡ j
  pub owned : (p : ℕ) → map j ≡ some p → (st.used ≡ true) × (st.part_id ≡ p)
  pub unused : map j ≡ none → st.used ≡ false

module _ (abt : Abt) (makes : MakesStreams abt) where
  open abt use {Runtime}

  init_main-SameUse :
      (st : Stream) (rt : Runtime)
      → ((init_main abt st rt).0 ≡ pos 0) × SameUse st (init_main abt st rt).1
  unfolding init_main
  init_main-SameUse st rt =
      let me = abt.xstream_self rt in
      rw (makes.selfs rt, makes.main_pools me.1 me.2)
        (refl, record { rank = refl; used = refl; part_id = refl })

  init_sched-zero :
      (sched pool stream : ℕ) (rt : Runtime) → (init_sched abt sched pool stream rt).0 ≡ pos 0
  unfolding init_sched
  init_sched-zero sched pool stream rt =
      let config = abt.sched_config_create stream rt in
      rw (makes.configs stream rt, makes.scheds pool config.1 config.2) refl

  init_used-SameUse :
      (i : ℕ) (st : Stream) (rt : Runtime)
      → ((init_used abt i st rt).0 ≡ pos 0) × SameUse st (init_used abt i st rt).1
  unfolding init_used
  init_used-SameUse i st rt =
      let pool = abt.pool_create_basic rt in
      let sched = init_sched abt st.sched pool.1 i pool.2 in
      rw
        (
          makes.pools rt,
          init_sched-zero st.sched pool.1 i pool.2,
          makes.xstreams sched.1 st.rank sched.2,
        )
        (refl, record { rank = refl; used = refl; part_id = refl })

  init_xstream-SameUse :
      (i : ℕ) (s : Store) (rt : Runtime)
      → (st : Stream) × ((init_xstream abt i i s rt).0 ≡ pos 0)
        × ((init_xstream abt i i s rt).1 ≡ put_stream i st s)
        × (st.rank ≡ i)
        × (st.used ≡ (s.streams i).used)
        × (st.part_id ≡ (s.streams i).part_id)
  unfolding init_xstream fresh_stream
  init_xstream-SameUse i s rt =
      let fresh = fresh_stream i (s.streams i) in
      elim (Bool-cases (i == 0)) [
        | inl main ↦
            let (ret, v) = init_main-SameUse fresh rt in
            (
              (init_main abt fresh rt).1,
              rw (main, ret) refl,
              rw main refl,
              v.rank,
              v.used,
              v.part_id,
            )
        | inr other ↦ elim (Bool-cases (s.streams i).used) [
          | inl used ↦
              let live : Stream = record fresh { used = true } in
              let (ret, v) = init_used-SameUse i live rt in
              (
                (init_used abt i live rt).1,
                rw (other, used, ret) refl,
                rw (other, used) refl,
                v.rank,
                v.used ∙ sym used,
                v.part_id,
              )
          | inr unused ↦ (fresh, rw (other, unused) refl, rw (other, unused) refl, refl, refl, refl)
        ]
      ]

  -- The store after the streams `is` were made.
  record Made (is : List ℕ) (s t : Store) : Type 0 where
    pub rank : (j : ℕ) → mem j is ≡ true → (t.streams j).rank ≡ j
    pub used : (j : ℕ) → (t.streams j).used ≡ (s.streams j).used
    pub part_id : (j : ℕ) → (t.streams j).part_id ≡ (s.streams j).part_id
    pub ranked : (j : ℕ) → (s.streams j).rank ≡ j → (t.streams j).rank ≡ j

  Made-cons :
      (i : ℕ) (is : List ℕ) (st : Stream) (s t : Store)
      → st.rank ≡ i
      → st.used ≡ (s.streams i).used
      → st.part_id ≡ (s.streams i).part_id
      → Made is (put_stream i st s) t
      → Made (i ∷ is) s t
  Made-cons i is st s t rank used part v = record {
    rank = λ j m. elim (Bool-cases (j == i)) [
      | inl here ↦ v.ranked j (rw here (rank ∙ ground (arith, here)))
      | inr there ↦ v.rank j (ground (arith, m, there))
    ];
    used = λ j. v.used j ∙ (elim (Bool-cases (j == i)) [
      | inl here ↦ let e : j ≡ i = ground arith in rw (here, e) used
      | inr there ↦ rw there refl
    ]);
    part_id = λ j. v.part_id j ∙ (elim (Bool-cases (j == i)) [
      | inl here ↦ let e : j ≡ i = ground arith in rw (here, e) part
      | inr there ↦ rw there refl
    ]);
    ranked = λ j h. v.ranked j (elim (Bool-cases (j == i)) [
      | inl here ↦ rw here (rank ∙ ground (arith, here))
      | inr there ↦ rw there h
    ]);
  }

  init_all-Made :
      (is : List ℕ) (s : Store) (rt : Runtime)
      → ((init_all abt is s rt).0 ≡ pos 0) × Made is s (init_all abt is s rt).1
  unfolding init_all
  init_all-Made [] s rt =
      (refl, record { rank = λ j m. cc; used = λ j. refl; part_id = λ j. refl; ranked = λ j h. h })
  init_all-Made (i ∷ is) s rt =
      let (st, ret, put, rank, used, part) = init_xstream-SameUse i s rt in
      let one = init_xstream abt i i s rt in
      let (code, v) = init_all-Made is one.1 one.2 in
      rw ret (
        code,
        Made-cons i is st s (init_all abt is one.1 one.2).1 rank used part
            (subst (λ m. Made is m (init_all abt is one.1 one.2).1) put v),
      )

  init_streams-Configured :
      (n : ℕ) (map : Array (Option ℕ)) (streams : Streams) (s : Store) (rt : Runtime)
      → (streams' : Streams) × (t : Store) × (rt' : Runtime) × (init_streams abt true n map streams
            s rt
          ≡ (pos 0, streams', t, rt'))
        × (streams'.max_xstreams ≡ n)
        × ((j : ℕ) → j < n → Configured map j (t.streams j))
  unfolding init_streams
  init_streams-Configured n map streams s rt =
      let zeroed = record s { streams = λ _. no_stream } in
      let configured = (apply_config map (range 0 n) (0, zeroed)).1 in
      let (code, v) = init_all-Made (range 0 n) configured rt in
      let out = init_all abt (range 0 n) configured rt in
      let cnt = (apply_config map (range 0 n) (0, zeroed)).0 in
      (
        record {
          nr_xstreams = cnt;
          init_xstreams = cnt;
          max_xstreams = n;
          array = StreamArray.live;
        },
        out.1,
        out.2,
        rw code refl,
        refl,
        λ j lt.
            let a = apply_config-Applied map (range 0 n) 0 zeroed j in
            let m = mem-range j n 0 (omega arith) (omega arith) in
            record {
              rank = v.rank j m;
              owned = λ p e. let o = a.owned p e m in (v.used j ∙ o.0, v.part_id j ∙ o.1);
              unused = λ e. v.used j ∙ a.unused e;
            },
      )

  -- Where the calls that make streams succeed and the partitions are set up, with whatever code, the
  -- library is started: the code is 0, there is a stream for every core, with the core's number as its
  -- rank, and a stream is in use, for its partition, exactly where the map names one; the number of mappings is what it was.
  pub init_global-Configured :
      (system : System) (params : Option (List Partition)) (streams : Streams) (g : Global)
      (rt : Runtime) (env : Env) (parts : Partitions) (ret : ℤ)
      → system.map_allocated ≡ true
      → system.streams_allocated ≡ true
      → init_env system.cores system.nodes system.cpus g.env ≡ some env
      → init_partitions true env (params_of params) g.partitions ≡ some (ret, parts)
      → (streams' : Streams) × (g' : Global) × (rt' : Runtime) × (init_global abt system params
            streams g rt
          ≡ some (pos 0, streams', g', rt'))
        × (g'.max_xstreams ≡ env.nr_cores)
        × (g'.partitions ≡ parts)
        × ((j : ℕ) → j < env.nr_cores → Configured parts.partition_map j (g'.store.streams j))
        × (g'.mappings.nr_mappings ≡ g.mappings.nr_mappings)
  unfolding init_global
  init_global-Configured system params streams g rt env parts ret map_ok streams_ok env_ok
        parts_ok =
      let (streams', t, rt', runs, max, v) =
        init_streams-Configured env.nr_cores parts.partition_map streams g.store rt in
      let g' : Global = record {
        env = env;
        power = init_power env g.power;
        store = t;
        mappings = g.mappings;
        max_xstreams = streams'.max_xstreams;
        partitions = parts;
        rebalance = (init_rebalance system.thread_ret).1;
      } in
      (streams', g', rt', rw (map_ok, env_ok, parts_ok, streams_ok, runs) refl, max, refl, v, refl)
