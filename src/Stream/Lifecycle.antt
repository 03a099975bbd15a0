-- ===== src/Stream/Lifecycle.antt =====
-- How src/stream/stream.c makes the streams and ends them. An execution stream that was never
-- created has the handle 0.
use abtst.Common.{
  ℕ, Bool, true, false, not, Option, none, some, List, [], ◌∷◌, ◌-◌, ◌+◌, ◌==◌, if◌then◌else◌,
  range,
}
use abtst.Common.Int.{ℤ, pos, negsuc, is_zero_ℤ}
use abtst.Common.Store.{Array}
use abtst.Abt.{Abt}
use abtst.Sched.{init_sched, free_sched}
use abtst.Stream.{Stream, Store, init_stat, put_stream}

-- What the pointer `streams` points to: nothing, the array, or an array that was freed.
pub data StreamArray : Type 0 where
  null : StreamArray
  live : StreamArray
  freed : StreamArray

abbrev pub is_live : StreamArray → Bool
is_live StreamArray.null = false
is_live StreamArray.live = true
is_live StreamArray.freed = false

-- abtst_streams; what is in the array is in the store.
pub record Streams : Type 0 where
  pub nr_xstreams : ℕ
  pub init_xstreams : ℕ
  pub max_xstreams : ℕ
  pub array : StreamArray

-- The loop of apply_stream_config, with its count.
unfoldable pub apply_config : Array (Option ℕ) → List ℕ → ℕ × Store → ℕ × Store
apply_config map [] state = state
apply_config map (i ∷ is) (cnt, s) = apply_config map is (elim (map i) [
  | none ↦ (cnt, s)
  | some p ↦ (cnt + 1, put_stream i (record (s.streams i) { used = true; part_id = p }) s)
])

-- The fields that init_xstream sets before it calls Argobots.
unfoldable pub fresh_stream : ℕ → Stream → Stream
unfolding init_stat
fresh_stream rank stream = init_stat (record stream { rank = rank; load_q = []; nr_loads = 0 })

abbrev pub no_stream : Stream
no_stream = record {
  rank = 0;
  used = false;
  part_id = 0;
  xstream = 0;
  pool = 0;
  sched = 0;
  load_q = [];
  nr_loads = 0;
  blocking = false;
  total_qdepth = 0;
  sleep_nsec = 0;
}

-- 0, or -1 for any error.
abbrev fail_of : ℤ → ℤ
fail_of ret = if is_zero_ℤ ret then pos 0 else negsuc 0

module _ (abt : Abt) where
  open abt use {
    Runtime, pool_create_basic, xstream_self, xstream_get_main_pool, xstream_create_with_rank,
    xstream_join, xstream_free,
  }

  -- The main stream runs already.
  unfoldable pub init_main : Stream → Runtime → ℤ × Stream × Runtime
  init_main stream rt =
      let (ret, xstream, rt') = xstream_self rt in
      let (ret', pool, rt'') = xstream_get_main_pool xstream rt' in
      if is_zero_ℤ ret
      then (fail_of ret', record stream { xstream = xstream; pool = pool }, rt'')
      else (negsuc 0, record stream { xstream = xstream }, rt')

  -- A stream in use gets a pool, a scheduler and an execution stream. `i` is its address.
  unfoldable pub init_used : ℕ → Stream → Runtime → ℤ × Stream × Runtime
  unfolding init_sched
  init_used i stream rt =
      let (ret, pool, rt1) = pool_create_basic rt in
      let st1 = record stream { pool = pool } in
      let (ret1, sched, rt2) = init_sched abt st1.sched pool i rt1 in
      let st2 = record st1 { sched = sched } in
      let (ret2, xstream, rt3) = xstream_create_with_rank sched st2.rank rt2 in
      if not (is_zero_ℤ ret)
      then (negsuc 0, st1, rt1)
      else if not (is_zero_ℤ ret1)
      then (negsuc 0, st2, rt2)
      else (fail_of ret2, record st2 { xstream = xstream }, rt3)

  unfoldable pub init_xstream : ℕ → ℕ → Store → Runtime → ℤ × Store × Runtime
  unfolding fresh_stream init_main init_used
  init_xstream i rank s rt =
      let fresh = fresh_stream rank (s.streams i) in
      let (ret, stream, rt') =
        if rank == 0
        then init_main fresh rt
        else if fresh.used
        then init_used i fresh rt
        else (pos 0, fresh, rt) in
      (ret, put_stream i stream s, rt')

  unfoldable pub init_all : List ℕ → Store → Runtime → ℤ × Store × Runtime
  unfolding init_xstream
  init_all [] s rt = (pos 0, s, rt)
  init_all (i ∷ is) s rt =
      let (ret, s', rt') = init_xstream i i s rt in
      let rest = init_all is s' rt' in if is_zero_ℤ ret then rest else (negsuc 0, s', rt')

  -- abtst_init_streams; `allocated` says whether calloc succeeds.
  unfoldable pub init_streams :
      Bool → ℕ → Array (Option ℕ) → Streams → Store → Runtime → ℤ × Streams × Store × Runtime
  unfolding apply_config init_all
  init_streams allocated nr_cores map streams s rt =
      let zeroed = record s { streams = λ _. no_stream } in
      let (cnt, configured) = apply_config map (range 0 nr_cores) (0, zeroed) in
      let (ret, s', rt') = init_all (range 0 nr_cores) configured rt in
      if allocated
      then (
        ret,
        record {
          nr_xstreams = cnt;
          init_xstreams = cnt;
          max_xstreams = nr_cores;
          array = if is_zero_ℤ ret then StreamArray.live else StreamArray.freed;
        },
        s',
        rt',
      )
      else (
        negsuc 0,
        record {
          nr_xstreams = 1;
          init_xstreams = 1;
          max_xstreams = nr_cores;
          array = StreamArray.null;
        },
        s,
        rt,
      )

  unfoldable pub join_all : Array Stream → List ℕ → ℤ → Runtime → ℤ × Runtime
  join_all streams [] ret rt = (ret, rt)
  join_all streams (i ∷ is) ret rt =
      let (ret', rt') = xstream_join (streams i).xstream rt in
      if (streams i).xstream == 0 then join_all streams is ret rt else join_all streams is ret' rt'

  unfoldable pub free_all : List ℕ → ℤ → Store → Runtime → ℤ × Store × Runtime
  unfolding free_sched
  free_all [] ret s rt = (ret, s, rt)
  free_all (i ∷ is) ret s rt =
      let (ret', xstream, rt') = xstream_free (s.streams i).xstream rt in
      let s' = put_stream i (record (s.streams i) { xstream = xstream }) s in
      if (s.streams i).xstream == 0
      then free_all is ret s rt
      else free_all is ret' s' (free_sched abt (s.streams i).sched rt')

  -- All streams but the main one are joined, then freed; the last code is returned.
  unfoldable pub end_streams : ℕ → Store → Runtime → ℤ × Store × Runtime
  unfolding join_all free_all
  end_streams max_xstreams s rt =
      let others = range 1 (max_xstreams - 1) in
      let (ret, rt') = join_all s.streams others (pos 0) rt in free_all others ret s rt'

  -- abtst_finalize_streams, which has nothing to do without an array. What it does with an array that
  -- was freed is undefined.
  unfoldable pub finalize_streams : Streams → Store → Runtime → Option (ℤ × Store × Runtime)
  unfolding end_streams
  finalize_streams streams s rt = elim streams.array [
    | StreamArray.null ↦ some (pos 0, s, rt)
    | StreamArray.live ↦ some (end_streams streams.max_xstreams s rt)
    | StreamArray.freed ↦ none
  ]
