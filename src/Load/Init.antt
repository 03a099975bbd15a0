-- ===== src/Load/Init.antt =====
-- src/load/load.c: the loads of a mapping are made and dealt out to the streams of its partition.
use abtst.Common.{
  ℕ, ◌+◌, ◌-◌, ◌%◌, Bool, false, not, ◌&&◌, Option, none, some, List, [], ◌∷◌, ◌++◌, ◌==◌,
  if◌then◌else◌, range, require, ◌>>=◌, ◌>>◌,
}
use abtst.Common.Int.{ℤ, pos, negsuc, is_zero_ℤ}
use abtst.Common.Store.{Array}
use abtst.Abt.{Abt}
use abtst.Load.{Load}
use abtst.Stream.{Stream, Store, put_load, add_load_to_stream}
use abtst.Sched.{init_sub_sched}

-- The `loads` of the C struct is the address of the first load; the others follow it.
pub record Loads : Type 0 where
  pub partition_id : ℕ
  pub nr_loads : ℕ
  pub loads : ℕ

unfoldable pub serves : ℕ → Stream → Bool
serves p stream = stream.used && (p == stream.part_id)

unfoldable pub first_stream : ℕ → Array Stream → List ℕ → Option ℕ
unfolding serves
first_stream p streams [] = none
first_stream p streams (i ∷ is) = if serves p (streams i) then some i else first_stream p streams is

-- The two loops: from `start` to the end, then from 0 to `start`. `none` is NULL.
unfoldable pub search_order : ℕ → ℕ → List ℕ
search_order max s = range s (max - s) ++ range 0 s

unfoldable pub find_next_stream : ℕ → ℕ → ℕ → Array Stream → Option (Option ℕ)
unfolding first_stream search_order
find_next_stream max p start streams =
    require (not (max == 0)) >> some (first_stream p streams (search_order max (start % max)))

-- The fields that init_load sets before it calls Argobots.
unfoldable pub fresh_load : ℕ → Load → Load
fresh_load rank load = record load {
  pkt_started = 0;
  pkt_ended = 0;
  init_rank = rank;
  curr_rank = rank;
  dest_rank = rank;
  used = false;
}

abbrev no_load : Load
no_load = record {
  load_id = 0;
  used = false;
  pkt_started = 0;
  pkt_ended = 0;
  init_rank = 0;
  curr_rank = 0;
  dest_rank = 0;
  pool = 0;
  sched = 0;
}

-- The array as calloc returns it.
unfoldable pub zero_loads : ℕ → List ℕ → Store → Store
zero_loads base [] s = s
zero_loads base (i ∷ is) s = zero_loads base is (put_load (base + i) no_load s)

module _ (abt : Abt) where
  open abt use {Runtime, pool_create_basic, pool_add_sched}

  unfoldable pub init_load : ℕ → ℕ → Store → Runtime → ℤ × Store × Runtime
  unfolding fresh_load init_sub_sched
  init_load l rank s rt =
      let (ret, pool, rt') = pool_create_basic rt in
      let load = record (fresh_load rank (s.loads l)) { pool = pool } in
      let (ret', sched, rt'') = init_sub_sched abt load.sched pool l rt' in
      if is_zero_ℤ ret
      then (ret', put_load l (record load { sched = sched }) s, rt'')
      else (ret, put_load l load s, rt')

  -- One round of abtst_init_loads, for the load `i`: the code, and the next place to look at.
  unfoldable pub deal_load : ℕ → Loads → ℕ → ℕ → Store → Runtime → Option (ℤ × ℕ × Store × Runtime)
  unfolding find_next_stream init_load
  deal_load max loads i start s rt = do
    found ← find_next_stream max loads.partition_id start s.streams
    elim found [
      | none ↦ some (negsuc 0, start, s, rt)
      | some k ↦
          let l = loads.loads + i in
          let rank = (s.streams k).rank in
          let (ret, s', rt') =
            init_load l rank (put_load l (record (s.loads l) { load_id = i }) s) rt in
          let (ret', rt'') = pool_add_sched (s'.streams k).pool (s'.loads l).sched rt' in
          some (
            if not (is_zero_ℤ ret)
            then (negsuc 0, rank + 1, s', rt')
            else if not (is_zero_ℤ ret')
            then (negsuc 0, rank + 1, s', rt'')
            else (pos 0, rank + 1, add_load_to_stream k l s', rt''))
    ]

  unfoldable pub deal_loads :
      ℕ → Loads → List ℕ → ℕ → Store → Runtime → Option (ℤ × Store × Runtime)
  unfolding deal_load
  deal_loads max loads [] start s rt = some (pos 0, s, rt)
  deal_loads max loads (i ∷ is) start s rt = do
    (ret, start', s', rt') ← deal_load max loads i start s rt
    if is_zero_ℤ ret then deal_loads max loads is start' s' rt' else some (ret, s', rt')

  -- `base` is the address that calloc returns; with `none` it fails.
  unfoldable pub init_loads :
      Option ℕ → ℕ → Loads → Store → Runtime → Option (ℤ × Loads × Store × Runtime)
  unfolding deal_loads zero_loads
  init_loads none max loads s rt = some (negsuc 0, record loads { loads = 0 }, s, rt)
  init_loads (some base) max loads s rt = do
    let loads' = record loads { loads = base }
    let all = range 0 loads.nr_loads
    (ret, s', rt') ← deal_loads max loads' all 0 (zero_loads base all s) rt
    some (ret, loads', s', rt')
