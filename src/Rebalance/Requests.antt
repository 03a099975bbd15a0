-- ===== src/Rebalance/Requests.antt =====
-- Cores are added and removed (src/rebalance/rebalance.c), on requests that wait in a queue
-- (src/rebalance/reb_req.c). The queue is the list of its requests, first one first.
pub mod Removal
pub mod Lock
pub mod Moves
pub mod Order
pub mod Exclusion
use abtst.Common.{
  ℕ, Bool, true, false, not, ◌&&◌, ◌||◌, Option, none, some, List, [], ◌∷◌, ◌++◌, leb, ◌==◌,
  if◌then◌else◌, require, ◌>>=◌, ◌>>◌,
}
use abtst.Common.Int.{ℤ, pos, negsuc, ltb_ℤ, is_zero_ℤ, to_int, to_u32}
use abtst.Common.Store.{Array}
use abtst.Abt.{Abt}
use abtst.Env.{Env, cores_of, get_numa_id, get_numa_info}
use abtst.Sched.{free_sched}
use abtst.Stream.{Stream, Store, SortParam, put_stream, combine_streams}
use abtst.Stream.Lifecycle.{init_xstream}
use abtst.Global.{Global}

-- `other` is any number that is neither of the two.
pub data RequestType : Type 0 where
  add_core : RequestType
  rem_core : RequestType
  other : RequestType

pub record Request : Type 0 where
  pub type : RequestType
  pub core : ℤ

-- abtst_reb_req_add_core; `allocated` says whether malloc succeeds.
unfoldable pub req_add_core : Bool → Env → ℤ → List Request → ℤ × List Request
req_add_core allocated env core queue =
    if not (ltb_ℤ (pos 0) core) || leb env.nr_cores (to_u32 core)
    then (negsuc 0, queue)
    else if not allocated
    then (negsuc 0, queue)
    else (pos 0, queue ++ record { type = RequestType.add_core; core = core } ∷ [])

-- abtst_reb_req_remove_core, which compares as signed numbers.
unfoldable pub req_remove_core : Bool → Env → ℤ → List Request → ℤ × List Request
req_remove_core allocated env core queue =
    if not (ltb_ℤ core (to_int env.nr_cores))
    then (negsuc 0, queue)
    else if not allocated
    then (negsuc 0, queue)
    else (pos 0, queue ++ record { type = RequestType.rem_core; core = core } ∷ [])

-- The streams in use on the cores `is`, but `from`.
unfoldable pub others_on : Array Stream → ℕ → List ℕ → List SortParam
others_on streams from [] = []
others_on streams from (i ∷ is) =
    let rest = others_on streams from is in
    if (streams i).used && not (i == from)
    then record { ios = to_int (streams i).total_qdepth; stream = i } ∷ rest
    else rest

module _ (abt : Abt) where
  open abt use {Runtime, xstream_join, xstream_free}

  -- abtst_reb_process_add_core, on a core of the machine.
  unfoldable pub process_add_core : ℕ → Global → Runtime → Option (Global × Runtime)
  unfolding init_xstream
  process_add_core core g rt =
      let stream = g.store.streams core in
      let s = put_stream core (record stream { used = true }) g.store in
      let (ret, s', rt') = init_xstream abt core core s rt in
      if stream.used
      then some (g, rt)
      else do require (stream.rank == core); some (record g { store = s' }, rt')

  -- An execution stream is joined and freed, and its stream is no longer in use.
  unfoldable pub end_stream : ℕ → Store → Runtime → Store × Runtime
  unfolding free_sched
  end_stream i s rt =
      let (ret, rt1) = xstream_join (s.streams i).xstream rt in
      let (ret', xstream, rt2) = xstream_free (s.streams i).xstream rt1 in
      let rt3 = free_sched abt (s.streams i).sched rt2 in
      (put_stream i (record (s.streams i) { xstream = xstream; used = false }) s, rt3)

  module _ (qsort : List SortParam → List SortParam) where
    -- What follows the collection of the other streams. The variable `stream` is left by the loop
    -- at the last core of the NUMA.
    unfoldable pub retire : ℕ → ℕ → List SortParam → Store → Runtime → Option (Store × Runtime)
    unfolding end_stream
    retire from last [] s rt = none
    retire from last (to ∷ ps) s rt = do
      (ret, s') ← combine_streams from to.stream s
      some (if is_zero_ℤ ret then end_stream last s' rt else (s', rt))

    unfoldable pub retire_any : ℕ → ℕ → List SortParam → Store → Runtime → Option (Store × Runtime)
    unfolding retire
    retire_any from last [] s rt = some (s, rt)
    retire_any from last (p ∷ ps) s rt = retire from last (qsort (p ∷ ps)) s rt

    -- abtst_reb_process_remove_core. The core is compared with the number of cores as an unsigned
    -- number, which a negative one exceeds. A core of no NUMA is an access through NULL.
    unfoldable pub process_remove_core : ℤ → Global → Runtime → Option (Global × Runtime)
    unfolding others_on retire_any
    process_remove_core core g rt =
        let from = to_u32 core in
        if leb g.env.nr_cores from || not (g.store.streams from).used then some (g, rt) else do
          numa ← get_numa_id from g.env
          info ← get_numa_info g.env numa
          let others = others_on g.store.streams from (cores_of info)
          (s, rt') ← retire_any from info.end_core others g.store rt
          some (record g { store = s }, rt')

    unfoldable pub process_request : Request → Global → Runtime → Option (Global × Runtime)
    unfolding process_add_core process_remove_core
    process_request req g rt = elim req.type [
      | RequestType.add_core ↦ process_add_core (to_u32 req.core) g rt
      | RequestType.rem_core ↦ process_remove_core req.core g rt
      | RequestType.other ↦ some (g, rt)
    ]

    -- abtst_reb_process_requests, where no request comes in meanwhile: the queue is empty after it.
    unfoldable pub process_requests : List Request → Global → Runtime → Option (Global × Runtime)
    unfolding process_request
    process_requests [] g rt = some (g, rt)
    process_requests (req ∷ reqs) g rt = do
      (g', rt') ← process_request req g rt
      process_requests reqs g' rt'
