-- ===== src/Rebalance/Sorting.antt =====
-- sort_streams, sort_partitions and sort_numas (src/rebalance/rebalance.c). `qsort` of the C library
-- is a parameter; what it promises is `IsSort`. A failing calloc is not modelled.
pub mod Entries
use mathlib.Core.List.{Permᴰ}
use abtst.Common.{
  ℕ, ◌/◌, Bool, not, ◌&&◌, Option, none, some, List, [], ◌∷◌, ltb, ◌==◌, if◌then◌else◌, length,
  get_elem?, range, require, ◌>>=◌, ◌>>◌,
}
use abtst.Common.Int.{ℤ, pos, ◌≤ℤ◌, to_int}
use abtst.Common.Store.{Array}
use abtst.Env.{Env, cores_of, numas, get_numa_info}
use abtst.Partition.{Partitions}
use abtst.Power.{is_numa_in_ps_state, Power}
use abtst.Stream.{Stream, SortParam}
use abtst.Global.{Global}

abbrev pub min_ios_to_start_reb : ℕ
min_ios_to_start_reb = 100

-- Sorted as cmp_func has it, by depth, smallest first.
abbrev pub Ascending : List SortParam → Type 0
Ascending [] = Unit {0}
Ascending (p ∷ []) = Unit {0}
Ascending (p ∷ q ∷ ps) = (p.ios ≤ℤ q.ios) × Ascending (q ∷ ps)

-- The contract of qsort with cmp_func: the same entries, in ascending order.
pub record IsSort (qsort : List SortParam → List SortParam) : Type 0 where
  pub permutes : (ps : List SortParam) → Permᴰ (qsort ps) ps
  pub ascends : (ps : List SortParam) → Ascending (qsort ps)

-- An array that calloc made: `entries` are filled, the others of the `room` are zero.
pub record Params : Type 0 where
  pub entries : List SortParam
  pub room : ℕ

-- Reading the depth of an entry. Past the array it is undefined.
unfoldable pub ios_at : Params → ℕ → Option ℤ
ios_at params k = elim (get_elem? params.entries k) [
  | some p ↦ some p.ios
  | none ↦ require (ltb k params.room) >> some (pos 0)
]

-- Going through the pointer of an entry; that of an entry not filled is NULL.
unfoldable pub stream_at : Params → ℕ → Option ℕ
stream_at params k = elim (get_elem? params.entries k) [ some p ↦ some p.stream | none ↦ none ]

-- Whether the loop of sort_streams takes a stream; `none` is the partition -1, which is any.
abbrev pub selected : Option ℕ → Stream → Bool
selected none stream = stream.used
selected (some p) stream = stream.used && (p == stream.part_id)

unfoldable pub collect : Option ℕ → Array Stream → List ℕ → List SortParam
collect part streams [] = []
collect part streams (i ∷ is) =
    if selected part (streams i)
    then record { ios = to_int (streams i).total_qdepth; stream = i } ∷ collect part streams is
    else collect part streams is

-- The cores that a search is about; `none` is the NUMA -1, which is all of them.
unfoldable pub cores_in : Env → Option ℕ → Option (List ℕ)
cores_in env none = some (range 0 env.nr_cores)
cores_in env (some i) = do numa ← get_numa_info env i; some (cores_of numa)

module _ (qsort : List SortParam → List SortParam) where
  abbrev pub filled : List SortParam → ℕ → Option Params
  filled [] room = none
  filled (p ∷ ps) room = some (record { entries = qsort (p ∷ ps); room = room })

  -- `none` is NULL: no such NUMA, or no stream.
  unfoldable pub sort_streams : Global → Option ℕ → Option ℕ → Option Params
  unfolding collect cores_in
  sort_streams g numa part = do
    cores ← cores_in g.env numa
    filled (collect part g.store.streams cores) (length cores)

  -- The mean depth of a partition's streams in a NUMA; a division by zero where it has none.
  unfoldable pub partition_ios : Partitions → ℕ → ℕ → Option ℤ
  partition_ios parts numa i =
      require (not ((parts.numa_stats i numa).used_cores == 0))
      >> some (to_int ((parts.numa_stats i numa).qdepth / (parts.numa_stats i numa).used_cores))

  unfoldable pub list_partitions : Partitions → ℕ → List ℕ → Option (List SortParam)
  unfolding partition_ios
  list_partitions parts numa [] = some []
  list_partitions parts numa (i ∷ is) = do
    ios ← partition_ios parts numa i
    rest ← list_partitions parts numa is
    some (record { ios = ios; stream = i } ∷ rest)

  -- The code calls it with a NUMA only, never with -1.
  unfoldable pub sort_partitions : Partitions → ℕ → Option (List SortParam)
  unfolding list_partitions
  sort_partitions parts numa = do
    ps ← list_partitions parts numa (range 0 parts.nr_partitions)
    some (qsort ps)

  unfoldable pub list_numas : Bool → Bool → Env → Power → List ℕ → List SortParam
  list_numas sort_qdepth check_ps env power [] = []
  list_numas sort_qdepth check_ps env power (i ∷ is) =
      if check_ps && is_numa_in_ps_state i power
      then list_numas sort_qdepth check_ps env power is
      else record {
        ios =
            to_int
              (if sort_qdepth then (env.numa_stat i).avg_qdepth else (env.numa_stat i).used_cores);
        stream = i;
      }
        ∷ list_numas sort_qdepth check_ps env power is

  -- The number of NUMAs is the length of the list; one or none is not sorted.
  unfoldable pub sort_numas : Bool → Bool → Global → List SortParam
  unfolding list_numas
  sort_numas sort_qdepth check_ps g =
      let ps = list_numas sort_qdepth check_ps g.env g.power (numas g.env) in
      if ltb 1 (length ps) then qsort ps else ps
