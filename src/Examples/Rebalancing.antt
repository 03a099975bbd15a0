-- ===== src/Examples/Rebalancing.antt =====
-- Runs of the models of src/rebalance/rebalance.c, with an insertion sort for the qsort of the C
-- library.
use mathlib.Core.List.{Permᴰ}
use mathlib.Core.List.Permᴰ
use abtst.Common.{
  ℕ, ◌≡◌, ◌≤◌, refl, arith, inl, inr, some, List, [], ◌∷◌, if◌then◌else◌, Bool-cases, length,
}
use abtst.Common.Int.{◌≤ℤ◌, ltb_ℤ}
use abtst.Env.{cores_of}
use abtst.Stream.{SortParam}
use abtst.Stream.Shift.{weigh}
use abtst.Global.{Global}
use abtst.Rebalance.Sorting.{Ascending, IsSort}
use abtst.Rebalance.Ready.{IsReady, Contained, cores_used-le}
use abtst.Rebalance.InPartition.{reb_in_partitions}
use abtst.Rebalance.InPartition.Containment.{reb_in_partitions-Contained}
use abtst.Common.Int.{negsuc}
use abtst.Common.{suc}
use abtst.Rebalance.InNuma.{give_stream}
use abtst.Rebalance.InNuma.Given.{Given, give_stream-Given}
use abtst.Rebalance.Requests.{process_remove_core}
use abtst.Rebalance.Requests.Removal.{process_remove_core_any}
use abtst.Common.{zero, none, ◌<◌}
use abtst.Partition.Stats.{cores_used}
use abtst.Env.Update.{InUse, streams_used}
use abtst.Rebalance.InNuma.{reb_in_numa}
use abtst.Rebalance.InNuma.Faults.{reb_in_numa_idle}
use abtst.Rebalance.Round.{reb_func}
use abtst.Rebalance.Round.Rounds.{reb_func-Kept}
use abtst.Stream.{Store}
use abtst.Stream.Sizes.{IsSmall}
use abtst.Partition.Room.{PartsFit, StatsFit}
use abtst.Stream.Quiet.{IsQuiet}
use abtst.Common.{◌+◌}
use abtst.Rebalance.Round.Kept.{IsSound, Kept}
use abtst.Common.{All}
use abtst.Rebalance.Sorting.{Params, sort_streams}
use abtst.Rebalance.Sorting.Entries.{IsEntry, sort_streams-some}
use abtst.Examples.Machine.{counting, global, streams, numa_info}

unfoldable insert : SortParam → List SortParam → List SortParam
insert p [] = p ∷ []
insert p (q ∷ qs) = let rest = insert p qs in if ltb_ℤ q.ios p.ios then q ∷ rest else p ∷ q ∷ qs

unfoldable pub isort : List SortParam → List SortParam
unfolding insert
isort [] = []
isort (p ∷ ps) = insert p (isort ps)

insert-perm : (p : SortParam) (qs : List SortParam) → Permᴰ (insert p qs) (p ∷ qs)
unfolding insert
insert-perm p [] = Permᴰ.refl (p ∷ [])
insert-perm p (q ∷ qs) = elim (Bool-cases (ltb_ℤ q.ios p.ios)) [
  | inl small ↦ rw small (Permᴰ.trans (Permᴰ.cons refl (insert-perm p qs)) (Permᴰ.swap refl refl))
  | inr large ↦ rw large (Permᴰ.refl (p ∷ q ∷ qs))
]

isort-perm : (ps : List SortParam) → Permᴰ (isort ps) ps
unfolding isort
isort-perm [] = Permᴰ.nil
isort-perm (p ∷ ps) = Permᴰ.trans (insert-perm p (isort ps)) (Permᴰ.cons refl (isort-perm ps))

-- An entry may stand before an ascending list whose first entry is not below it.
insert-Ascending_after :
    (q p : SortParam) (qs : List SortParam)
    → q.ios ≤ℤ p.ios
    → Ascending (q ∷ qs)
    → Ascending (q ∷ insert p qs)
unfolding insert
insert-Ascending_after q p [] h v = (h, tt)
insert-Ascending_after q p (r ∷ rs) h v = elim (Bool-cases (ltb_ℤ r.ios p.ios)) [
  | inl small ↦ rw small (v.0, insert-Ascending_after r p rs (ground arith) v.1)
  | inr large ↦ rw large (h, (ground arith, v.1))
]

insert-Ascending : (p : SortParam) (qs : List SortParam) → Ascending qs → Ascending (insert p qs)
unfolding insert
insert-Ascending p [] v = tt
insert-Ascending p (q ∷ qs) v = elim (Bool-cases (ltb_ℤ q.ios p.ios)) [
  | inl small ↦ rw small (insert-Ascending_after q p qs (ground arith) v)
  | inr large ↦ rw large (ground arith, v)
]

isort-Ascending : (ps : List SortParam) → Ascending (isort ps)
unfolding isort
isort-Ascending [] = tt
isort-Ascending (p ∷ ps) = insert-Ascending p (isort ps) (isort-Ascending ps)

pub isort-IsSort : IsSort isort
isort-IsSort = record { permutes = isort-perm; ascends = isort-Ascending }

two_cores : (k : ℕ) → length (cores_of (numa_info k)) ≤ 2
two_cores k = ground arith

pub global-IsReady : IsReady global
unfolding weigh
global-IsReady = record {
  cores_exist = λ k h. ground arith;
  cores_fit = omega arith;
  all_counted = λ i. ground arith;
  few_loads = omega arith;
  up_to_date =
      λ p k h. omega (arith, cores_used-le p streams (cores_of (numa_info k)), two_cores k);
}

reb_in_partitions-Contained_example :
    (g' : Global) × (reb_in_partitions isort global ≡ some g') × Contained global g'
reb_in_partitions-Contained_example =
    reb_in_partitions-Contained isort isort-IsSort global global-IsReady

pub global-StatsFit : StatsFit global.env global.store
global-StatsFit = record {
  numas_fit = omega arith;
  parts_fit = λ k h. few_parts (cores_of (numa_info k));
}
  where
    few_parts : (js : List ℕ) → PartsFit streams js
    few_parts [] = tt
    few_parts (j ∷ js) = ((λ used. ground arith), few_parts js)

give_stream-Given_example :
    (g' : Global) × (give_stream global 1 0 1 ≡ some g') × Given global 1 0 1 g'
give_stream-Given_example =
    give_stream-Given global 1 0 1 (λ e. omega arith) refl (omega arith) global-StatsFit
      (omega arith)

process_remove_core_any_example :
    process_remove_core counting isort (negsuc 0) global 1 ≡ some (global, 1)
process_remove_core_any_example =
    process_remove_core_any counting isort 0 global 1 (omega arith) (omega arith)

-- The machine at the default level.
abbrev calm : Global
calm = record global {
  rebalance = record { rebalance_level = 1; rebalance_interval = 1; verbose = 0 };
}

numas_used : (k : ℕ) → k < 2 → InUse calm.store (numa_info k)
unfolding streams_used
numas_used zero h = (omega arith, omega arith)
numas_used (suc zero) h = (omega arith, omega arith)
numas_used (suc (suc k)) h = absurd (omega arith)

calm-IsSound : IsSound 100 calm
unfolding weigh
calm-IsSound = record {
  cores_exist = global-IsReady.cores_exist;
  cores_fit = omega arith;
  numas_used = numas_used;
  all_counted = global-IsReady.all_counted;
  few_loads = global-IsReady.few_loads;
  stats_fit = global-StatsFit;
  small = λ l. ground arith;
  few_packets = omega arith;
}

-- Between two rounds, a packet of every load ends.
abbrev traffic : ℕ → Store → Store
traffic n s = record s { loads = λ l. record (s.loads l) { pkt_ended = (s.loads l).pkt_ended + 1 } }

traffic-IsSmall : (n : ℕ) (s : Store) → IsSmall 100 s → IsSmall 100 (traffic n s)
traffic-IsSmall n s small l = omega (arith, small l)

traffic-IsQuiet : (n : ℕ) (s : Store) → IsQuiet s (traffic n s)
traffic-IsQuiet n s = record { same = λ i. refl }

reb_func-Kept_example : (g' : Global) × (reb_func isort traffic 3 calm ≡ some g') × Kept 100 calm g'
reb_func-Kept_example =
    reb_func-Kept isort isort-IsSort traffic traffic-IsQuiet 100 traffic-IsSmall 3 calm calm-IsSound
      refl (omega arith) (omega arith)

-- Partition 0 runs no stream in the second NUMA.
reb_in_numa_idle_example : reb_in_numa isort global 1 ≡ none
unfolding cores_used
reb_in_numa_idle_example = reb_in_numa_idle isort global 1 0 (omega arith) (omega arith) refl

sort_streams-some_example :
    (params : Params) × (sort_streams isort global (some 0) (some 0) ≡ some params)
    × All (IsEntry (some 0) streams (cores_of (numa_info 0))) params.entries
    × Ascending params.entries
    × (length params.entries ≡ cores_used 0 streams (cores_of (numa_info 0)))
unfolding cores_used
sort_streams-some_example =
    sort_streams-some isort isort-IsSort global 0 0 (omega arith) (omega arith)
