-- ===== src/Stream.antt =====
-- include/abtst_stream.h and src/stream/stream.c: the streams, the loads queued on them, and the
-- operations that move loads between two streams. A stream is named by its index in the array
-- `streams`, which is its core; a queue `load_q` lists the addresses of its loads, head first.
pub mod Move
pub mod Steps
pub mod Sizes
pub mod Placed
pub mod Rehoused
pub mod Noted
pub mod Combine
pub mod Choose
pub mod Rebalance
pub mod Balance
pub mod Shift
pub mod Stat
pub mod Display
pub mod Shown
pub mod Lifecycle
pub mod Quiet
use abtst.Common.{
  ℕ, ◌/◌, Bool, true, false, not, ◌&&◌, ◌||◌, Option, some, List, [], ◌∷◌, ◌++◌, leb, ◌==◌,
  if◌then◌else◌, require, ◌>>◌, length, erase, add_u32, sub_u32,
}
use abtst.Common.Int.{ℤ, pos, negsuc, ◌+ℤ◌, ◌-ℤ◌, ltb_ℤ, lt_three_halves, is_zero_ℤ, to_u32}
use abtst.Common.Store.{Array, write}
use abtst.Load.{Load, set_migrating, get_load_size, loads_per_xstream}

pub record Stream : Type 0 where
  pub rank : ℕ
  pub used : Bool
  pub part_id : ℕ
  pub xstream : ℕ
  pub pool : ℕ
  pub sched : ℕ
  pub load_q : List ℕ
  pub nr_loads : ℕ
  pub blocking : Bool
  pub total_qdepth : ℕ
  pub sleep_nsec : ℕ

-- The memory that the streams and the loads of all mappings occupy.
pub record Store : Type 0 where
  pub streams : Array Stream
  pub loads : Array Load

-- `ios` is the depth that an entry is sorted by; `stream` names a stream, and in the lists of
-- partitions and of NUMAs the number that the code casts to a pointer.
pub record SortParam : Type 0 where
  pub ios : ℤ
  pub stream : ℕ

unfoldable pub init_stat : Stream → Stream
init_stat stream = record stream { total_qdepth = 0; sleep_nsec = 0 }

unfoldable pub get_qdepth : Stream → ℕ
get_qdepth stream = stream.total_qdepth

unfoldable pub update_qdepth : Stream → ℕ → Stream
update_qdepth stream qdepth = record stream { total_qdepth = qdepth }

unfoldable pub get_sleep_time : Stream → ℕ
get_sleep_time stream = stream.sleep_nsec

unfoldable pub update_sleep_time : Stream → ℕ → Stream
update_sleep_time stream nsec = record stream { sleep_nsec = add_u32 stream.sleep_nsec nsec }

unfoldable pub reset_sleep_time : Stream → Stream
reset_sleep_time stream = record stream { sleep_nsec = 0 }

abbrev pub get_rank : Stream → ℕ
get_rank stream = stream.rank

abbrev pub is_blocking : Stream → Bool
is_blocking stream = stream.blocking

unfoldable pub set_blocking : Stream → Bool → Stream
set_blocking stream blocking = record stream { blocking = blocking }

abbrev pub get_partition_id : Stream → ℕ
get_partition_id stream = stream.part_id

unfoldable pub set_partition_id : Stream → ℕ → Stream
set_partition_id stream part_id = record stream { part_id = part_id }

-- Writing through a pointer to a stream or to a load.
abbrev pub put_stream : ℕ → Stream → Store → Store
put_stream i stream s = record s { streams = write s.streams i stream }

abbrev pub put_load : ℕ → Load → Store → Store
put_load l load s = record s { loads = write s.loads l load }

unfoldable pub add_load_to_stream : ℕ → ℕ → Store → Store
add_load_to_stream i entry s =
    put_stream i
      (record (s.streams i) {
        load_q = entry ∷ (s.streams i).load_q;
        nr_loads = add_u32 (s.streams i).nr_loads 1;
      })
      s

unfoldable pub remove_load_from_stream : ℕ → ℕ → Store → Store
remove_load_from_stream i entry s =
    put_stream i
      (record (s.streams i) {
        load_q = erase entry (s.streams i).load_q;
        nr_loads = sub_u32 (s.streams i).nr_loads 1;
      })
      s

-- The loop that hands the collected loads over, one after the other.
unfoldable pub move_load : ℕ → ℕ → ℕ → Store → Store
unfolding add_load_to_stream remove_load_from_stream set_migrating
move_load from to l s =
    let s' = add_load_to_stream to l (remove_load_from_stream from l s) in
    put_load l (set_migrating (s'.loads l) true (s'.streams to).rank) s'

unfoldable pub move_loads : ℕ → ℕ → List ℕ → Store → Store
move_loads from to [] s = s
move_loads from to (l ∷ ls) s = move_loads from to ls (move_load from to l s)

unfoldable pub set_qdepth : ℕ → ℕ → Store → Store
unfolding update_qdepth
set_qdepth i qdepth s = put_stream i (update_qdepth (s.streams i) qdepth) s

-- The buffer has room for `nr_loads` pointers: a longer queue would be written past its end.
unfoldable pub combine_streams : ℕ → ℕ → Store → Option (ℤ × Store)
unfolding move_loads move_load set_qdepth get_qdepth
combine_streams from to s = if (s.streams from).nr_loads == 0 then some (pos 0, s) else do
  require (leb (length (s.streams from).load_q) (s.streams from).nr_loads)
  let t = move_loads from to (s.streams from).load_q s
  let u = set_qdepth to (add_u32 (get_qdepth (t.streams from)) (get_qdepth (t.streams to))) t
  some (pos 0, set_qdepth from 0 u)

-- What the selection of loads has reached: the depths that the two streams would have, the loads
-- chosen so far, and the smallest load seen.
pub record Picked : Type 0 where
  pub ios : ℤ
  pub from_ios : ℤ
  pub mloads : List ℕ
  pub min_load : ℕ
  pub min_lsize : ℤ

unfoldable pub pick : ℕ → ℤ → Picked → Picked
pick l lsize p = record p {
  ios = p.ios +ℤ lsize;
  from_ios = p.from_ios -ℤ lsize;
  mloads = p.mloads ++ l ∷ [];
}

-- The first pass: the loads that are away from the stream on which they began.
unfoldable pub pick_strayed : Array Load → List ℕ → Picked → Picked
unfolding pick
pick_strayed loads [] p = p
pick_strayed loads (l ∷ q) p =
    pick_strayed loads q
      (if (loads l).curr_rank == (loads l).init_rank then p else pick l (get_load_size (loads l)) p)

unfoldable pub note_smallest : ℕ → ℤ → Picked → Picked
note_smallest l lsize p =
    if is_zero_ℤ p.min_lsize || ltb_ℤ lsize p.min_lsize
    then record p { min_lsize = lsize; min_load = l }
    else p

unfoldable pub pick_fitting_one : ℕ → ℕ → ℤ → Picked → Picked
unfolding pick
pick_fitting_one avg l lsize p =
    if leb avg (to_u32 (p.from_ios -ℤ lsize)) && leb (to_u32 (p.ios +ℤ lsize)) avg
    then pick l lsize p
    else p

-- The second pass: loads that keep `from` at the average or above and `to` at it or below. It ends
-- at two loads if `to` is not empty, and when `to` has reached the average.
unfoldable pub pick_fitting : ℕ → ℕ → Array Load → List ℕ → Picked → Picked
unfolding pick_fitting_one note_smallest
pick_fitting avg to_loads loads [] p = p
pick_fitting avg to_loads loads (l ∷ q) p =
    let lsize = get_load_size (loads l) in
    let p' = pick_fitting_one avg l lsize (note_smallest l lsize p) in
    let full = leb (loads_per_xstream / 16) (length p'.mloads) && not (to_loads == 0) in
    let stop = full || (to_u32 p'.ios == avg) in
    elim (is_zero_ℤ lsize) [
      | true ↦ pick_fitting avg to_loads loads q p
      | false ↦ elim stop [ true ↦ p' | false ↦ pick_fitting avg to_loads loads q p' ]
    ]

-- The last resort, where every load is too large to fit.
unfoldable pub pick_smallest : SortParam → SortParam → Picked → Picked
pick_smallest p1 p2 p =
    if not (is_zero_ℤ p.min_lsize)
      && lt_three_halves (p1.ios +ℤ p.min_lsize) (p2.ios -ℤ p.min_lsize)
    then record p { ios = p.ios +ℤ p.min_lsize; mloads = p.min_load ∷ [] }
    else p

abbrev pub or_if_empty : Picked → Picked → Picked
or_if_empty p next = elim p.mloads [ [] ↦ next | x ∷ xs ↦ p ]

-- The three passes, each made only if the ones before chose nothing.
unfoldable pub choose_loads : SortParam → SortParam → ℕ → Store → Picked
unfolding pick_strayed pick_fitting pick_smallest
choose_loads p1 p2 avg s =
    let q = (s.streams p2.stream).load_q in
    let start : Picked = record {
      ios = p1.ios;
      from_ios = p2.ios;
      mloads = [];
      min_load = 0;
      min_lsize = pos 0;
    } in
    let strayed = pick_strayed s.loads q start in
    let fitting =
      or_if_empty strayed (pick_fitting avg (s.streams p1.stream).nr_loads s.loads q strayed) in
    or_if_empty fitting (pick_smallest p1 p2 fitting)

unfoldable pub not_needed : SortParam → SortParam → ℕ → Bool
not_needed p1 p2 avg =
    leb avg (to_u32 p1.ios) || leb (to_u32 p2.ios) avg || lt_three_halves p2.ios p1.ios

-- The loads chosen are moved and the two depths are set.
unfoldable pub hand_over : SortParam → SortParam → Picked → Store → ℤ × Store
unfolding move_loads move_load set_qdepth
hand_over p1 p2 p s =
    let t = move_loads p2.stream p1.stream p.mloads s in
    let u = set_qdepth p2.stream (to_u32 (p2.ios -ℤ (p.ios -ℤ p1.ios))) t in
    (pos 0, set_qdepth p1.stream (to_u32 p.ios) u)

-- What follows the three passes, by the list that they chose. The buffer has room for `nr_loads`
-- pointers.
unfoldable pub transfer : SortParam → SortParam → Store → Picked → List ℕ → Option (ℤ × Store)
unfolding hand_over
transfer p1 p2 s chosen [] = some (negsuc 0, s)
transfer p1 p2 s chosen (l ∷ ls) =
    require (leb (length (l ∷ ls)) (s.streams p2.stream).nr_loads)
    >> some (hand_over p1 p2 chosen s)

unfoldable pub rebalance_streams : SortParam → SortParam → ℕ → Store → Option (ℤ × Store)
unfolding choose_loads not_needed transfer
rebalance_streams p1 p2 avg s =
    let chosen = choose_loads p1 p2 avg s in
    if not_needed p1 p2 avg then some (negsuc 0, s) else transfer p1 p2 s chosen chosen.mloads
