-- ===== src/Stream/Sizes.antt =====
-- When measuring the depths (src/stream/stream.c) does not overflow: where no load is large, and the
-- loads of a queue together fit an int.
use abtst.Common.{
  ℕ, ◌+◌, ◌-◌, ◌*◌, ◌^◌, ◌≤◌, ◌<◌, ◌≡◌, refl, true, inl, inr, some, List, [], ◌∷◌, arith, length,
  ◌==◌, range, Bool-cases, mem, mem-range_iff,
}
use abtst.Common.Int.{ℤ, pos, to_int, to_u32, ◌+ℤ◌}
use abtst.Common.Store.{Array}
use abtst.Load.{Load, get_load_size, set_migrating}
use abtst.Stream.{
  Stream, Store, put_stream, update_qdepth, move_load, add_load_to_stream, remove_load_from_stream,
  set_qdepth,
}
use abtst.Stream.Stat.{
  add_int, add_sizes, get_stream_ios, calc_stream_qdepth, measure, measure_all, update_streams_stat,
}
use abtst.Stream.Steps.{Step, Steps}

-- No load has more than `most` packets that have not ended.
abbrev pub IsSmall : ℕ → Store → Type 0
IsSmall most s = (l : ℕ) → (s.loads l).pkt_started - (s.loads l).pkt_ended ≤ most

get_load_size-small :
    (most : ℕ) (load : Load)
    → load.pkt_started - load.pkt_ended ≤ most
    → most < 2 ^ 31
    → get_load_size load ≡ pos (load.pkt_started - load.pkt_ended)
unfolding get_load_size to_int
get_load_size-small most load h fits = ground arith

-- A sum that stays in the range of an int.
add_int-fits : (a n : ℕ) → a + n < 2 ^ 31 → add_int (pos a) (pos n) ≡ some (pos (a + n))
unfolding add_int ◌+ℤ◌
add_int-fits a n h = ground arith

length-times : (x : ℕ) (q : List ℕ) (most : ℕ) → length (x ∷ q) * most ≡ most + length q * most
length-times x q most = grind arith

module _ (most : ℕ) (loads : Array Load)
    (small : (l : ℕ) → (loads l).pkt_started - (loads l).pkt_ended ≤ most) where
  add_sizes-some :
      (q : List ℕ) (a : ℕ)
      → a + length q * most < 2 ^ 31
      → (sum : ℤ) × (add_sizes loads q (pos a) ≡ some sum)
  unfolding add_sizes
  add_sizes-some [] a h = (pos a, refl)
  add_sizes-some (l ∷ q) a h =
      let times = length-times l q most in
      let size = (loads l).pkt_started - (loads l).pkt_ended in
      let e = get_load_size-small most (loads l) (small l) (omega (arith, times, h)) in
      let (sum, runs) = add_sizes-some q (a + size) (omega (arith, times, small l, h)) in
      (sum, rw (e, add_int-fits a size (omega (arith, times, small l, h))) runs)

  measure-some :
      (st : Stream)
      → length st.load_q * most < 2 ^ 31
      → (st' : Stream) × (measure loads st ≡ some st') × (st'.load_q ≡ st.load_q)
  unfolding measure get_stream_ios update_qdepth
  measure-some st h = elim (Bool-cases st.used) [
    | inl used ↦
        let (sum, runs) = add_sizes-some st.load_q 0 (omega (arith, h)) in
        (update_qdepth st (calc_stream_qdepth st (to_u32 sum)), rw (used, runs) refl, refl)
    | inr idle ↦ (st, rw idle refl, refl)
  ]

measure_all-some :
    (most : ℕ) (is : List ℕ) (s : Store)
    → IsSmall most s
    → ((i : ℕ) → mem i is ≡ true → length (s.streams i).load_q * most < 2 ^ 31)
    → (t : Store) × (measure_all is s ≡ some t)
unfolding measure_all
measure_all-some most [] s small fits = (s, refl)
measure_all-some most (i ∷ is) s small fits =
    let (st, runs, queue) = measure-some most s.loads small (s.streams i) (fits i (ground arith)) in
    let (t, rest) = measure_all-some most is (put_stream i st s) small (λ j m.
      elim (Bool-cases (j == i)) [
        | inl here ↦ rw (here, queue) (fits i (ground arith))
        | inr other ↦ rw other (fits j (ground (arith, m, other)))
      ]) in
    (t, rw runs rest)

-- The queues of the machine's cores fit: a measurement is defined.
pub update_streams_stat-some :
    (most nr_cores : ℕ) (s : Store)
    → IsSmall most s
    → ((i : ℕ) → i < nr_cores → length (s.streams i).load_q * most < 2 ^ 31)
    → (t : Store) × (update_streams_stat nr_cores s ≡ some t)
unfolding update_streams_stat
update_streams_stat-some most nr_cores s small fits =
    measure_all-some most (range 0 nr_cores) s small
      (λ i m. fits i (let bounds = mem-range_iff i nr_cores 0 m in omega arith))

-- Moves change no load's packets.
Step-IsSmall : {s t : Store} (most : ℕ) → Step s t → IsSmall most s → IsSmall most t
unfolding move_load add_load_to_stream remove_load_from_stream set_qdepth set_migrating
Step-IsSmall most (Step.moved from to l s m) small = λ k. elim (Bool-cases (k == l)) [
  | inl here ↦ let e : k ≡ l = ground (arith, here) in rw (here) (small l)
  | inr other ↦ rw other (small k)
]
Step-IsSmall most (Step.measured i qdepth s) small = small
Step-IsSmall most (Step.lent i part_id s) small = small
Step-IsSmall most (Step.slept i nsec s) small = small

pub Steps-IsSmall : {s t : Store} (most : ℕ) → Steps s t → IsSmall most s → IsSmall most t
Steps-IsSmall most (Steps.none s) small = small
Steps-IsSmall most (Steps.then s t u before step) small =
    Step-IsSmall most step (Steps-IsSmall most before small)
