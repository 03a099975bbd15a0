-- ===== src/Rebalance/InNuma/Given.antt =====
-- What the end of reb_in_numa (src/rebalance/rebalance.c) does to the stream that it gives away.
use mathlib.Core.List.{reverse_aux}
use abtst.Common.{
  ℕ, ◌<◌, ◌≡◌, ◌≢◌, refl, sym, ap, ◌∙◌, inl, inr, some, List, [], ◌∷◌, arith, length, u32_mod, ◌==◌,
  Bool-cases,
}
use abtst.Partition.Stats.{IsUpToDate, update_partition_stats-IsUpToDate}
use abtst.Partition.Room.{PartsFit, StatsFit}
use abtst.Partition.{max_partitions}
use abtst.Common.Store.{Array, write}
use abtst.Env.{cores_of}
use abtst.Stream.{Stream, Store, set_partition_id, put_stream}
use abtst.Stream.Move.{IsCounted}
use abtst.Stream.Combine.{settled, combine_streams-Combined}
use abtst.Global.{Global, renew_partitions}
use abtst.Rebalance.InNuma.{give_stream}

-- The state `g'` is `g` after the stream `from` went to the partition `to_pid` and its loads to the
-- stream `to`: no other stream changes its partition, and the statistics count the streams anew.
pub record Given (g : Global) (from to to_pid : ℕ) (g' : Global) : Type 0 where
  pub same_env : g'.env ≡ g.env
  pub given : (g'.store.streams from).part_id ≡ to_pid
  pub kept : (i : ℕ) → i ≢ from → (g'.store.streams i).part_id ≡ (g.store.streams i).part_id
  pub emptied : (g'.store.streams from).load_q ≡ []
  pub joined :
      (g'.store.streams to).load_q
      ≡ reverse_aux (g.store.streams from).load_q (g.store.streams to).load_q
  pub elsewhere : (i : ℕ) → i ≢ from → i ≢ to → g'.store.streams i ≡ g.store.streams i
  pub up_to_date : IsUpToDate g'.env g'.store g'.partitions

-- The statistics still have room after a stream changed its partition.
fits_still :
    (streams streams' : Array Stream) (from to_pid : ℕ) (js : List ℕ)
    → ((j : ℕ) → settled (streams' j) ≡ settled (streams j))
    → to_pid < max_partitions
    → PartsFit streams js
    → PartsFit (write streams' from (set_partition_id (streams' from) to_pid)) js
unfolding set_partition_id
fits_still streams streams' from to_pid [] same new fits = tt
fits_still streams streams' from to_pid (j ∷ js) same new fits = (
  elim (Bool-cases (j == from)) [
    | inl here ↦ rw here (λ used. new)
    | inr other ↦ rw other (λ used.
        let same_use = ap (λ (st : Stream). st.used) (same j) in
        let part = ap (λ (st : Stream). st.part_id) (same j) in
        omega (arith, part, fits.0 (sym same_use ∙ used)))
  ],
  fits_still streams streams' from to_pid js same new fits.1,
)

given-StatsFit :
    (g : Global) (from to_pid : ℕ) (t : Store)
    → ((j : ℕ) → settled (t.streams j) ≡ settled (g.store.streams j))
    → StatsFit g.env g.store
    → to_pid < max_partitions
    → StatsFit g.env (put_stream from (set_partition_id (t.streams from) to_pid) t)
given-StatsFit g from to_pid t same room new = record {
  numas_fit = room.numas_fit;
  parts_fit = λ k h.
      fits_still g.store.streams t.streams from to_pid (cores_of (g.env.numa_info k)) same new
        (room.parts_fit k h);
}

-- A stream of fewer than 2 ^ 32 loads that keeps its length is given to a partition, its loads to
-- another stream, where the arrays of statistics have room for the NUMAs, the partitions of the streams
-- in use and the new one: the call is defined, all loads go over, only this stream changes its partition, no
-- third stream changes, and the partition statistics are up to date afterwards.
pub give_stream-Given :
    (g : Global) (from to to_pid : ℕ)
    → from ≢ to
    → IsCounted (g.store.streams from)
    → length (g.store.streams from).load_q < u32_mod
    → StatsFit g.env g.store
    → to_pid < max_partitions
    → (g' : Global) × (give_stream g from to to_pid ≡ some g') × Given g from to to_pid g'
unfolding give_stream renew_partitions set_partition_id
give_stream-Given g from to to_pid ne c fits room new =
    let (t, runs, v) = combine_streams-Combined ne g.store c fits in
    let s = put_stream from (set_partition_id (t.streams from) to_pid) t in
    let (parts, updated, counts) =
      update_partition_stats-IsUpToDate g.env s g.partitions
        (given-StatsFit g from to_pid t v.fields room new) in
    (
      record g { store = s; partitions = parts },
      rw (runs, updated) refl,
      record {
        same_env = refl;
        given = ground arith;
        kept = λ i out. ground (arith, ap (λ (st : Stream). st.part_id) (v.fields i));
        emptied = ground (arith, v.emptied);
        elsewhere = λ i out off. ground (arith, v.elsewhere i out off);
        joined = ground (arith, v.joined);
        up_to_date = counts;
      },
    )
