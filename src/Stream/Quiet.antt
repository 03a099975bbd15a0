-- ===== src/Stream/Quiet.antt =====
-- Operations of src/stream/stream.c that leave the queues alone.
use abtst.Common.{
  ℕ, ◌≡◌, refl, sym, subst, ◌∙◌, ap, inl, inr, some, List, [], ◌∷◌, arith, range, ◌==◌, Bool-cases,
  >>=-eq-some,
}
use abtst.Common.Int.{to_u32}
use abtst.Common.Store.{Array}
use abtst.Load.{Load}
use abtst.Stream.{Stream, Store, put_stream, update_qdepth}
use abtst.Stream.Move.{IsCounted}
use abtst.Stream.Shift.{weigh}
use abtst.Stream.Stat.{
  get_stream_ios, calc_stream_qdepth, measure, measure_all, update_streams_stat, wake, wake_all,
  reset_streams_stat,
}

-- A stream but for its statistics.
abbrev pub unmeasured : Stream → Stream
unmeasured st = record st { total_qdepth = 0; sleep_nsec = 0 }

-- Only statistics differ.
pub record IsQuiet (s t : Store) : Type 0 where
  pub same : (i : ℕ) → unmeasured (t.streams i) ≡ unmeasured (s.streams i)

measure-same :
    (loads : Array Load) (st st' : Stream)
    → measure loads st ≡ some st'
    → unmeasured st' ≡ unmeasured st
unfolding measure update_qdepth
measure-same loads st st' h = elim (Bool-cases st.used) [
  | inl used ↦
      let (ios, _, h1) = >>=-eq-some (get_stream_ios loads st) _ (rw used at h) in
      let e : update_qdepth st (calc_stream_qdepth st (to_u32 ios)) ≡ st' = cc in
      ap unmeasured (sym e)
  | inr idle ↦ let h1 = rw idle at h in let e : st ≡ st' = cc in ap unmeasured (sym e)
]

measure_all-IsQuiet : (is : List ℕ) (s t : Store) → measure_all is s ≡ some t → IsQuiet s t
unfolding measure_all
measure_all-IsQuiet [] s t h =
    let e : s ≡ t = cc in subst (IsQuiet s) e (record { same = λ i. refl })
measure_all-IsQuiet (k ∷ is) s t h =
    let (st, first, rest) = >>=-eq-some (measure s.loads (s.streams k)) _ h in
    let same = measure-same s.loads (s.streams k) st first in
    record {
      same = λ i.
          (measure_all-IsQuiet is (put_stream k st s) t rest).same i ∙ elim (Bool-cases (i == k)) [
            | inl here ↦ let e : i ≡ k = ground (arith, here) in rw (here, e) same
            | inr other ↦ rw other refl
          ];
    }

wake_all-IsQuiet : (is : List ℕ) (s : Store) → IsQuiet s (wake_all is s)
unfolding wake_all wake
wake_all-IsQuiet [] s = record { same = λ i. refl }
wake_all-IsQuiet (k ∷ is) s = record {
  same = λ i. (wake_all-IsQuiet is (put_stream k (wake (s.streams k)) s)).same i ∙ ground arith;
}

pub update_streams_stat-IsQuiet :
    (nr_cores : ℕ) (s t : Store) → update_streams_stat nr_cores s ≡ some t → IsQuiet s t
unfolding update_streams_stat
update_streams_stat-IsQuiet nr_cores s t h = measure_all-IsQuiet (range 0 nr_cores) s t h

pub reset_streams_stat-IsQuiet : (max : ℕ) (s : Store) → IsQuiet s (reset_streams_stat max s)
unfolding reset_streams_stat
reset_streams_stat-IsQuiet max s = wake_all-IsQuiet (range 0 max) s

module _ {s t : Store} (quiet : IsQuiet s t) where
  pub same_queue : (i : ℕ) → (t.streams i).load_q ≡ (s.streams i).load_q
  same_queue i = ap (λ (st : Stream). st.load_q) (quiet.same i)

  pub same_use : (i : ℕ) → (t.streams i).used ≡ (s.streams i).used
  same_use i = ap (λ (st : Stream). st.used) (quiet.same i)

  pub quiet-IsCounted : ((i : ℕ) → IsCounted (s.streams i)) → (i : ℕ) → IsCounted (t.streams i)
  quiet-IsCounted c i = subst (λ st. IsCounted st) (sym (quiet.same i)) (c i)

  pub quiet_weight : (m : List ℕ → ℕ) (is : List ℕ) → weigh m is t ≡ weigh m is s
  unfolding weigh
  quiet_weight m [] = refl
  quiet_weight m (i ∷ is) = rw (same_queue i, quiet_weight m is) refl
