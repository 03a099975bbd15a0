-- ===== src/Stream/Noted.antt =====
-- Measuring depths and clearing times (src/stream/stream.c) are steps of Stream/Steps.
use abtst.Common.{
  ℕ, ◌≡◌, refl, subst, some, >>=-eq-some, List, [], ◌∷◌, range, Bool-cases, inl, inr,
}
use abtst.Common.Int.{to_u32}
use abtst.Load.{Load}
use abtst.Common.Store.{Array}
use abtst.Stream.{Stream, Store, put_stream, update_qdepth, set_qdepth, reset_sleep_time}
use abtst.Stream.Stat.{
  get_stream_ios, calc_stream_qdepth, measure, measure_all, update_streams_stat, wake, wake_all,
  reset_streams_stat,
}
use abtst.Stream.Steps.{Step, Steps, trans-Steps}

one : {s t : Store} → Step s t → Steps s t
one {s} {t} step = Steps.then s s t (Steps.none s) step

measure-noted :
    (loads : Array Load) (st st' : Stream)
    → measure loads st ≡ some st'
    → (n : ℕ) × (update_qdepth st n ≡ st')
unfolding measure update_qdepth
measure-noted loads st st' h = elim (Bool-cases st.used) [
  | inl used ↦
      let (ios, _, h1) = >>=-eq-some (get_stream_ios loads st) _ (rw used at h) in
      (calc_stream_qdepth st (to_u32 ios), cc)
  | inr idle ↦ (st.total_qdepth, let h1 = rw idle at h in cc)
]

wake-noted : (st : Stream) → (n : ℕ) × (◌≡◌ {A = Stream} (record st { sleep_nsec = n }) (wake st))
unfolding wake reset_sleep_time
wake-noted st = elim (Bool-cases st.used) [
  | inl used ↦ (0, rw used refl)
  | inr idle ↦ (st.sleep_nsec, rw idle refl)
]

measure_all-Steps : (is : List ℕ) (s t : Store) → measure_all is s ≡ some t → Steps s t
unfolding measure_all set_qdepth
measure_all-Steps [] s t h = let e : s ≡ t = cc in subst (Steps s) e (Steps.none s)
measure_all-Steps (i ∷ is) s t h =
    let (st, first, rest) = >>=-eq-some (measure s.loads (s.streams i)) _ h in
    let (n, e) = measure-noted s.loads (s.streams i) st first in
    trans-Steps (subst (λ st. Steps s (put_stream i st s)) e (one (Step.measured i n s)))
      (measure_all-Steps is (put_stream i st s) t rest)

pub update_streams_stat-Steps :
    (nr_cores : ℕ) (s t : Store) → update_streams_stat nr_cores s ≡ some t → Steps s t
unfolding update_streams_stat
update_streams_stat-Steps nr_cores s t h = measure_all-Steps (range 0 nr_cores) s t h

wake_all-Steps : (is : List ℕ) (s : Store) → Steps s (wake_all is s)
unfolding wake_all
wake_all-Steps [] s = Steps.none s
wake_all-Steps (i ∷ is) s =
    let (n, e) = wake-noted (s.streams i) in
    trans-Steps (subst (λ st. Steps s (put_stream i st s)) e (one (Step.slept i n s)))
      (wake_all-Steps is (put_stream i (wake (s.streams i)) s))

pub reset_streams_stat-Steps : (max : ℕ) (s : Store) → Steps s (reset_streams_stat max s)
unfolding reset_streams_stat
reset_streams_stat-Steps max s = wake_all-Steps (range 0 max) s
