-- ===== src/Stream/Shown.antt =====
-- What the bars of src/stream/stream.c show.
use abtst.Common.{
  ℕ, ◌+◌, ◌*◌, ◌/◌, ◌^◌, ◌-◌, ◌<◌, ◌≤◌, ◌≡◌, ◌⊎◌, refl, ◌∙◌, Bool, true, false, not, Option, some,
  List, [], ◌∷◌, arith, ltb, ◌==◌, if◌then◌else◌, Bool-cases, inl, inr,
}
use native.Mathlib.Nat.{div-add-mod, mod-lt, mul-add}
use abtst.Common.Store.{Array}
use abtst.Env.{Env, Numa, cores_of, numas}
use abtst.Stream.{Stream, get_sleep_time}
use abtst.Stream.Display.{
  Bar, bars_of, all_bars, sleep_stars, print_stream_sleeptime, qdepth_stars, print_stream_qdepth,
}

quotient_bounds : (n u : ℕ) → 0 < u → (u * (n / u + 1 - 1) ≤ n) × (n < u * (n / u + 1))
quotient_bounds n u pos =
    let whole = div-add-mod n u in
    let part = mod-lt n pos in
    let next : u * (n / u + 1) ≡ u * (n / u) + u * 1 = mul-add u (n / u) 1 in
    let same : n / u + 1 - 1 ≡ n / u = omega arith in
    (rw same (omega (arith, whole)), omega (arith, whole, part, next))

-- A displayed interval: that many stars are for the time that the stream slept.
abbrev pub IsTime : ℕ → ℕ → ℕ → Type 0
IsTime interval nsec stars =
    ((nsec ≡ 0) × (stars ≡ 0))
    ⊎ ((0 < nsec)
        × (100000000 * interval * (stars - 1) ≤ nsec)
        × (nsec < 100000000 * interval * stars))

sleep_stars-IsTime :
    (interval : ℕ) (st : Stream)
    → 0 < interval
    → interval < 22
    → (n : ℕ) × (sleep_stars interval st ≡ some n) × IsTime interval st.sleep_nsec n
unfolding sleep_stars get_sleep_time
sleep_stars-IsTime interval st low high = elim (Bool-cases (st.sleep_nsec == 0)) [
  | inl awake ↦ (0, rw awake refl, inl (ground arith, refl))
  | inr slept ↦
      let unit = 100000000 * interval in
      let some_unit : (unit == 0) ≡ false = ground arith in
      let fits : ltb unit (2 ^ 31) ≡ true = ground arith in
      (
        st.sleep_nsec / unit + 1,
        rw (slept, some_unit, fits) refl,
        let (low', high') = quotient_bounds st.sleep_nsec unit (ground arith) in
            inr (ground arith, low', high'),
      )
]

-- The lines show the streams of a list that are in use, in its order: each has one, with its partition
-- and a good number of stars, and no other stream has.
pub data Shows (Good : Stream → ℕ → Type 0) (streams : Array Stream)
    : List ℕ → List Bar → Type 0 where
  done : Shows Good streams [] []
  unused :
      (j : ℕ) (js : List ℕ) (bars : List Bar)
      → (streams j).used ≡ false
      → Shows Good streams js bars
      → Shows Good streams (j ∷ js) bars
  shown :
      (j n : ℕ) (js : List ℕ) (bars : List Bar)
      → (streams j).used ≡ true
      → Good (streams j) n
      → Shows Good streams js bars
      → Shows Good streams
          (j ∷ js)
          (record { core = j; colour = (streams j).part_id; stars = n } ∷ bars)

-- The NUMAs of a list, each with the lines of its streams.
pub data ShowsAll (Good : Stream → ℕ → Type 0) (streams : Array Stream) (info : Array Numa)
    : List ℕ → List (ℕ × List Bar) → Type 0 where
  done : ShowsAll Good streams info [] []
  numa :
      (i : ℕ) (is : List ℕ) (bars : List Bar) (rest : List (ℕ × List Bar))
      → Shows Good streams (cores_of (info i)) bars
      → ShowsAll Good streams info is rest
      → ShowsAll Good streams info (i ∷ is) ((i, bars) ∷ rest)

used_line : {A : Type 0} (b : Bool) (x y : A) → b ≡ true → (if not b then x else y) ≡ y
used_line true x y e = refl
used_line false x y e = absurd (ground arith)

idle_line : {A : Type 0} (b : Bool) (x y : A) → b ≡ false → (if not b then x else y) ≡ x
idle_line true x y e = absurd (ground arith)
idle_line false x y e = refl

module _ (stars : Stream → Option ℕ) (Good : Stream → ℕ → Type 0) (streams : Array Stream)
    (good : (st : Stream) → (n : ℕ) × (stars st ≡ some n) × Good st n) where
  bars_of-Shows :
      (js : List ℕ)
      → (bars : List Bar) × (bars_of stars streams js ≡ some bars) × Shows Good streams js bars
  unfolding bars_of
  bars_of-Shows [] = ([], refl, Shows.done)
  bars_of-Shows (j ∷ js) =
      let (bars, ran, v) = bars_of-Shows js in
      elim (Bool-cases (streams j).used) [
        | inr idle ↦
            (bars, rw ran (idle_line (streams j).used _ _ idle), Shows.unused j js bars idle v)
        | inl used ↦
            let (n, e, g) = good (streams j) in
            (
              record { core = j; colour = (streams j).part_id; stars = n } ∷ bars,
              rw ran (used_line (streams j).used _ _ used ∙ rw e refl),
              Shows.shown j n js bars used g v,
            )
      ]

  all_bars-ShowsAll :
      (info : Array Numa) (is : List ℕ)
      → (lines : List (ℕ × List Bar)) × (all_bars stars streams info is ≡ some lines)
        × ShowsAll Good streams info is lines
  unfolding all_bars
  all_bars-ShowsAll info [] = ([], refl, ShowsAll.done)
  all_bars-ShowsAll info (i ∷ is) =
      let (bars, ran, v) = bars_of-Shows (cores_of (info i)) in
      let (rest, ran', v') = all_bars-ShowsAll info is in
      ((i, bars) ∷ rest, rw (ran, ran') refl, ShowsAll.numa i is bars rest v v')

-- An interval of 1 to 21 seconds: the display of the times that the streams slept is defined. It has
-- every NUMA, with a line for each stream in use on its cores and for no other; a stream that did not
-- sleep has no star, and the stars of another stand for its time, in tenths of the interval, rounded
-- up past the exact tenth.
pub print_stream_sleeptime-ShowsAll :
    (env : Env) (interval : ℕ) (streams : Array Stream)
    → 0 < interval
    → interval < 22
    → (lines : List (ℕ × List Bar)) × (print_stream_sleeptime env interval streams ≡ some lines)
      × ShowsAll (λ st n. IsTime interval st.sleep_nsec n) streams env.numa_info (numas env) lines
unfolding print_stream_sleeptime
print_stream_sleeptime-ShowsAll env interval streams low high =
    all_bars-ShowsAll (sleep_stars interval) (λ st n. IsTime interval st.sleep_nsec n) streams
      (λ st. sleep_stars-IsTime interval st low high) env.numa_info (numas env)

-- The display of the depths is always defined.
pub print_stream_qdepth-some :
    (env : Env) (streams : Array Stream)
    → (lines : List (ℕ × List Bar)) × (print_stream_qdepth env streams ≡ some lines)
unfolding print_stream_qdepth
print_stream_qdepth-some env streams =
    let (lines, runs, v) =
      all_bars-ShowsAll (λ st. some (qdepth_stars st)) (λ st n. n ≡ qdepth_stars st) streams
        (λ st. (qdepth_stars st, refl, refl)) env.numa_info (numas env) in
    (lines, runs)
