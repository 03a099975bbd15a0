-- ===== src/Stream/Display.antt =====
-- The bars that src/stream/stream.c prints: the depth of each stream in use and the time that it slept.
use abtst.Common.{
  ℕ, ◌+◌, ◌*◌, ◌/◌, ◌^◌, not, Option, some, List, [], ◌∷◌, ltb, ◌==◌, if◌then◌else◌, require, ◌>>=◌,
  ◌>>◌, add_u32, sub_u32, range,
}
use abtst.Common.Store.{Array}
use abtst.Env.{Env, Numa, cores_of, numas}
use abtst.Stream.{Stream, get_partition_id, get_qdepth, get_sleep_time}

-- A line: the core, the partition that its colour is for, and the number of stars.
pub record Bar : Type 0 where
  pub core : ℕ
  pub colour : ℕ
  pub stars : ℕ

-- The streams of a NUMA that are in use. `stars` is undefined where the code is.
unfoldable pub bars_of : (Stream → Option ℕ) → Array Stream → List ℕ → Option (List Bar)
bars_of stars streams [] = some []
bars_of stars streams (j ∷ js) = do
  rest ← bars_of stars streams js
  if not (streams j).used
      then some rest
      else (stars (streams j) >>= λ n.
          some (record { core = j; colour = get_partition_id (streams j); stars = n } ∷ rest))

-- The NUMAs, each with its lines.
unfoldable pub all_bars :
    (Stream → Option ℕ) → Array Stream → Array Numa → List ℕ → Option (List (ℕ × List Bar))
unfolding bars_of
all_bars stars streams info [] = some []
all_bars stars streams info (i ∷ is) = do
  bars ← bars_of stars streams (cores_of (info i))
  rest ← all_bars stars streams info is
  some ((i, bars) ∷ rest)

abbrev pub min_level : ℕ
min_level = 10

-- One star for ten packets, rounded up.
unfoldable pub qdepth_stars : Stream → ℕ
unfolding get_qdepth
qdepth_stars stream = sub_u32 (add_u32 (get_qdepth stream) min_level) 1 / min_level

unfoldable pub print_stream_qdepth : Env → Array Stream → Option (List (ℕ × List Bar))
unfolding all_bars qdepth_stars
print_stream_qdepth env streams =
    all_bars (λ st. some (qdepth_stars st)) streams env.numa_info (numas env)

-- One star for a tenth of the interval, and one for having slept at all. The product is one of ints,
-- which must not overflow, and is only made where the stream has slept.
unfoldable pub sleep_stars : ℕ → Stream → Option ℕ
unfolding get_sleep_time
sleep_stars interval stream = if get_sleep_time stream == 0 then some 0 else do
  let unit = 100000000 * interval
  require (not (unit == 0))
  require (ltb unit (2 ^ 31))
  some (get_sleep_time stream / unit + 1)

unfoldable pub print_stream_sleeptime : Env → ℕ → Array Stream → Option (List (ℕ × List Bar))
unfolding all_bars sleep_stars
print_stream_sleeptime env interval streams =
    all_bars (sleep_stars interval) streams env.numa_info (numas env)

-- The lines of print_streams: a stream in use, its partition, its loads and its depth.
pub record Row : Type 0 where
  pub stream : ℕ
  pub part : ℕ
  pub loads : ℕ
  pub qdepth : ℕ

unfoldable pub rows_of : Array Stream → List ℕ → List Row
rows_of streams [] = []
rows_of streams (i ∷ is) =
    let rest = rows_of streams is in
    let st = streams i in
    if not st.used
    then rest
    else record { stream = i; part = st.part_id; loads = st.nr_loads; qdepth = st.total_qdepth }
      ∷ rest

-- print_streams.
unfoldable pub print_streams : (max : ℕ) → Array Stream → List Row
unfolding rows_of
print_streams max streams = rows_of streams (range 0 max)
