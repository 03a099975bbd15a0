-- ===== src/Stream/Stat.antt =====
-- The depths and sleeping times of src/stream/stream.c: how they are measured and cleared.
use abtst.Common.{ℕ, not, Option, none, some, List, [], ◌∷◌, if◌then◌else◌, range, ◌>>=◌}
use abtst.Common.Int.{ℤ, pos, ◌+ℤ◌, to_u32, fits_int}
use abtst.Common.Store.{Array}
use abtst.Load.{Load, get_load_size}
use abtst.Stream.{Stream, Store, put_stream, update_qdepth, reset_sleep_time}

-- A sum of ints, which is undefined where it leaves their range.
unfoldable pub add_int : ℤ → ℤ → Option ℤ
add_int x y = if fits_int (x +ℤ y) then some (x +ℤ y) else none

-- The loop of get_stream_ios, from a sum on.
unfoldable pub add_sizes : Array Load → List ℕ → ℤ → Option ℤ
unfolding add_int
add_sizes loads [] sum = some sum
add_sizes loads (l ∷ q) sum = do
  sum' ← add_int sum (get_load_size (loads l))
  add_sizes loads q sum'

unfoldable pub get_stream_ios : Array Load → Stream → Option ℤ
unfolding add_sizes
get_stream_ios loads stream = add_sizes loads stream.load_q (pos 0)

unfoldable pub calc_stream_qdepth : Stream → ℕ → ℕ
calc_stream_qdepth stream ios = ios

-- One stream, if it is in use.
unfoldable pub measure : Array Load → Stream → Option Stream
unfolding get_stream_ios calc_stream_qdepth update_qdepth
measure loads stream = if not stream.used then some stream else do
  ios ← get_stream_ios loads stream
  some (update_qdepth stream (calc_stream_qdepth stream (to_u32 ios)))

unfoldable pub measure_all : List ℕ → Store → Option Store
unfolding measure
measure_all [] s = some s
measure_all (i ∷ is) s = do
  stream ← measure s.loads (s.streams i)
  measure_all is (put_stream i stream s)

-- abtst_update_streams_stat
unfoldable pub update_streams_stat : ℕ → Store → Option Store
unfolding measure_all
update_streams_stat nr_cores s = measure_all (range 0 nr_cores) s

unfoldable pub wake : Stream → Stream
unfolding reset_sleep_time
wake stream = if stream.used then reset_sleep_time stream else stream

unfoldable pub wake_all : List ℕ → Store → Store
unfolding wake
wake_all [] s = s
wake_all (i ∷ is) s = wake_all is (put_stream i (wake (s.streams i)) s)

-- abtst_reset_streams_stat
unfoldable pub reset_streams_stat : ℕ → Store → Store
unfolding wake_all
reset_streams_stat max_xstreams s = wake_all (range 0 max_xstreams) s
