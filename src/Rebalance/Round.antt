-- ===== src/Rebalance/Round.antt =====
-- The rebalancer's thread (src/rebalance/rebalance.c): the statistics are renewed, and the levels
-- run from the widest to the narrowest. What a round prints matters where printing is undefined.
pub mod Kept
pub mod Rounds
pub mod Lasting
use abtst.Common.{
  suc, zero, ℕ, Bool, true, false, ◌&&◌, Option, some, List, ltb, leb, if◌then◌else◌, ◌>>=◌, ◌>>◌,
}
use abtst.Stream.{Store, SortParam}
use abtst.Stream.Stat.{update_streams_stat, reset_streams_stat}
use abtst.Stream.Display.{Bar, print_stream_qdepth, print_stream_sleeptime}
use abtst.Global.{
  get_rebalance_level, get_rebalance_verbose, get_rebalance_interval, Global, renew_partitions,
  renew_numas, renew_power,
}
use abtst.Rebalance.InPartition.{reb_in_partitions}
use abtst.Rebalance.InNuma.{reb_in_numas}
use abtst.Rebalance.BetweenNumas.{reb_between_numas}
use abtst.Rebalance.PowerSaving.{reb_power_saving}

abbrev pub level_in_partition : ℕ
level_in_partition = 1

abbrev pub level_in_numa : ℕ
level_in_numa = 2

abbrev pub level_between_numa : ℕ
level_between_numa = 3

-- A call that prints some lines, where a condition holds.
abbrev pub shown_if : Bool → Option (List (ℕ × List Bar)) → Option {0} Unit
shown_if false lines = some tt
shown_if true lines = lines >>= λ _. some tt

-- abtst_reb_update_stat
unfoldable pub reb_update_stat : Global → Option Global
unfolding update_streams_stat renew_partitions renew_numas renew_power
reb_update_stat g = do
  let verbose = get_rebalance_verbose g.rebalance
  s ← update_streams_stat g.env.nr_cores g.store
  shown_if (leb 1 verbose) (print_stream_qdepth g.env s.streams)
  shown_if (leb 2 verbose)
      (print_stream_sleeptime g.env (get_rebalance_interval g.rebalance) s.streams)
  parts ← renew_partitions (record g { store = s })
  counted ← renew_numas parts
  renew_power counted

-- The levels that are switched on, in the order of the code.
abbrev pub at_level : ℕ → ℕ → (Global → Option Global) → Global → Option Global
at_level needed level pass g = if leb needed level then pass g else some g

module _ (qsort : List SortParam → List SortParam) where
  unfoldable pub reb_levels : ℕ → Global → Option Global
  reb_levels level g = do
    saved ← at_level level_between_numa level (reb_power_saving qsort) g
    between ← at_level level_between_numa level (reb_between_numas qsort) saved
    inside ← at_level level_in_numa level (reb_in_numas qsort) between
    at_level level_in_partition level (reb_in_partitions qsort) inside

  -- One round of the loop of reb_func, up to its sleep.
  unfoldable pub reb_round : Global → Option Global
  unfolding reb_update_stat reb_levels reset_streams_stat
  reb_round g = do
    renewed ← reb_update_stat g
    let level = get_rebalance_level renewed.rebalance
    moved ← reb_levels level renewed
    shown_if (leb 1 (get_rebalance_verbose moved.rebalance) && ltb 0 level)
        (print_stream_qdepth moved.env moved.store.streams)
    some (record moved { store = reset_streams_stat moved.max_xstreams moved.store })

  -- The loop of reb_func, watched for at most `n` rounds. `outside` is what the schedulers do to the
  -- streams and the loads between two rounds.
  unfoldable pub reb_func : (ℕ → Store → Store) → ℕ → Global → Option Global
  reb_func outside zero g = some g
  reb_func outside (suc n) g =
      let next =
        reb_round g >>= λ g'. reb_func outside n (record g' { store = outside n g'.store }) in
      if g.env.stopping then some g else next
