-- ===== src/Rebalance/Requests/Removal.antt =====
-- What abtst_reb_process_remove_core (src/rebalance/rebalance.c) leaves of the stream to be removed.
use abtst.Common.{ℕ, ◌^◌, ◌<◌, ◌≤◌, ◌≡◌, refl, true, some, List, arith, leb}
use abtst.Common.Int.{negsuc, to_u32}
use abtst.Abt.{Abt}
use abtst.Stream.{SortParam}
use abtst.Global.{Global}
use abtst.Rebalance.Requests.{process_remove_core}

module _ (abt : Abt) (qsort : List SortParam → List SortParam) where
  open abt use {Runtime}

  -- A request to remove any core, which is what a negative core stands for, changes nothing on a
  -- machine of at most 2 ^ 31 cores.
  pub process_remove_core_any :
      (n : ℕ) (g : Global) (rt : Runtime)
      → n < 2 ^ 31
      → g.env.nr_cores ≤ 2 ^ 31
      → process_remove_core abt qsort (negsuc n) g rt ≡ some (g, rt)
  unfolding process_remove_core to_u32
  process_remove_core_any n g rt small few =
      let over : leb g.env.nr_cores (to_u32 (negsuc n)) ≡ true = ground arith in rw over refl
