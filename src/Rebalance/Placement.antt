-- ===== src/Rebalance/Placement.antt =====
-- What all levels of src/rebalance/rebalance.c together keep of the places of the loads.
use abtst.Common.{ℕ, ◌≡◌, some, List}
use abtst.Stream.{SortParam}
use abtst.Stream.Move.{IsCounted}
use abtst.Stream.Placed.{IsPlaced, IsQueued, frame, cargo}
use abtst.Stream.Rehoused.{Steps-Rehoused}
use abtst.Global.{Global}
use abtst.Rebalance.Round.{reb_levels}
use abtst.Rebalance.Across.{reb_levels-Moves}

-- What the levels leave of a state in which every queued load is where it is to run.
pub record Housed (g g' : Global) : Type 0 where
  pub placed : IsPlaced g'.store
  pub counted : (i : ℕ) → IsCounted (g'.store.streams i)
  pub there : (a : ℕ) → IsQueued a g.store → IsQueued a g'.store
  pub back : (a : ℕ) → IsQueued a g'.store → IsQueued a g.store
  pub frames : (j : ℕ) → frame (g'.store.streams j) ≡ frame (g.store.streams j)
  pub cargos : (a : ℕ) → cargo (g'.store.loads a) ≡ cargo (g.store.loads a)

-- Whatever the level and the sort, power saving included, where a queued load stands in one queue,
-- once, and is to run on that queue's stream, and the kept lengths are right: if the levels are
-- defined, this is so after them, the loads queued are those that were, of a stream only its queue,
-- that queue's length, its partition and its statistics may differ, and of a load only where it is to
-- run.
pub reb_levels-Housed :
    (qsort : List SortParam → List SortParam) (level : ℕ) (g g' : Global)
    → IsPlaced g.store
    → ((i : ℕ) → IsCounted (g.store.streams i))
    → reb_levels qsort level g ≡ some g'
    → Housed g g'
reb_levels-Housed qsort level g g' placed counted runs =
    let kept = Steps-Rehoused (reb_levels-Moves qsort level g g' runs) in
    record {
      placed = kept.placed placed;
      counted = kept.counted counted;
      there = kept.there;
      back = kept.back;
      frames = kept.frames;
      cargos = kept.cargos;
    }
