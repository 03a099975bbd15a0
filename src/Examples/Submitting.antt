-- ===== src/Examples/Submitting.antt =====
-- A request submitted on the example machine.
use abtst.Common.{ℕ, suc, true, false, none, some, List, [], ◌∷◌}
use abtst.Common.Int.{ℤ, pos}
use abtst.Common.Store.{write}
use abtst.Load.{inc_started}
use abtst.Mapping.Table.{MappingType, Scheme, Mapping}
use abtst.Stream.{put_load}
use abtst.App.Submit.{Requests, free_slot, count_ended}
use abtst.App.UnderWay.{Flow}
use abtst.Examples.Machine.{global, store, loads}

abbrev create : (pool arg : ℕ) → ℕ → ℤ × ℕ
create pool arg rt = (pos 0, suc rt)

abbrev mapping : Mapping
mapping = record {
  mapping_id = pos 0;
  partition_id = 0;
  type = MappingType.random;
  param = none;
  scheme = some Scheme.by_random;
  loads = record { partition_id = 0; nr_loads = 2; loads = 200 };
}

abbrev before : Requests ℕ
before = record {
  params = λ i. record { used = false; key = record { lba = 0; volume_id = 0 }; load = 0 };
  lba = 0;
  cnt = 0;
  global = record global {
    store = record store { loads = λ l. record (loads l) { pkt_started = 0 } };
    mappings = record { nr_mappings = 1; mappings = λ k. mapping };
  };
  rt = 0;
}

abbrev after : Requests ℕ
after = record {
  params =
      write before.params 5
        (record { used = true; key = record { lba = 0; volume_id = 1 }; load = 201 });
  lba = 65536;
  cnt = 1;
  global = record (before.global) {
    store = put_load 201 (inc_started (before.global.store.loads 201)) before.global.store;
  };
  rt = 1;
}

abbrev loads_used : List ℕ
loads_used = 200 ∷ 201 ∷ []

abbrev at_rest : Flow ℕ
at_rest = record { requests = before; running = []; ending = [] }

abbrev under_way : Flow ℕ
under_way = record { requests = after; running = 5 ∷ []; ending = [] }

-- The thread has freed its slot.
abbrev freed : Flow ℕ
freed = record { requests = free_slot 5 after; running = []; ending = 5 ∷ [] }

-- The thread has counted its end.
abbrev counted : Flow ℕ
counted = record { requests = count_ended 5 (free_slot 5 after); running = []; ending = [] }
