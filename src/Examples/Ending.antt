-- ===== src/Examples/Ending.antt =====
-- Runs of src/app/main.c as a whole.
use abtst.Common.{ℕ, ◌≡◌, ◌⊎◌, refl, suc, true, false, Option, none, some}
use abtst.Common.Int.{ℤ, pos, is_zero_ℤ}
use abtst.Env.{init_env}
use abtst.Partition.{init_partitions}
use abtst.Mapping.Create.{create_mapping}
use abtst.Global.{Global}
use abtst.Stream.Lifecycle.{Streams, StreamArray, init_streams, finalize_streams}
use abtst.App.{default_partitions, init_global, finalize_global}
use abtst.App.Submit.{Requests}
use abtst.App.Main.{Outside, run_main}
use abtst.App.Ended.{Stopped, run_main-Stopped}
use abtst.Examples.Machine.{global, counting}

-- A machine of 18 cores on which the memory for the loads of the first mapping cannot be had.
abbrev short : Outside ℕ
short = record {
  params_allocated = true;
  abt_init = λ rt. (pos 0, rt);
  abt_finalize = λ rt. rt;
  system = record {
    cores = 18;
    nodes = 1;
    cpus = λ i. none;
    map_allocated = true;
    streams_allocated = true;
    thread_ret = pos 0;
  };
  hash_loads = none;
  random_loads = none;
  rand = 5;
  more_rounds = 0;
}

abbrev create : (pool arg : ℕ) → ℕ → ℤ × ℕ
create pool arg rt = (pos 0, suc rt)

abbrev rest : ℕ → Requests ℕ → Requests ℕ
rest n r = r

abbrev no_streams : Streams
no_streams = record {
  nr_xstreams = 0;
  init_xstreams = 0;
  max_xstreams = 0;
  array = StreamArray.null;
}

abbrev left : Option (ℤ × Global × ℕ) → ℤ × Global × ℕ
left none = (pos 7, global, 0)
left (some x) = x

abbrev end : ℤ × Global × ℕ
end = left (run_main counting create rest short no_streams global 1)

main_ends : run_main counting create rest short no_streams global 1 ≡ some (end.0, end.1, end.2)
unfolding run_main init_global init_env init_partitions default_partitions create_mapping
    init_streams finalize_global finalize_streams
main_ends = refl

run_main-Stopped_example :
    ((is_zero_ℤ end.0 ≡ false) × (end.1 ≡ global))
    ⊎ Stopped counting short no_streams global 1 end.0 end.1
run_main-Stopped_example =
    run_main-Stopped counting create rest short no_streams global end.1 1 end.2 end.0 main_ends
