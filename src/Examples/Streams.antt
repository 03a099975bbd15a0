-- ===== src/Examples/Streams.antt =====
-- Runs of the models of src/stream/stream.c, src/load/load.c and src/mapping.
use abtst.Common.{ℕ, ◌≡◌, ◌≢◌, ◌⊎◌, refl, arith, some, Option, [], ◌∷◌, ◌<◌}
use abtst.Common.Int.{pos, negsuc, to_int, to_u32, ◌-ℤ◌, ◌+ℤ◌}
use abtst.Load.Init.{find_next_stream}
use abtst.Load.Next.{NextStream, find_next_stream-NextStream}
use abtst.Stream.{
  Store, choose_loads, combine_streams, rebalance_streams, pick_strayed, pick_fitting,
  pick_smallest,
}
use abtst.Load.{get_load_size}
use abtst.Stream.Combine.{Combined, combine_streams-Combined}
use abtst.Stream.Rebalance.{Rebalanced, rebalance_streams-Rebalanced}
use abtst.Stream.Balance.{IsBalanced, choose_loads-IsBalanced}
use abtst.Mapping.{UserKey, HashInfo, hash_func, hash_mapping_to_load}
use abtst.Mapping.Hash.{hash_mapping_to_load-lt}
use abtst.Examples.Machine.{store, streams, idle, busy}

one_chosen : (choose_loads idle busy 155 store).mloads ≡ 11 ∷ []
unfolding choose_loads pick_strayed pick_fitting pick_smallest get_load_size to_int to_u32 ◌-ℤ◌ ◌+ℤ◌
one_chosen = refl

some_chosen : (choose_loads idle busy 155 store).mloads ≢ []
some_chosen = ground (arith, one_chosen)

combine_streams-Combined_example :
    (t : Store) × (combine_streams 1 0 store ≡ some (pos 0, t)) × Combined 1 0 store t
combine_streams-Combined_example =
    combine_streams-Combined (λ e. omega arith) store refl (omega arith)

rebalance_streams-Rebalanced_example :
    (rebalance_streams idle busy 155 store ≡ some (negsuc 0, store))
    ⊎ ((t : Store) × (rebalance_streams idle busy 155 store ≡ some (pos 0, t))
        × Rebalanced idle busy (choose_loads idle busy 155 store).mloads store t)
rebalance_streams-Rebalanced_example =
    rebalance_streams-Rebalanced idle busy 155 store (λ e. omega arith) refl (omega arith)

choose_loads-IsBalanced_example : IsBalanced idle busy 155 (choose_loads idle busy 155 store)
choose_loads-IsBalanced_example =
    choose_loads-IsBalanced idle busy 155 store (refl, (refl, (refl, tt))) some_chosen

-- Any two streams are related.
abbrev Anywhere : ℕ → ℕ → Type 0
Anywhere i j = Unit

find_next_stream-NextStream_example :
    (r : Option ℕ) × (find_next_stream 4 0 6 streams ≡ some r) × NextStream 0 streams 4 6 r
find_next_stream-NextStream_example = find_next_stream-NextStream 0 streams 4 6 (omega arith)

abbrev info : HashInfo
info = record { total_buckets = 1024; block_size = 4096; hash_fn = hash_func }

abbrev key : ℕ → UserKey
key lba = record { lba = lba; volume_id = 7 }

hash_mapping_to_load-lt_example :
    (load : ℕ) × (hash_mapping_to_load info 6 (key 9000) ≡ some load) × (load < 6)
hash_mapping_to_load-lt_example = hash_mapping_to_load-lt info 6 (key 9000) (record {
  blocks = omega arith;
  buckets = omega arith;
  loads = omega arith;
  fits = omega arith;
})
