-- ===== src/Mapping/Hash.antt =====
-- That hash_mapping_to_load (src/mapping/hash/hash.c) finds a load, and the same for one block.
use abtst.Common.{
  ℕ, ◌+◌, ◌-◌, ◌/◌, ◌%◌, ◌<◌, ◌≤◌, ◌≡◌, false, some, ◌==◌, u32_mod, add_u32, sub_u32, arith,
}
use native.Mathlib.Nat.{mod-lt, le-div_iff_mul-le}
use abtst.Common.Int.{to_int, to_u32, to_u32-to_int}
use abtst.Mapping.{UserKey, HashInfo, block_key, get_hash_key, hash_mapping_to_load}

-- What the code needs of its hash table: blocks, buckets and loads, whose counts fit 32 bits.
pub record IsUsable (info : HashInfo) (nr_loads : ℕ) : Type 0 where
  pub blocks : 1 ≤ info.block_size
  pub buckets : 1 ≤ info.total_buckets
  pub loads : 1 ≤ nr_loads
  pub fits : info.total_buckets + nr_loads ≤ u32_mod

quotient_bound : (t n h : ℕ) → 1 ≤ n → 1 ≤ t → h < t → h / ((t + n - 1) / n) < n
quotient_bound t n h pn pt lt = grind arith

ne_zero : {n : ℕ} → 1 ≤ n → (n == 0) ≡ false
ne_zero h = ground arith

-- With a block size, at least one bucket and one load, and numbers that fit 32 bits together, the
-- call is defined for every key, and its result is the number of a load.
pub hash_mapping_to_load-lt :
    (info : HashInfo) (nr_loads : ℕ) (key : UserKey)
    → IsUsable info nr_loads
    → (load : ℕ) × (hash_mapping_to_load info nr_loads key ≡ some load) × (load < nr_loads)
unfolding hash_mapping_to_load
hash_mapping_to_load-lt info nr_loads key u =
    let h = info.hash_fn (block_key info.block_size key) % info.total_buckets in
    let b = (info.total_buckets + nr_loads - 1) / nr_loads in
    let wraps : sub_u32 (add_u32 info.total_buckets nr_loads) 1
        ≡ info.total_buckets + nr_loads - 1 =
      omega arith in
    let small : h < info.total_buckets =
      mod-lt (info.hash_fn (block_key info.block_size key)) u.buckets in
    let word : to_u32 (to_int h) ≡ h = to_u32-to_int h (omega arith) in
    let share : 1 ≤ b = (le-div_iff_mul-le u.loads).1 (omega arith) in
    (
      h / b,
      rw (
        ne_zero u.blocks,
        get_hash_key,
        ne_zero u.buckets,
        ne_zero u.loads,
        wraps,
        word,
        ne_zero share,
      ),
      quotient_bound info.total_buckets nr_loads h u.loads u.buckets small,
    )

-- Two requests to one block of one volume have the same result, whatever the hash function.
pub hash_mapping_to_load_block :
    (info : HashInfo) (nr_loads : ℕ) (key key' : UserKey)
    → key.lba / info.block_size ≡ key'.lba / info.block_size
    → key.volume_id ≡ key'.volume_id
    → hash_mapping_to_load info nr_loads key ≡ hash_mapping_to_load info nr_loads key'
unfolding hash_mapping_to_load
hash_mapping_to_load_block info nr_loads key key' same_block same_volume =
    let same : block_key info.block_size key ≡ block_key info.block_size key' = ground arith in
    rw same
