-- ===== src/Mapping.antt =====
-- src/mapping: from the key of a request to the load that serves it (hash/hash.c, random/random.c),
-- and the numbers of mappings (include/mapping.h).
pub mod Hash
pub mod Table
pub mod Create
pub mod Served
use abtst.Common.{
  ℕ, suc, zero, ◌+◌, ◌-◌, ◌*◌, ◌/◌, ◌%◌, ◌^◌, ◌<◌, ◌≤◌, ◌≡◌, Bool, true, false, not, Option, none,
  some, ◌==◌, if◌then◌else◌, u32_mod, u64_mod, add_u64, add_u32, sub_u32, ltb, require, ◌>>=◌, ◌>>◌,
}
use Prim.Native.Nat.{bit_xor}
use abtst.Common.Int.{ℤ, pos, negsuc, to_int, to_u32}

abbrev pub max_mappings : ℕ
max_mappings = 8

pub record UserKey : Type 0 where
  pub lba : ℕ
  pub volume_id : ℕ

pub record HashInfo : Type 0 where
  pub total_buckets : ℕ
  pub block_size : ℕ
  pub hash_fn : UserKey → ℕ

unfoldable pub set_hash_info : ℕ → ℕ → (UserKey → ℕ) → HashInfo
set_hash_info buckets block_size hash_fn = record {
  total_buckets = buckets;
  block_size = block_size;
  hash_fn = hash_fn;
}

-- The counter of mappings after a request for a number, and the number, -1 where all are taken.
unfoldable pub get_mapping_id : ℕ → ℕ × ℤ
get_mapping_id nr_mappings =
    if ltb nr_mappings max_mappings
    then (nr_mappings + 1, pos nr_mappings)
    else (nr_mappings, negsuc 0)

-- A division by zero buckets is undefined.
unfoldable pub get_hash_key : (UserKey → ℕ) → UserKey → ℕ → Option ℤ
get_hash_key hash_fn key buckets =
    require (not (buckets == 0)) >> some (to_int (hash_fn key % buckets))

-- The first byte of the block that a key falls into, and its volume.
unfoldable pub block_key : ℕ → UserKey → UserKey
block_key block_size key = record key { lba = key.lba / block_size * block_size % u64_mod }

unfoldable pub hash_mapping_to_load : HashInfo → ℕ → UserKey → Option ℕ
unfolding get_hash_key block_key
hash_mapping_to_load info nr_loads key = do
  require (not (info.block_size == 0))
  hash ← get_hash_key info.hash_fn (block_key info.block_size key) info.total_buckets
  require (not (nr_loads == 0))
  let buckets_per_loads = sub_u32 (add_u32 info.total_buckets nr_loads) 1 / nr_loads
  require (not (buckets_per_loads == 0))
  some (to_u32 hash / buckets_per_loads)

-- `rand` is the value of rand().
unfoldable pub random_mapping_to_load : ℕ → ℕ → Option ℕ
random_mapping_to_load rand nr_loads = require (not (nr_loads == 0)) >> some (rand % nr_loads)

abbrev shl_u64 : ℕ → ℕ → ℕ
shl_u64 x k = x * 2 ^ k % u64_mod

abbrev xor_shr : ℕ → ℕ → ℕ
xor_shr x k = bit_xor x (x / 2 ^ k)

-- Thomas Wang's mix of the block number, and the volume added to it.
unfoldable pub hash_func : UserKey → ℕ
hash_func key =
    let a = key.lba / 2 ^ 9 in
    let b = add_u64 (u64_mod - 1 - a) (shl_u64 a 21) in
    let c = xor_shr b 24 in
    let d = add_u64 (add_u64 c (shl_u64 c 3)) (shl_u64 c 8) in
    let e = xor_shr d 14 in
    let f = add_u64 (add_u64 e (shl_u64 e 2)) (shl_u64 e 4) in
    let g = xor_shr f 28 in let h = add_u64 g (shl_u64 g 31) in add_u64 h key.volume_id
