-- ===== src/Mapping/Create.antt =====
-- src/mapping/mapping.c: mappings are created, freed, and used to find the load and the stream of a
-- key.
use abtst.Common.{
  ℕ, ◌/◌, not, Option, none, some, List, [], ◌∷◌, ltb, if◌then◌else◌, length, get_elem?, range,
  require, ◌>>=◌, ◌>>◌, mul_u32,
}
use abtst.Common.Int.{ℤ, pos, negsuc, is_zero_ℤ}
use abtst.Common.Store.{Array, write}
use abtst.Abt.{Abt}
use abtst.Load.{loads_per_xstream}
use abtst.Load.Init.{init_loads}
use abtst.Load.Free.{free_loads, map_load_to_stream}
use abtst.Mapping.{
  UserKey, HashInfo, max_mappings, get_mapping_id, hash_mapping_to_load, random_mapping_to_load,
}
use abtst.Mapping.Table.{MappingType, Scheme, Mapping, Mappings}
use abtst.Stream.{Store}
use abtst.Global.{Global}

-- hash_mapping_init and random_mapping_init.
unfoldable pub init_mapping : Scheme → ℤ
init_mapping Scheme.by_hash = pos 0
init_mapping Scheme.by_random = pos 0

-- The switch: the functions and the number of loads that a type has; `none` is its default case.
unfoldable pub scheme_of : MappingType → (cores nr_cores : ℕ) → Option (Scheme × ℕ)
scheme_of MappingType.hashing cores nr_cores =
    some (Scheme.by_hash, mul_u32 cores loads_per_xstream)
scheme_of MappingType.random cores nr_cores = some (Scheme.by_random, nr_cores / 2)
scheme_of MappingType.other cores nr_cores = none

abbrev pub put_mapping : ℕ → Mapping → Global → Global
put_mapping id mapping g = record g {
  mappings = record (g.mappings) { mappings = write g.mappings.mappings id mapping };
}

module _ (abt : Abt) where
  open abt use {Runtime}

  -- What follows the switch. `base` is the address that calloc returns.
  unfoldable pub fill_mapping :
      Option ℕ → ℕ → Mapping → Scheme → Global → Runtime → Option (ℤ × Global × Runtime)
  unfolding init_loads init_mapping
  fill_mapping base id mapping scheme g rt = do
    (ret, loads, s, rt') ← init_loads abt base g.max_xstreams mapping.loads g.store rt
    let g' = put_mapping id (record mapping { loads = loads }) (record g { store = s })
    some (
        if not (is_zero_ℤ ret)
        then (negsuc 0, g', rt')
        else if not (is_zero_ℤ (init_mapping scheme))
        then (negsuc 0, g', rt')
        else (pos id, g', rt'))

  -- Where all numbers are taken, the number -1 is the index that is written to.
  unfoldable pub create_mapping :
      Option ℕ
      → MappingType
      → Option HashInfo
      → ℕ
      → Global
      → Runtime
      → Option (ℤ × Global × Runtime)
  unfolding scheme_of fill_mapping get_mapping_id
  create_mapping base type param partid g rt = do
    let id = g.mappings.nr_mappings
    require (ltb id max_mappings)
    partition ← get_elem? g.partitions.partitions partid
    let taken = record (g.mappings) { nr_mappings = (get_mapping_id id).0 }
    let old = g.mappings.mappings id
    let mapping = record old {
      mapping_id = pos id;
      partition_id = partid;
      type = type;
      param = param;
    }
    let h = put_mapping id mapping (record g { mappings = taken })
    elim (scheme_of type (length partition.partition_cores) g.env.nr_cores) [
      | none ↦ some (negsuc 0, h, rt)
      | some (scheme, nr_loads) ↦
          fill_mapping base id
            (record mapping {
              scheme = some scheme;
              loads = record (old.loads) { nr_loads = nr_loads; partition_id = partid };
            })
            scheme h rt
    ]

  unfoldable pub free_each_mapping : Array Mapping → Store → List ℕ → Runtime → Runtime
  unfolding free_loads
  free_each_mapping mappings s [] rt = rt
  free_each_mapping mappings s (i ∷ is) rt =
      free_each_mapping mappings s is (free_loads abt (mappings i).loads s rt)

  unfoldable pub free_mappings : Mappings → Store → Runtime → Runtime
  unfolding free_each_mapping
  free_mappings table s rt = free_each_mapping table.mappings s (range 0 table.nr_mappings) rt

-- The call through `mapping_to_load`. `rand` is the value of rand().
unfoldable pub mapping_to_load : ℕ → Mapping → UserKey → Option ℕ
mapping_to_load rand mapping key = elim mapping.scheme [
  | none ↦ none
  | some Scheme.by_hash ↦
      mapping.param >>= λ info. hash_mapping_to_load info mapping.loads.nr_loads key
  | some Scheme.by_random ↦ random_mapping_to_load rand mapping.loads.nr_loads
]

unfoldable pub map_key_to_load : ℕ → Global → ℕ → UserKey → Option ℕ
unfolding mapping_to_load
map_key_to_load rand g id key =
    require (ltb id max_mappings) >> mapping_to_load rand (g.mappings.mappings id) key

unfoldable pub map_key_to_xstream : ℕ → Global → ℕ → UserKey → Option ℕ
unfolding mapping_to_load map_load_to_stream
map_key_to_xstream rand g id key = do
  require (ltb id max_mappings)
  load ← mapping_to_load rand (g.mappings.mappings id) key
  map_load_to_stream (g.mappings.mappings id).loads load g.store
