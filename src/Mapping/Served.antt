-- ===== src/Mapping/Served.antt =====
-- From the creation of a mapping to the stream of a key (src/mapping/mapping.c).
use abtst.Common.{
  ℕ, ◌+◌, ◌<◌, ◌≡◌, refl, ap, true, some, arith, ltb, lt→ltb, ◌==◌, length, get_elem?, mul_u32,
}
use abtst.Common.Int.{pos}
use abtst.Abt.{Abt}
use abtst.Load.{loads_per_xstream}
use abtst.Load.Init.{serves}
use abtst.Load.Free.{map_load_to_stream}
use abtst.Load.Deal.{IsWorking}
use abtst.Load.Even.{DealtEvenly, init_loads-DealtEvenly}
use abtst.Mapping.{UserKey, HashInfo, max_mappings}
use abtst.Mapping.Hash.{IsUsable, hash_mapping_to_load-lt}
use abtst.Mapping.Table.{MappingType, Scheme}
use abtst.Mapping.Create.{
  put_mapping, scheme_of, fill_mapping, init_mapping, create_mapping, mapping_to_load,
  map_key_to_load, map_key_to_xstream,
}
use abtst.Partition.{Partition}
use abtst.Common.Store.{Array}
use abtst.Stream.{Stream}
use abtst.Stream.Move.{bare}
use abtst.Global.{Global}

-- What a key of the mapping `id` comes to: one of `nr_loads` loads, on a stream that the partition
-- uses.
pub record IsServed (g : Global) (id partid nr_loads rand : ℕ) (key : UserKey) : Type 0 where
  pub load : ℕ
  pub stream : ℕ
  pub mapped : map_key_to_load rand g id key ≡ some load
  pub inside : load < nr_loads
  pub runs_on : map_key_to_xstream rand g id key ≡ some stream
  pub exists : stream < g.max_xstreams
  pub serving : serves partid (g.store.streams stream) ≡ true

serves-bare : (p : ℕ) (a b : Stream) → bare a ≡ bare b → serves p b ≡ true → serves p a ≡ true
unfolding serves
serves-bare p a b e h =
    ground (arith, ap (λ (st : Stream). st.used) e, ap (λ (st : Stream). st.part_id) e, h)

-- A mapping by hash whose loads were dealt out serves every key.
IsServed-by_hash :
    (base partid id : ℕ) (info : HashInfo) (nr_loads : ℕ) (streams : Array Stream) (g : Global)
    → id < max_mappings
    → (g.mappings.mappings id).scheme ≡ some Scheme.by_hash
    → (g.mappings.mappings id).param ≡ some info
    → (g.mappings.mappings id).loads
      ≡ record { partition_id = partid; nr_loads = nr_loads; loads = base }
    → IsUsable info nr_loads
    → DealtEvenly base g.max_xstreams partid nr_loads streams g.store
    → (rand : ℕ) (key : UserKey) → IsServed g id partid nr_loads rand key
unfolding map_key_to_load map_key_to_xstream mapping_to_load map_load_to_stream
IsServed-by_hash base partid id info nr_loads streams g free by param loads usable v rand key =
    let (load, found, inside) = hash_mapping_to_load-lt info nr_loads key usable in
    let (j, lt, hit, runs) = v.runs_on load inside in
    let room : ltb id max_mappings ≡ true = lt→ltb id max_mappings free in
    let within : ltb load nr_loads ≡ true = lt→ltb load nr_loads inside in
    record {
      load = load;
      stream = j;
      mapped = rw (room, by, param, loads, found) refl;
      inside = inside;
      runs_on = rw (room, by, param, loads, found, within, runs) refl;
      exists = lt;
      serving = serves-bare partid (g.store.streams j) (streams j) (v.fields j) hit;
    }

module _ (abt : Abt) (works : IsWorking abt) where
  -- A free number, a partition with a stream in use, usable hash parameters for 32 loads per core
  -- of it, ranks that are indices, and calls of Argobots that succeed: the mapping is created under
  -- the next number, the loads are dealt out evenly, and every key has a load, which runs on a
  -- stream that the partition uses.
  pub create_mapping-IsServed :
      (base partid k : ℕ) (info : HashInfo) (partition : Partition) (g : Global) (rt : abt.Runtime)
      → g.mappings.nr_mappings < max_mappings
      → get_elem? g.partitions.partitions partid ≡ some partition
      → IsUsable info (mul_u32 (length partition.partition_cores) loads_per_xstream)
      → ((j : ℕ) → j < g.max_xstreams → (g.store.streams j).rank ≡ j)
      → k < g.max_xstreams
      → serves partid (g.store.streams k) ≡ true
      → (g' : Global) × (rt' : abt.Runtime) × (create_mapping abt
            (some base)
            MappingType.hashing
            (some info)
            partid
            g
            rt
          ≡ some (pos g.mappings.nr_mappings, g', rt'))
        × DealtEvenly base g.max_xstreams partid
            (mul_u32 (length partition.partition_cores) loads_per_xstream)
            g.store.streams
            g'.store
        × ((rand : ℕ) (key : UserKey)
            → IsServed g' g.mappings.nr_mappings partid
                (mul_u32 (length partition.partition_cores) loads_per_xstream)
                rand
                key)
  unfolding create_mapping scheme_of fill_mapping init_mapping
  create_mapping-IsServed base partid k info partition g rt free part usable ranked lt hit =
      let id = g.mappings.nr_mappings in
      let nr_loads = mul_u32 (length partition.partition_cores) loads_per_xstream in
      let old = g.mappings.mappings id in
      let loads = record (old.loads) { nr_loads = nr_loads; partition_id = partid } in
      let mapping = record old {
        mapping_id = pos id;
        partition_id = partid;
        type = MappingType.hashing;
        param = some info;
      } in
      let made = record mapping { scheme = some Scheme.by_hash } in
      let (t, rt', runs, v) =
        init_loads-DealtEvenly abt works base g.max_xstreams loads g.store rt k ranked lt hit in
      let room : ltb id max_mappings ≡ true = lt→ltb id max_mappings free in
      let taken =
        put_mapping id mapping
          (record g { mappings = record (g.mappings) { nr_mappings = id + 1 } }) in
      let g' =
        put_mapping id (record made { loads = record loads { loads = base } })
          (record taken { store = t }) in
      let self : (id == id) ≡ true = ground arith in
      let here : (((g'.mappings.mappings id).scheme ≡ some Scheme.by_hash)
          × ((g'.mappings.mappings id).param ≡ some info)
          × ((g'.mappings.mappings id).loads
              ≡ record { partition_id = partid; nr_loads = nr_loads; loads = base })) =
        rw self (refl, refl, refl) in
      (
        g',
        rt',
        rw (room, part, runs) refl,
        v,
        IsServed-by_hash base partid id info nr_loads g.store.streams g' free here.0 here.1 here.2
            usable v,
      )
