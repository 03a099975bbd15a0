-- ===== src/Partition/Room.antt =====
-- When the arrays of statistics of src/partition/partition.c have room for what abtst_update_partition_stats
-- counts, and what it counts then.
use abtst.Common.{
  ℕ, suc, zero, ◌+◌, ◌<◌, ◌≤◌, ◌≡◌, inl, inr, refl, sym, ◌∙◌, List, [], ◌∷◌, arith, if◌then◌else◌,
  range, Bool-cases, some, true, ltb, All,
}
use abtst.Common.Store.{Array}
use abtst.Env.{Env, Numa, cores_of, max_numas}
use abtst.Stream.{Stream, Store}
use abtst.Partition.{
  Partitions, count_stream, count_cores, count_numas, with_stream, max_partitions,
}

-- What is counted where the arrays have room.
abbrev pub tally_stream : ℕ → Stream → Partitions → Partitions
tally_stream i stream parts = if stream.used then with_stream i stream parts else parts

unfoldable pub tally_cores : ℕ → Array Stream → List ℕ → Partitions → Partitions
tally_cores i streams [] parts = parts
tally_cores i streams (j ∷ js) parts = tally_cores i streams js (tally_stream i (streams j) parts)

unfoldable pub tally_numas : Array Numa → Array Stream → List ℕ → Partitions → Partitions
tally_numas info streams [] parts = parts
tally_numas info streams (i ∷ is) parts =
    tally_numas info streams is (tally_cores i streams (cores_of (info i)) parts)

-- The streams in use on some cores belong to partitions that the statistics have room for.
abbrev pub PartsFit : Array Stream → List ℕ → Type 0
PartsFit streams js = All (λ j. (streams j).used ≡ true → (streams j).part_id < max_partitions) js

-- The arrays of statistics have room for the NUMAs and for the partitions of the streams in use.
pub record StatsFit (env : Env) (s : Store) : Type 0 where
  pub numas_fit : env.nr_numas ≤ max_numas
  pub parts_fit : (k : ℕ) → k < env.nr_numas → PartsFit s.streams (cores_of (env.numa_info k))

pub same-PartsFit :
    (streams streams' : Array Stream) (js : List ℕ)
    → ((j : ℕ) → (streams' j).used ≡ (streams j).used)
    → ((j : ℕ) → (streams' j).part_id ≡ (streams j).part_id)
    → PartsFit streams js
    → PartsFit streams' js
same-PartsFit streams streams' [] same_use part fits = tt
same-PartsFit streams streams' (j ∷ js) same_use part fits = (
  (λ used. omega (arith, part j, fits.0 (sym (same_use j) ∙ used))),
  same-PartsFit streams streams' js same_use part fits.1,
)

-- The streams keep their partitions.
pub same-StatsFit :
    (env : Env) (s t : Store)
    → ((j : ℕ) → (t.streams j).used ≡ (s.streams j).used)
    → ((j : ℕ) → (t.streams j).part_id ≡ (s.streams j).part_id)
    → StatsFit env s
    → StatsFit env t
same-StatsFit env s t same_use part fits = record {
  numas_fit = fits.numas_fit;
  parts_fit = λ k h.
      same-PartsFit s.streams t.streams (cores_of (env.numa_info k)) same_use part
        (fits.parts_fit k h);
}

count_stream-tally :
    (i : ℕ) (stream : Stream) (parts : Partitions)
    → i < max_numas
    → (stream.used ≡ true → stream.part_id < max_partitions)
    → count_stream i stream parts ≡ some (tally_stream i stream parts)
unfolding count_stream
count_stream-tally i stream parts room fits = elim (Bool-cases stream.used) [
  | inl used ↦
      let in_numas : ltb i max_numas ≡ true = ground arith in
      let in_parts : ltb stream.part_id max_partitions ≡ true = ground (arith, fits used) in
      rw (used, in_parts, in_numas) refl
  | inr idle ↦ rw idle refl
]

count_cores-tally :
    (i : ℕ) (streams : Array Stream) (js : List ℕ) (parts : Partitions)
    → i < max_numas
    → PartsFit streams js
    → count_cores i streams js parts ≡ some (tally_cores i streams js parts)
unfolding count_cores tally_cores
count_cores-tally i streams [] parts room fits = refl
count_cores-tally i streams (j ∷ js) parts room fits =
    rw (count_stream-tally i (streams j) parts room fits.0)
      (count_cores-tally i streams js (tally_stream i (streams j) parts) room fits.1)

pub count_numas-tally :
    (info : Array Numa) (streams : Array Stream) (n start : ℕ) (parts : Partitions)
    → start + n ≤ max_numas
    → ((k : ℕ) → k < start + n → PartsFit streams (cores_of (info k)))
    → count_numas info streams (range start n) parts
      ≡ some (tally_numas info streams (range start n) parts)
unfolding count_numas tally_numas
count_numas-tally info streams zero start parts room fits = refl
count_numas-tally info streams (suc n) start parts room fits =
    rw
      (count_cores-tally start streams (cores_of (info start)) parts (omega arith)
        (fits start (omega arith)))
      (count_numas-tally info streams n (suc start)
        (tally_cores start streams (cores_of (info start)) parts) (omega arith)
        (λ k h. fits k (omega arith)))
