-- ===== src/Partition/Map.antt =====
-- abtst_init_partitions (src/partition/partition.c): partitions do not overlap.
use abtst.Common.{
  ℕ, ◌<◌, ◌≡◌, inl, inr, refl, ◌∙◌, Bool, true, false, ◌||◌, not, ◌&&◌, Option, none, some, List,
  [], ◌∷◌, ◌++◌, arith, if◌then◌else◌, length, mem, mem-append, All, Bool-cases, Option-cases,
}
use mathlib.Core.List.{reverse_aux}
use abtst.Common.Int.{pos, negsuc}
use abtst.Common.Store.{Array, write}
use abtst.Env.{Env}
use abtst.Partition.{Partition, Partitions, claim_cores, claim_all, init_partitions}

-- The cores of all partitions, in order.
abbrev pub all_cores : List Partition → List ℕ
all_cores [] = []
all_cores (p ∷ ps) = p.partition_cores ++ all_cores ps

-- The first partition that lists a core.
pub owner : List Partition → ℕ → Option ℕ
owner [] c = none
owner (p ∷ ps) c = if mem c p.partition_cores then some p.partition_id else owner ps c

abbrev is_some : Option ℕ → Bool
is_some none = false
is_some (some a) = true

-- Whether no core stands twice in a list.
abbrev pub all_distinct : List ℕ → Bool
all_distinct [] = true
all_distinct (c ∷ cs) = not (mem c cs) && all_distinct cs

-- Whether the cores can be claimed one after the other, those of `taken` being claimed already.
abbrev fresh : List ℕ → List ℕ → Bool
fresh taken [] = true
fresh taken (c ∷ cs) = not (mem c taken) && fresh (c ∷ taken) cs

abbrev none_of : List ℕ → List ℕ → Bool
none_of taken [] = true
none_of taken (c ∷ cs) = not (mem c taken) && none_of taken cs

none_of-cons :
    (c : ℕ) (taken cs : List ℕ) → none_of (c ∷ taken) cs ≡ (not (mem c cs) && none_of taken cs)
none_of-cons c taken [] = refl
none_of-cons c taken (d ∷ cs) = ground (arith, none_of-cons c taken cs)

fresh_lem : (taken cs : List ℕ) → fresh taken cs ≡ (all_distinct cs && none_of taken cs)
fresh_lem taken [] = refl
fresh_lem taken (c ∷ cs) = ground (arith, fresh_lem (c ∷ taken) cs, none_of-cons c taken cs)

none_of-nil : (cs : List ℕ) → none_of [] cs ≡ true
none_of-nil [] = refl
none_of-nil (c ∷ cs) = none_of-nil cs

fresh-append :
    (taken xs ys : List ℕ)
    → fresh taken (xs ++ ys) ≡ (fresh taken xs && fresh (reverse_aux xs taken) ys)
fresh-append taken [] ys = refl
fresh-append taken (x ∷ xs) ys = ground (arith, fresh-append (x ∷ taken) xs ys)

-- The map has an entry for just the cores that are taken.
abbrev Holds : Array (Option ℕ) → List ℕ → Type 0
Holds map taken = (c : ℕ) → is_some (map c) ≡ mem c taken

-- What claiming `cs` for `id` comes to.
record Claimed (id : ℕ) (cs taken : List ℕ) (map map' : Array (Option ℕ)) : Type 0 where
  taken_now : Holds map' (reverse_aux cs taken)
  mapped : (c : ℕ) → map' c ≡ (if mem c cs then some id else map c)

module _ (nr id : ℕ) where
  claim_cores-Claimed :
      (cs taken : List ℕ) (map : Array (Option ℕ))
      → All (λ c. c < nr) cs
      → Holds map taken
      → (map' : Array (Option ℕ)) × (claim_cores nr id cs map ≡ some (fresh taken cs, map'))
        × (fresh taken cs ≡ true → Claimed id cs taken map map')
  unfolding claim_cores
  claim_cores-Claimed [] taken map small holds =
      (map, refl, λ _. record { taken_now = holds; mapped = λ c. refl })
  claim_cores-Claimed (c ∷ cs) taken map small holds =
      let (map', runs, good) =
        claim_cores-Claimed cs (c ∷ taken) (write map c (some id)) small.1
          (λ d. ground (arith, holds d)) in
      elim (Option-cases (map c)) [
        | inl free ↦ (
          map',
          ground (arith, holds c),
          λ f.
              let g = good (ground (arith, holds c)) in
              record { taken_now = g.taken_now; mapped = λ d. ground (arith, g.mapped d) },
        )
        | inr (o, busy) ↦ (map, ground (arith, holds c), λ f. absurd (ground (arith, holds c)))
      ]

mem-reverse_aux : (c : ℕ) (xs ys : List ℕ) → mem c (reverse_aux xs ys) ≡ (mem c xs || mem c ys)
mem-reverse_aux c [] ys = refl
mem-reverse_aux c (x ∷ xs) ys = ground (arith, mem-reverse_aux c xs (x ∷ ys))

fresh_apart :
    (c : ℕ) (taken cs : List ℕ) → fresh taken cs ≡ true → mem c taken ≡ true → mem c cs ≡ false
fresh_apart c taken [] f m = refl
fresh_apart c taken (d ∷ cs) f m = ground (arith, fresh_apart c (d ∷ taken) cs)

-- What claiming the cores of all partitions comes to.
record AllClaimed (parts : List Partition) (taken : List ℕ) (map map' : Array (Option ℕ))
    : Type 0 where
  all_mapped :
      (c : ℕ)
      → mem c taken ≡ false
      → map' c ≡ (if mem c (all_cores parts) then owner parts c else map c)
  others_kept : (c : ℕ) → mem c taken ≡ true → map' c ≡ map c

owner-none :
    (parts : List Partition) (c : ℕ) → mem c (all_cores parts) ≡ false → owner parts c ≡ none
unfolding owner
owner-none [] c m = refl
owner-none (p ∷ ps) c m =
    ground (arith, mem-append c p.partition_cores (all_cores ps), owner-none ps c)

-- Every core that a partition lists is one of the `nr` cores.
module _ (nr : ℕ) where
  abbrev pub Small : List Partition → Type 0
  Small [] = Unit {0}
  Small (p ∷ ps) = All (λ c. c < nr) p.partition_cores × Small ps

  claim_all-AllClaimed :
      (parts : List Partition) (taken : List ℕ) (map : Array (Option ℕ))
      → Small parts
      → Holds map taken
      → (map' : Array (Option ℕ)) × (claim_all nr parts map
          ≡ some (fresh taken (all_cores parts), map'))
        × (fresh taken (all_cores parts) ≡ true → AllClaimed parts taken map map')
  unfolding claim_all owner
  claim_all-AllClaimed [] taken map small holds =
      (map, refl, λ _. record { all_mapped = λ c m. refl; others_kept = λ c m. refl })
  claim_all-AllClaimed (p ∷ ps) taken map small holds =
      elim (Bool-cases (fresh taken p.partition_cores)) [
        | inl ok ↦
            let (map', runs, good) =
              claim_cores-Claimed nr p.partition_id p.partition_cores taken map small.0 holds in
            let one = good ok in
            let (map'', runs', good') =
              claim_all-AllClaimed ps (reverse_aux p.partition_cores taken) map' small.1
                one.taken_now in
            (
              map'',
              rw (runs, fresh-append taken p.partition_cores (all_cores ps), ok) runs',
              λ f.
                  let rest =
                    good' (ground (arith, fresh-append taken p.partition_cores (all_cores ps))) in
                  record {
                    all_mapped = λ c m. ground (
                      arith,
                      mem-reverse_aux c p.partition_cores taken,
                      mem-append c p.partition_cores (all_cores ps),
                      one.mapped c,
                      rest.all_mapped c,
                      rest.others_kept c,
                    );
                    others_kept = λ c m. ground (
                      arith,
                      mem-reverse_aux c p.partition_cores taken,
                      one.mapped c,
                      rest.others_kept c,
                      fresh_apart c taken p.partition_cores,
                    );
                  },
            )
        | inr clash ↦
            let (map', runs, good) =
              claim_cores-Claimed nr p.partition_id p.partition_cores taken map small.0 holds in
            (
              map',
              rw (runs, fresh-append taken p.partition_cores (all_cores ps), clash),
              λ f. absurd (ground (arith, fresh-append taken p.partition_cores (all_cores ps))),
            )
      ]

-- `init_partitions` on cores of the machine: it returns 0 exactly when no core is listed twice, and
-- then maps every core to the partition that lists it, and no other core.
pub init_partitions-distinct :
    (env : Env) (init : List Partition) (parts : Partitions)
    → Small env.nr_cores init
    → (parts' : Partitions) × (init_partitions true env init parts
        ≡ some (if all_distinct (all_cores init) then pos 0 else negsuc 0, parts'))
      × (all_distinct (all_cores init) ≡ true → (c : ℕ) → parts'.partition_map c ≡ owner init c)
unfolding init_partitions
init_partitions-distinct env init parts small =
    let (map, runs, good) =
      claim_all-AllClaimed env.nr_cores init [] (λ _. none) small (λ c. refl) in
    let same : fresh [] (all_cores init) ≡ all_distinct (all_cores init) =
      ground (arith, fresh_lem [] (all_cores init), none_of-nil (all_cores init)) in
    (
      record parts { nr_partitions = length init; partitions = init; partition_map = map },
      rw (runs, same),
      λ d c. ground (arith, (good (same ∙ d)).all_mapped c, owner-none init c),
    )

-- Where all cores exist and none is listed twice, abtst_init_partitions returns 0 and maps every core
-- to the partition that lists it, and no other core.
pub init_partitions-owner :
    (env : Env) (init : List Partition) (parts : Partitions)
    → Small env.nr_cores init
    → all_distinct (all_cores init) ≡ true
    → (parts' : Partitions) × (init_partitions true env init parts ≡ some (pos 0, parts'))
      × ((c : ℕ) → parts'.partition_map c ≡ owner init c)
init_partitions-owner env init parts small h =
    let (parts', runs, good) = init_partitions-distinct env init parts small in
    (parts', rw h at runs, good h)

-- Where all cores exist and one is listed twice, abtst_init_partitions returns -1.
pub init_partitions-overlap :
    (env : Env) (init : List Partition) (parts : Partitions)
    → Small env.nr_cores init
    → all_distinct (all_cores init) ≡ false
    → (parts' : Partitions) × (init_partitions true env init parts ≡ some (negsuc 0, parts'))
init_partitions-overlap env init parts small h =
    let (parts', runs, good) = init_partitions-distinct env init parts small in
    (parts', rw h at runs)
