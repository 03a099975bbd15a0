-- ===== src/Rebalance/Sorting/Entries.antt =====
-- What the sorted lists of src/rebalance/rebalance.c hold.
use mathlib.Core.List.{Permᴰ}
use abtst.Common.{
  ℕ, suc, ◌≤◌, ◌<◌, ◌≡◌, inl, inr, refl, sym, subst, ◌∙◌, ap, true, false, Option, some, List, [],
  ◌∷◌, arith, length, mem, leb, All, Bool-cases,
}
use abtst.Common.Int.{to_int}
use abtst.Common.Store.{Array}
use abtst.Stream.{Stream, SortParam}
use abtst.Env.{cores_of, get_numa_info}
use abtst.Global.{Global}
use abtst.Partition.Stats.{cores_used}
use abtst.Rebalance.Sorting.{
  Ascending, IsSort, Params, filled, sort_streams, selected, collect, cores_in,
}

-- An entry for a stream that the search was for, on one of the cores `is`.
pub record IsEntry (part : Option ℕ) (streams : Array Stream) (is : List ℕ) (p : SortParam)
    : Type 0 where
  pub among : mem p.stream is ≡ true
  pub chosen : selected part (streams p.stream) ≡ true
  pub depth : p.ios ≡ to_int (streams p.stream).total_qdepth

pub All-perm {ℓ κ} :
    {A : Type ℓ} (P : A → Type κ) {xs ys : List A} → Permᴰ xs ys → All P ys → All P xs
All-perm P Permᴰ.nil h = tt
All-perm P (Permᴰ.cons e p) h = (subst P (sym e) h.0, All-perm P p h.1)
All-perm P (Permᴰ.swap e f) h = (subst P (sym e) h.1.0, (subst P (sym f) h.0, h.1.1))
All-perm P (Permᴰ.trans p q) h = All-perm P p (All-perm P q h)

pub length-perm {ℓ} : {A : Type ℓ} {xs ys : List A} → Permᴰ xs ys → length xs ≡ length ys
length-perm Permᴰ.nil = refl
length-perm (Permᴰ.cons e p) = ap suc (length-perm p)
length-perm (Permᴰ.swap e f) = refl
length-perm (Permᴰ.trans p q) = length-perm p ∙ length-perm q

IsEntry-later :
    (part : Option ℕ) (streams : Array Stream) (i : ℕ) (is : List ℕ) (ps : List SortParam)
    → All (IsEntry part streams is) ps
    → All (IsEntry part streams (i ∷ is)) ps
IsEntry-later part streams i is [] h = tt
IsEntry-later part streams i is (p ∷ ps) h = (
  record { among = ground (arith, h.0.among); chosen = h.0.chosen; depth = h.0.depth },
  IsEntry-later part streams i is ps h.1,
)

module _ (part : Option ℕ) (streams : Array Stream) where
  pub collect-IsEntry : (is : List ℕ) → All (IsEntry part streams is) (collect part streams is)
  unfolding collect
  collect-IsEntry [] = tt
  collect-IsEntry (i ∷ is) = elim (Bool-cases (selected part (streams i))) [
    | inl take ↦ rw take (
      record { among = ground arith; chosen = take; depth = refl },
      IsEntry-later part streams i is _ (collect-IsEntry is),
    )
    | inr skip ↦ rw skip (IsEntry-later part streams i is _ (collect-IsEntry is))
  ]

-- One entry for each stream in use by the partition.
pub length-collect :
    (p : ℕ) (streams : Array Stream) (is : List ℕ)
    → length (collect (some p) streams is) ≡ cores_used p streams is
unfolding collect cores_used
length-collect p streams [] = refl
length-collect p streams (i ∷ is) = ground (arith, length-collect p streams is)

module _ (qsort : List SortParam → List SortParam) (sorts : IsSort qsort) where
  filled-some :
      (ps : List SortParam) (room : ℕ)
      → 1 ≤ length ps
      → filled qsort ps room ≡ some (record { entries = qsort ps; room = room })
  filled-some [] room h = absurd (omega arith)
  filled-some (p ∷ ps) room h = refl

  -- Where a partition runs a stream in a NUMA of the machine, whatever sort is used, the list is
  -- defined: its entries are in ascending order of depth, each is a stream in use by the partition on
  -- a core of the NUMA with its depth, and there are as many as such streams.
  pub sort_streams-some :
      (g : Global) (numa p : ℕ)
      → numa < g.env.nr_numas
      → 1 ≤ cores_used p g.store.streams (cores_of (g.env.numa_info numa))
      → (params : Params) × (sort_streams qsort g (some numa) (some p) ≡ some params)
        × All (IsEntry (some p) g.store.streams (cores_of (g.env.numa_info numa))) params.entries
        × Ascending params.entries
        × (length params.entries ≡ cores_used p g.store.streams (cores_of (g.env.numa_info numa)))
  unfolding sort_streams cores_in get_numa_info
  sort_streams-some g numa p of_numa some_core =
      let cores = cores_of (g.env.numa_info numa) in
      let inside : leb g.env.nr_numas numa ≡ false = ground arith in
      let ps = collect (some p) g.store.streams cores in
      let size = length-collect p g.store.streams cores in
      (
        record { entries = qsort ps; room = length cores },
        rw inside (filled-some ps (length cores) (omega arith)),
        All-perm _ (sorts.permutes ps) (collect-IsEntry (some p) g.store.streams cores),
        sorts.ascends ps,
        length-perm (sorts.permutes ps) ∙ size,
      )
