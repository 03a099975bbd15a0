-- ===== src/Stream/Choose.antt =====
-- The selection of loads in abtst_rebalance_streams (src/stream/stream.c).
use abtst.Common.{
  ℕ, ◌+◌, ◌≤◌, ◌≡◌, ◌⊎◌, refl, ◌∙◌, ap, inl, inr, Bool, true, false, not, ◌&&◌, List, [], ◌∷◌, ◌++◌,
  arith, ◌==◌, Bool-cases, mem, count, count-append_one,
}
use abtst.Common.Store.{Array}
use abtst.Common.Int.{ℤ, pos, ◌+ℤ◌, ◌-ℤ◌, is_zero_ℤ, lt_three_halves, int_laws}
use abtst.Load.{Load, get_load_size}
use abtst.Stream.{
  Store, SortParam, Picked, pick, pick_strayed, note_smallest, pick_fitting_one, pick_fitting,
  pick_smallest, or_if_empty, choose_loads,
}
use abtst.Stream.Move.{SubBag, mem_of_count}

-- The sizes of a list of loads, added up.
unfoldable pub total_size : Array Load → List ℕ → ℤ
total_size loads [] = pos 0
total_size loads (l ∷ ls) = get_load_size (loads l) +ℤ total_size loads ls

total_size-append :
    (loads : Array Load) (xs ys : List ℕ)
    → total_size loads (xs ++ ys) ≡ total_size loads xs +ℤ total_size loads ys
unfolding total_size
total_size-append loads [] ys = omega int_laws
total_size-append loads (x ∷ xs) ys = rw (total_size-append loads xs ys) (omega int_laws)

count_of_mem : (l : ℕ) (q : List ℕ) → mem l q ≡ true → 1 ≤ count l q
count_of_mem l [] m = absurd (ground arith)
count_of_mem l (x ∷ q) m = ground (arith, count_of_mem l q)

-- What the passes keep while `rest` is still to be seen of the queue `q`: nothing is chosen more
-- often than it stands in `q`, the depths follow the loads chosen, and a smallest load is from `q`.
pub record Sound (loads : Array Load) (ios from_ios : ℤ) (q rest : List ℕ) (p : Picked)
    : Type 0 where
  pub room : (a : ℕ) → count a p.mloads + count a rest ≤ count a q
  pub gained : p.ios ≡ ios +ℤ total_size loads p.mloads
  pub given : p.from_ios ≡ from_ios -ℤ total_size loads p.mloads
  pub smallest :
      (is_zero_ℤ p.min_lsize ≡ true)
      ⊎ ((mem p.min_load q ≡ true) × (p.min_lsize ≡ get_load_size (loads p.min_load)))

append_one : (a t x : ℤ) → a +ℤ t +ℤ x ≡ a +ℤ (t +ℤ (x +ℤ pos 0))
append_one a t x = omega int_laws

drop_one : (a t x : ℤ) → a -ℤ t -ℤ x ≡ a -ℤ (t +ℤ (x +ℤ pos 0))
drop_one a t x = omega int_laws

module _ {loads : Array Load} {ios from_ios : ℤ} {q : List ℕ} where
  Sound-skip :
      (l : ℕ) (rest : List ℕ) {p : Picked}
      → Sound loads ios from_ios q (l ∷ rest) p
      → Sound loads ios from_ios q rest p
  Sound-skip l rest v = record {
    room = λ a. omega (arith, v.room a);
    gained = v.gained;
    given = v.given;
    smallest = v.smallest;
  }

  Sound-pick :
      (l : ℕ) (rest : List ℕ) {p : Picked}
      → Sound loads ios from_ios q (l ∷ rest) p
      → Sound loads ios from_ios q rest (pick l (get_load_size (loads l)) p)
  unfolding pick total_size
  Sound-pick l rest {p} v = record {
    room = λ a. omega (arith, v.room a, count-append_one l a p.mloads);
    gained = rw (total_size-append loads p.mloads (l ∷ []), v.gained) (append_one ios _ _);
    given = rw (total_size-append loads p.mloads (l ∷ []), v.given) (drop_one from_ios _ _);
    smallest = v.smallest;
  }

  Sound-note :
      (l : ℕ) (rest : List ℕ) {p : Picked}
      → Sound loads ios from_ios q (l ∷ rest) p
      → Sound loads ios from_ios q (l ∷ rest) (note_smallest l (get_load_size (loads l)) p)
  unfolding note_smallest
  Sound-note l rest {p} v = record {
    room = λ a. ground (arith, v.room a);
    gained = ground (arith, v.gained);
    given = ground (arith, v.given);
    smallest = ground (arith, v.smallest, mem_of_count l q, v.room l);
  }

  pick_strayed-Sound :
      (rest : List ℕ) (p : Picked)
      → Sound loads ios from_ios q rest p
      → Sound loads ios from_ios q [] (pick_strayed loads rest p)
  unfolding pick_strayed
  pick_strayed-Sound [] p v = v
  pick_strayed-Sound (l ∷ rest) p v =
      elim (Bool-cases ((loads l).curr_rank == (loads l).init_rank)) [
        | inl home ↦ rw home (pick_strayed-Sound rest p (Sound-skip l rest v))
        | inr away ↦ rw away (pick_strayed-Sound rest _ (Sound-pick l rest v))
      ]

  pick_fitting_one-Sound :
      (avg l : ℕ) (rest : List ℕ) (p : Picked)
      → Sound loads ios from_ios q (l ∷ rest) p
      → Sound loads ios from_ios q rest (pick_fitting_one avg l (get_load_size (loads l)) p)
  unfolding pick_fitting_one
  pick_fitting_one-Sound avg l rest p v = ground (arith, Sound-pick l rest v, Sound-skip l rest v)

  Sound-done :
      (rest : List ℕ) {p : Picked}
      → Sound loads ios from_ios q rest p
      → Sound loads ios from_ios q [] p
  Sound-done rest v = record {
    room = λ a. omega (arith, v.room a);
    gained = v.gained;
    given = v.given;
    smallest = v.smallest;
  }

  pick_fitting-Sound :
      (avg to_loads : ℕ) (rest : List ℕ) (p : Picked)
      → Sound loads ios from_ios q rest p
      → Sound loads ios from_ios q [] (pick_fitting avg to_loads loads rest p)
  unfolding pick_fitting
  pick_fitting-Sound avg to_loads [] p v = v
  pick_fitting-Sound avg to_loads (l ∷ rest) p v =
      let next = pick_fitting_one-Sound avg l rest _ (Sound-note l rest v) in
      ground (
        arith,
        pick_fitting-Sound avg to_loads rest p (Sound-skip l rest v),
        pick_fitting-Sound avg to_loads rest _ next,
        Sound-done rest next,
      )

abbrev pub none_picked : SortParam → SortParam → Picked
none_picked p1 p2 = record {
  ios = p1.ios;
  from_ios = p2.ios;
  mloads = [];
  min_load = 0;
  min_lsize = pos 0;
}

first_one : (a x : ℤ) → a +ℤ pos 0 +ℤ x ≡ a +ℤ (x +ℤ pos 0)
first_one a x = omega int_laws

plus_zero : (a : ℤ) → a ≡ a +ℤ pos 0
plus_zero a = omega int_laws

minus_zero : (a : ℤ) → a ≡ a -ℤ pos 0
minus_zero a = omega int_laws

module _ (p1 p2 : SortParam) (avg : ℕ) (s : Store) where
  abbrev queue : List ℕ
  queue = (s.streams p2.stream).load_q

  unfoldable pub strayed : Picked
  strayed = pick_strayed s.loads queue (none_picked p1 p2)

  unfoldable pub fitting : Picked
  fitting =
      or_if_empty strayed (pick_fitting avg (s.streams p1.stream).nr_loads s.loads queue strayed)

  strayed-Sound : Sound s.loads p1.ios p2.ios queue [] strayed
  unfolding strayed total_size
  strayed-Sound = pick_strayed-Sound queue (none_picked p1 p2) (record {
    room = λ a. omega arith;
    gained = plus_zero p1.ios;
    given = minus_zero p2.ios;
    smallest = inl refl;
  })

  -- A pass that begins where nothing was chosen sees the whole queue again.
  Sound-again :
      (p : Picked)
      → p.mloads ≡ []
      → Sound s.loads p1.ios p2.ios queue [] p
      → Sound s.loads p1.ios p2.ios queue queue p
  Sound-again p e v = record {
    room = λ a. rw e (omega arith);
    gained = v.gained;
    given = v.given;
    smallest = v.smallest;
  }

  pub or_if_empty-case {ℓ} :
      (P : Picked → Type ℓ) (p next : Picked)
      → P p
      → (p.mloads ≡ [] → P next)
      → P (or_if_empty p next)
  or_if_empty-case P p next old new = go p.mloads refl
    where
      go : (xs : List ℕ) → p.mloads ≡ xs → P (elim xs [ [] ↦ next | y ∷ ys ↦ p ])
      go [] e = new e
      go (y ∷ ys) e = old

  pub fitting-Sound : Sound s.loads p1.ios p2.ios queue [] fitting
  unfolding fitting
  fitting-Sound =
      or_if_empty-case (Sound s.loads p1.ios p2.ios queue []) strayed _ strayed-Sound
        λ e. pick_fitting-Sound avg _ queue strayed (Sound-again strayed e strayed-Sound)

  -- Every load chosen stands in the queue of `from`, as often, and the depth that `to` is to have is
  -- its own and the sizes of the loads chosen.
  pub record IsChoice (p : Picked) : Type 0 where
    pub bag : SubBag p.mloads queue
    pub gained : p.ios ≡ p1.ios +ℤ total_size s.loads p.mloads

  Sound-IsChoice : (p : Picked) → Sound s.loads p1.ios p2.ios queue [] p → IsChoice p
  Sound-IsChoice p v = record { bag = λ a. omega (arith, v.room a); gained = v.gained }

  abbrev pub may_take : Picked → Bool
  may_take p =
      not (is_zero_ℤ p.min_lsize) && lt_three_halves (p1.ios +ℤ p.min_lsize) (p2.ios -ℤ p.min_lsize)

  taken-IsChoice :
      (p : Picked)
      → p.mloads ≡ []
      → Sound s.loads p1.ios p2.ios queue [] p
      → is_zero_ℤ p.min_lsize ≡ false
      → IsChoice (record p { ios = p.ios +ℤ p.min_lsize; mloads = p.min_load ∷ [] })
  unfolding total_size
  taken-IsChoice p e v some_size = record {
    bag = λ a. ground (arith, v.smallest, count_of_mem p.min_load queue);
    gained =
        ap (λ t. t +ℤ p.min_lsize) (v.gained ∙ ap (λ ls. p1.ios +ℤ total_size s.loads ls) e)
        ∙ first_one p1.ios p.min_lsize
        ∙ ap (λ t. p1.ios +ℤ (t +ℤ pos 0)) (ground (arith, v.smallest));
  }

  smallest-IsChoice :
      (p : Picked)
      → p.mloads ≡ []
      → Sound s.loads p1.ios p2.ios queue [] p
      → IsChoice (pick_smallest p1 p2 p)
  unfolding pick_smallest
  smallest-IsChoice p e v = elim (Bool-cases (may_take p)) [
    | inl take ↦ rw take (taken-IsChoice p e v (ground arith))
    | inr leave ↦ rw leave (Sound-IsChoice p v)
  ]

  pub choose_loads-IsChoice : IsChoice (choose_loads p1 p2 avg s)
  unfolding choose_loads fitting strayed
  choose_loads-IsChoice =
      or_if_empty-case IsChoice fitting (pick_smallest p1 p2 fitting)
        (Sound-IsChoice fitting fitting-Sound) λ e. smallest-IsChoice fitting e fitting-Sound
