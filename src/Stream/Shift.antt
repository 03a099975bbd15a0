-- ===== src/Stream/Shift.antt =====
-- What any sequence of load moves keeps: abtst_combine_streams and abtst_rebalance_streams
-- (src/stream/stream.c) lose no load, make none up, and leave the rest of the streams alone.
use mathlib.Core.List.{reverse_aux}
use abtst.Common.{
  ℕ, ◌+◌, ◌*◌, ◌<◌, ◌≡◌, ◌≢◌, inl, inr, refl, ◌∙◌, ap, false, some, List, [], ◌∷◌, arith, ◌==◌,
  length, count, erase, count-erase, length-erase, u32_mod, Bool-cases,
}
use abtst.Common.Int.{ℤ, pos, negsuc}
use abtst.Stream.{Store, SortParam, combine_streams, rebalance_streams}
use abtst.Stream.Move.{IsCounted, mem_of_count}
use abtst.Stream.Combine.{settled, Combined, combine_streams-Combined}
use abtst.Stream.Rebalance.{Rebalanced, rebalance_streams-Rebalanced}

-- A measure of queues, added up over the streams `is`.
unfoldable pub weigh : (List ℕ → ℕ) → List ℕ → Store → ℕ
weigh measure [] s = 0
weigh measure (i ∷ is) s = measure (s.streams i).load_q + weigh measure is s

-- How often a load is queued on the streams `is`, and how many are queued on them.
abbrev pub queued : ℕ → List ℕ → Store → ℕ
queued a = weigh (count a)

abbrev pub nr_queued : List ℕ → Store → ℕ
nr_queued = weigh length

-- A set of streams that holds related ones equally often.
abbrev pub IsClosed : (ℕ → ℕ → Type 0) → List ℕ → Type 0
IsClosed Related is = (i j : ℕ) → Related i j → count i is ≡ count j is

-- The relation of two streams says between which ones loads may move: the loads queued on a set of
-- streams that holds related ones equally often stay there.
pub record Shift (Related : ℕ → ℕ → Type 0) (s t : Store) : Type 0 where
  pub fields : (i : ℕ) → settled (t.streams i) ≡ settled (s.streams i)
  pub counted : ((i : ℕ) → IsCounted (s.streams i)) → (i : ℕ) → IsCounted (t.streams i)
  pub kept : (a : ℕ) (is : List ℕ) → IsClosed Related is → queued a is t ≡ queued a is s
  pub kept_number : (is : List ℕ) → IsClosed Related is → nr_queued is t ≡ nr_queued is s

count-reverse_aux : (a : ℕ) (xs ys : List ℕ) → count a (reverse_aux xs ys) ≡ count a xs + count a ys
count-reverse_aux a [] ys = omega arith
count-reverse_aux a (x ∷ xs) ys = omega (arith, count-reverse_aux a xs (x ∷ ys))

length-reverse_aux : (xs ys : List ℕ) → length (reverse_aux xs ys) ≡ length xs + length ys
length-reverse_aux [] ys = omega arith
length-reverse_aux (x ∷ xs) ys = omega (arith, length-reverse_aux xs (x ∷ ys))

-- Lists with equal counts are equally long.
length_of_count :
    (xs ls ys : List ℕ)
    → ((a : ℕ) → count a xs + count a ls ≡ count a ys)
    → length xs + length ls ≡ length ys
length_of_count (x ∷ xs) ls ys h =
    let m = mem_of_count x ys (ground (arith, h x)) in
    let rest =
      length_of_count xs ls (erase x ys) (λ a. ground (arith, h a, count-erase a x ys m)) in
    omega (arith, rest, length-erase x ys m)
length_of_count [] (l ∷ ls) ys h =
    let m = mem_of_count l ys (ground (arith, h l)) in
    let rest =
      length_of_count [] ls (erase l ys) (λ a. ground (arith, h a, count-erase a l ys m)) in
    omega (arith, rest, length-erase l ys m)
length_of_count [] [] [] h = omega arith
length_of_count [] [] (y ∷ ys) h = absurd (ground (arith, h y))

module _ {Related : ℕ → ℕ → Type 0} where
  pub Shift-refl : (s : Store) → Shift Related s s
  Shift-refl s = record {
    fields = λ i. refl;
    counted = λ c. c;
    kept = λ a is h. refl;
    kept_number = λ is h. refl;
  }

  pub Shift-trans : {s t u : Store} → Shift Related s t → Shift Related t u → Shift Related s u
  Shift-trans v w = record {
    fields = λ i. w.fields i ∙ v.fields i;
    counted = λ c. w.counted (v.counted c);
    kept = λ a is h. w.kept a is h ∙ v.kept a is h;
    kept_number = λ is h. w.kept_number is h ∙ v.kept_number is h;
  }

-- A part `x` of what is measured goes from one stream to another.
module _ (m : List ℕ → ℕ) (x from to : ℕ) (s t : Store)
    (left : m (t.streams from).load_q + x ≡ m (s.streams from).load_q)
    (arrived : m (t.streams to).load_q ≡ x + m (s.streams to).load_q)
    (elsewhere : (i : ℕ) → i ≢ from → i ≢ to → t.streams i ≡ s.streams i) (ne : from ≢ to) where
  weigh-move : (is : List ℕ) → weigh m is t + x * count from is ≡ weigh m is s + x * count to is
  unfolding weigh
  weigh-move [] = omega arith
  weigh-move (i ∷ is) = elim (Bool-cases (i == from)) [
    | inl at_from ↦
        let e : i ≡ from = ground arith in
        let off : (i == to) ≡ false = ground arith in
        rw (at_from, off) (rw e (omega (arith, left, weigh-move is)))
    | inr not_from ↦ elim (Bool-cases (i == to)) [
      | inl at_to ↦
          let e : i ≡ to = ground arith in
          rw (not_from, at_to) (rw e (omega (arith, arrived, weigh-move is)))
      | inr not_to ↦
          let same : t.streams i ≡ s.streams i = elsewhere i (ground arith) (ground arith) in
          rw (not_from, not_to, same) (omega (arith, weigh-move is))
    ]
  ]

  weigh_same : (is : List ℕ) → count from is ≡ count to is → weigh m is t ≡ weigh m is s
  weigh_same is e = omega (arith, weigh-move is, ap (λ k. x * k) e)

module _ {Related : ℕ → ℕ → Type 0} where
  Combined-Shift :
      {from to : ℕ} {s t : Store}
      → from ≢ to
      → Related from to
      → Combined from to s t
      → Shift Related s t
  Combined-Shift {from} {to} {s} {t} ne r c = record {
    fields = c.fields;
    counted = λ all i. c.counted i (all i);
    kept = λ a is h.
        weigh_same (count a) (count a (s.streams from).load_q) from to s t
          (rw c.emptied (omega arith))
          (ap (count a) c.joined
            ∙ count-reverse_aux a (s.streams from).load_q (s.streams to).load_q)
          c.elsewhere ne is (h from to r);
    kept_number = λ is h.
        weigh_same length (length (s.streams from).load_q) from to s t (rw c.emptied (omega arith))
          (ap length c.joined ∙ length-reverse_aux (s.streams from).load_q (s.streams to).load_q)
          c.elsewhere ne is (h from to r);
  }

  Rebalanced-Shift :
      {p1 p2 : SortParam} {ls : List ℕ} {s t : Store}
      → p2.stream ≢ p1.stream
      → Related p2.stream p1.stream
      → Rebalanced p1 p2 ls s t
      → Shift Related s t
  Rebalanced-Shift {p1} {p2} {ls} {s} {t} ne r c = record {
    fields = c.fields;
    counted = λ all i. c.counted i (all i);
    kept = λ a is h.
        weigh_same (count a) (count a ls) p2.stream p1.stream s t (c.left a)
          (ap (count a) c.arrived ∙ count-reverse_aux a ls (s.streams p1.stream).load_q) c.elsewhere
          ne is (h p2.stream p1.stream r);
    kept_number = λ is h.
        weigh_same length (length ls) p2.stream p1.stream s t
          (length_of_count (t.streams p2.stream).load_q ls (s.streams p2.stream).load_q c.left)
          (ap length c.arrived ∙ length-reverse_aux ls (s.streams p1.stream).load_q) c.elsewhere ne
          is (h p2.stream p1.stream r);
  }

  -- The same of abtst_combine_streams.
  pub combine_streams-Shift :
      {from to : ℕ} (s : Store)
      → from ≢ to
      → Related from to
      → IsCounted (s.streams from)
      → length (s.streams from).load_q < u32_mod
      → (t : Store) × (combine_streams from to s ≡ some (pos 0, t)) × Shift Related s t
  combine_streams-Shift s ne r c fits =
      let (t, runs, v) = combine_streams-Combined ne s c fits in (t, runs, Combined-Shift ne r v)

  -- Two different streams, related in a way that a set of streams may respect, and the one to take
  -- from keeps its length and holds fewer than 2 ^ 32 loads: the call is defined, no load leaves a
  -- set that holds related streams equally often, nor is lost or doubled there, and nothing of a
  -- stream changes but its queue, its kept length and its depth.
  pub rebalance_streams-Shift :
      (p1 p2 : SortParam) (avg : ℕ) (s : Store)
      → p2.stream ≢ p1.stream
      → Related p2.stream p1.stream
      → IsCounted (s.streams p2.stream)
      → length (s.streams p2.stream).load_q < u32_mod
      → (ret : ℤ) × (t : Store) × (rebalance_streams p1 p2 avg s ≡ some (ret, t))
        × Shift Related s t
  rebalance_streams-Shift p1 p2 avg s ne r c fits =
      elim (rebalance_streams-Rebalanced p1 p2 avg s ne c fits) [
        | inl refused ↦ (negsuc 0, s, refused, Shift-refl s)
        | inr (t, runs, v) ↦ (pos 0, t, runs, Rebalanced-Shift ne r v)
      ]
