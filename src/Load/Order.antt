-- ===== src/Load/Order.antt =====
-- The order in which find_next_stream (src/load/load.c) comes to the streams of a partition.
use mathlib.Core.List.{append_assoc, append-nil}
use native.Mathlib.Nat.{mod-eq_of_lt, mod_self}
use abtst.Common.{
  ℕ, zero, suc, ◌+◌, ◌-◌, ◌%◌, ◌≤◌, ◌<◌, ◌≡◌, inl, inr, refl, sym, subst, ◌∙◌, ap, true, false,
  Option, none, some, List, [], ◌∷◌, ◌++◌, arith, if◌then◌else◌, range, Bool-cases, dec_lt,
}
use abtst.Common.Store.{Array}
use abtst.Stream.{Stream}
use abtst.Load.Init.{serves, first_stream, search_order}

abbrev head_of : List ℕ → Option ℕ
head_of [] = none
head_of (x ∷ xs) = some x

pub range-append : (n k start : ℕ) → range start (n + k) ≡ range start n ++ range (start + n) k
range-append zero k start =
    let none_more : start + 0 ≡ start = omega arith in
    let all : 0 + k ≡ k = omega arith in rw (none_more, all) refl
range-append (suc n) k start =
    let longer : suc n + k ≡ suc (n + k) = omega arith in
    let later : start + suc n ≡ suc start + n = omega arith in
    rw (longer, later) (ap (λ l. start ∷ l) (range-append n k (suc start)))

same_parts : (a k : ℕ) (t rest : List ℕ) → a ∷ t ≡ k ∷ rest → (a ≡ k) × (t ≡ rest)
same_parts a k t rest e = (cc, cc)

module _ (p : ℕ) (streams : Array Stream) where
  -- Those of the streams `is` that the partition uses.
  unfoldable pub serving : List ℕ → List ℕ
  serving [] = []
  serving (i ∷ is) = if serves p (streams i) then i ∷ serving is else serving is

  pub first_stream-serving : (is : List ℕ) → first_stream p streams is ≡ head_of (serving is)
  unfolding first_stream serving
  first_stream-serving [] = refl
  first_stream-serving (i ∷ is) = ground (arith, first_stream-serving is)

  serving-append : (xs ys : List ℕ) → serving (xs ++ ys) ≡ serving xs ++ serving ys
  unfolding serving
  serving-append [] ys = refl
  serving-append (x ∷ xs) ys = ground (arith, serving-append xs ys)

  -- The first of a run of streams, with those before it and those after it.
  record Cut (start n k : ℕ) (rest : List ℕ) : Type 0 where
    low : start ≤ k
    high : k < start + n
    hit : serves p (streams k) ≡ true
    before : serving (range start (k - start)) ≡ []
    after : serving (range (suc k) (start + n - suc k)) ≡ rest

  Cut-here :
      (n start k : ℕ) (rest : List ℕ)
      → serves p (streams start) ≡ true
      → start ≡ k
      → serving (range (suc start) n) ≡ rest
      → Cut start (suc n) k rest
  unfolding serving
  Cut-here n start k rest hit same tail =
      let zero_before : k - start ≡ 0 = omega arith in
      let others : start + suc n - suc k ≡ n = omega arith in
      record {
        low = omega arith;
        high = omega arith;
        hit = subst (λ i. serves p (streams i) ≡ true) same hit;
        before = rw zero_before refl;
        after = rw others (subst (λ i. serving (range (suc i) n) ≡ rest) same tail);
      }

  Cut-later :
      (n start k : ℕ) (rest : List ℕ)
      → serves p (streams start) ≡ false
      → Cut (suc start) n k rest
      → Cut start (suc n) k rest
  unfolding serving
  Cut-later n start k rest miss v =
      let low = v.low in
      let one_more : k - start ≡ suc (k - suc start) = omega arith in
      let same_end : start + suc n ≡ suc start + n = omega arith in
      record {
        low = omega arith;
        high = omega (arith, v.high);
        hit = v.hit;
        before = rw (one_more, miss) v.before;
        after = rw same_end v.after;
      }

  serving-Cut :
      (n start k : ℕ) (rest : List ℕ) → serving (range start n) ≡ k ∷ rest → Cut start n k rest
  unfolding serving
  serving-Cut zero start k rest e = absurd (ground arith)
  serving-Cut (suc n) start k rest e = elim (Bool-cases (serves p (streams start))) [
    | inl hit ↦
        let parts = same_parts start k (serving (range (suc start) n)) rest (rw hit at e) in
        Cut-here n start k rest hit parts.0 parts.1
    | inr miss ↦ Cut-later n start k rest miss (serving-Cut n (suc start) k rest (rw miss at e))
  ]

  serving-hit : (k : ℕ) → serves p (streams k) ≡ true → serving (range k 1) ≡ k ∷ []
  unfolding serving
  serving-hit k hit = rw hit refl

  -- A run up to its first stream and including it.
  until_hit :
      (start k : ℕ)
      → start ≤ k
      → serves p (streams k) ≡ true
      → serving (range start (k - start)) ≡ []
      → serving (range start (suc k - start)) ≡ k ∷ []
  until_hit start k lo hit before =
      let parts : suc k - start ≡ (k - start) + 1 = omega arith in
      let here : start + (k - start) ≡ k = omega arith in
      rw
        (
          parts,
          range-append (k - start) 1 start,
          here,
          serving-append (range start (k - start)) (range k 1),
          before,
        )
        (serving-hit k hit)

  -- Starting behind the last stream is starting at the first.
  pub serving-search_order :
      (max t : ℕ)
      → 0 < max
      → t ≤ max
      → serving (search_order max (t % max)) ≡ serving (range t (max - t)) ++ serving (range 0 t)
  unfolding search_order serving
  serving-search_order max t h le = elim (dec_lt t max) [
    | yes inside ↦ rw (mod-eq_of_lt inside) (serving-append (range t (max - t)) (range 0 t))
    | no at_end ↦
        let e : t ≡ max = omega arith in
        let none_left : max - max ≡ 0 = omega arith in
        let all : max - 0 ≡ max = omega arith in
        let first : max % max ≡ 0 = mod_self max in
        rw (e, none_left, first, all, append-nil (range 0 max)) refl
  ]

  serving-range : (t n : ℕ) → serving (range 0 (t + n)) ≡ serving (range 0 t) ++ serving (range t n)
  serving-range t n =
      let from : 0 + t ≡ t = omega arith in
      ap (λ l. serving l) (range-append t n 0) ∙ rw from (serving-append (range 0 t) (range t n))

  -- The streams of the partition in the order in which a search from `t` on comes to them.
  abbrev pub order_from : ℕ → ℕ → List ℕ
  order_from max t = serving (range t (max - t)) ++ serving (range 0 t)

  order-high :
      (max t k : ℕ) (r : List ℕ)
      → t ≤ max
      → serving (range t (max - t)) ≡ k ∷ r
      → (k < max)
        × (serves p (streams k) ≡ true)
        × (order_from max (suc k) ≡ (r ++ serving (range 0 t)) ++ k ∷ [])
  order-high max t k r le e =
      let cut = serving-Cut (max - t) t k r e in
      let low = cut.low in
      let high = cut.high in
      let the_end : t + (max - t) - suc k ≡ max - suc k = omega arith in
      let whole : suc k ≡ t + (suc k - t) = omega arith in
      let first_part : serving (range 0 (suc k)) ≡ serving (range 0 t) ++ k ∷ [] =
        ap (λ n. serving (range 0 n)) whole
        ∙ serving-range t (suc k - t)
        ∙ ap (λ l. serving (range 0 t) ++ l) (until_hit t k low cut.hit cut.before) in
      (
        omega arith,
        cut.hit,
        rw (sym the_end, cut.after, first_part)
            (sym (append_assoc r (serving (range 0 t)) (k ∷ []))),
      )

  order-low :
      (max t k : ℕ) (r : List ℕ)
      → t ≤ max
      → serving (range t (max - t)) ≡ []
      → serving (range 0 t) ≡ k ∷ r
      → (k < max) × (serves p (streams k) ≡ true) × (order_from max (suc k) ≡ r ++ k ∷ [])
  order-low max t k r le none_high e =
      let cut = serving-Cut t 0 k r e in
      let high = cut.high in
      let low = cut.low in
      let before_t : 0 + t - suc k ≡ t - suc k = omega arith in
      let whole : max - suc k ≡ (t - suc k) + (max - t) = omega arith in
      let there : suc k + (t - suc k) ≡ t = omega arith in
      let tail : serving (range (suc k) (max - suc k)) ≡ r ++ [] =
        ap (λ n. serving (range (suc k) n)) whole
        ∙ ap (λ l. serving l) (range-append (t - suc k) (max - t) (suc k))
        ∙ rw
            (
              there,
              serving-append (range (suc k) (t - suc k)) (range t (max - t)),
              sym before_t,
              cut.after,
              none_high,
            )
            refl in
      let whole_k : suc k - 0 ≡ suc k = omega arith in
      let until =
        subst (λ n. serving (range 0 n) ≡ k ∷ []) whole_k (until_hit 0 k low cut.hit cut.before) in
      (omega arith, cut.hit, rw (tail, until, append-nil r) refl)

  -- A search comes to the head of the order, and the next search, from behind it on, has it last.
  pub order-turn :
      (max t k : ℕ) (rest : List ℕ)
      → t ≤ max
      → order_from max t ≡ k ∷ rest
      → (k < max) × (serves p (streams k) ≡ true) × (order_from max (suc k) ≡ rest ++ k ∷ [])
  order-turn max t k rest le e = go (serving (range t (max - t))) refl
    where
      go :
          (high : List ℕ)
          → serving (range t (max - t)) ≡ high
          → (k < max) × (serves p (streams k) ≡ true) × (order_from max (suc k) ≡ rest ++ k ∷ [])
      go [] h = order-low max t k rest le h (rw h at e)
      go (x ∷ high) h =
          let parts = same_parts x k (high ++ serving (range 0 t)) rest (rw h at e) in
          let v = order-high max t k high le (h ∙ ap (λ y. y ∷ high) parts.0) in
          (v.0, v.1, v.2 ∙ ap (λ l. l ++ k ∷ []) parts.1)
