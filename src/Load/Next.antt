-- ===== src/Load/Next.antt =====
-- find_next_stream (src/load/load.c) finds the next stream of a partition, going round.
use native.Mathlib.Nat.{mod-lt, mod-eq_of_lt, mod-eq-sub-mod, mod-add-mod}
use abtst.Common.{
  ℕ, suc, zero, ◌+◌, ◌-◌, ◌%◌, ◌≤◌, ◌<◌, ◌≡◌, inl, inr, refl, sym, ◌∙◌, arith, true, false, Option,
  none, some, List, [], ◌∷◌, ◌++◌, ◌==◌, range, Bool-cases, dec_lt,
}
use abtst.Common.Store.{Array}
use abtst.Stream.{Stream}
use abtst.Load.Init.{serves, first_stream, search_order, find_next_stream}

-- How far the walk has come, before and after it passes the end.
round_low : (max start e : ℕ) → start % max + e < max → (start + e) % max ≡ start % max + e
round_low max start e h = sym (mod-add-mod start max e) ∙ mod-eq_of_lt h

round_high :
    (max start e : ℕ)
    → max ≤ start % max + e
    → start % max + e < max + max
    → (start + e) % max ≡ start % max + e - max
round_high max start e h k =
    sym (mod-add-mod start max e) ∙ mod-eq-sub-mod h ∙ mod-eq_of_lt (omega arith)

module _ (p : ℕ) (streams : Array Stream) where
  -- What the search of `start, start + 1, …` finds.
  abbrev InRange : ℕ → ℕ → Option ℕ → Type 0
  InRange start n none = (i : ℕ) → start ≤ i → i < start + n → serves p (streams i) ≡ false
  InRange start n (some k) =
      (start ≤ k)
      × (k < start + n)
      × (serves p (streams k) ≡ true)
      × ((i : ℕ) → start ≤ i → i < k → serves p (streams i) ≡ false)

  first_stream-InRange : (n start : ℕ) → InRange start n (first_stream p streams (range start n))
  unfolding first_stream
  first_stream-InRange zero start = λ i lo hi. absurd (omega arith)
  first_stream-InRange (suc n) start = elim (Bool-cases (serves p (streams start))) [
    | inl hit ↦ rw hit (omega arith, omega arith, hit, λ i lo hi. absurd (omega arith))
    | inr miss ↦ rw miss (
        go miss (first_stream p streams (range (suc start) n)) (first_stream-InRange n (suc start)))
  ]
    where
      here :
          serves p (streams start) ≡ false
          → (i : ℕ) → start ≤ i
          → (start < i → serves p (streams i) ≡ false)
          → serves p (streams i) ≡ false
      here miss i lo later = elim (dec_lt start i) [
        | yes after ↦ later after
        | no first ↦ let e : i ≡ start = omega arith in rw e miss
      ]

      go :
          serves p (streams start) ≡ false
          → (r : Option ℕ) → InRange (suc start) n r
          → InRange start (suc n) r
      go miss none rest = λ i lo hi. here miss i lo (λ l. rest i l (omega arith))
      go miss (some k) rest =
          (omega arith, omega arith, rest.2, λ i lo hi. here miss i lo (λ l. rest.3 i l hi))

  first_stream-append :
      (xs ys : List ℕ)
      → first_stream p streams (xs ++ ys)
        ≡ elim (first_stream p streams xs) [ none ↦ first_stream p streams ys | some k ↦ some k ]
  unfolding first_stream
  first_stream-append [] ys = refl
  first_stream-append (x ∷ xs) ys = ground (arith, first_stream-append xs ys)

  -- The next index from `start` on, going round at `max`, whose stream is used by the partition, if
  -- there is one.
  abbrev pub NextStream : ℕ → ℕ → Option ℕ → Type 0
  NextStream max start none = (i : ℕ) → i < max → serves p (streams i) ≡ false
  NextStream max start (some k) =
      (d : ℕ) × (d < max)
      × (k ≡ (start + d) % max)
      × (serves p (streams k) ≡ true)
      × ((e : ℕ) → e < d → serves p (streams ((start + e) % max)) ≡ false)

  -- The two loops together.
  module _ (max start : ℕ) (pos : 0 < max) where
    abbrev s : ℕ
    s = start % max

    s-lt : s < max
    s-lt = mod-lt start pos

    first_loop-NextStream : (k : ℕ) → InRange s (max - s) (some k) → NextStream max start (some k)
    first_loop-NextStream k (lo, hi, hit, before) =
        let fits = s-lt in
        (
          k - s,
          omega arith,
          sym (round_low max start (k - s) (omega arith) ∙ omega arith),
          hit,
          λ e h.
              rw (round_low max start e (omega arith)) (before (s + e) (omega arith) (omega arith)),
        )

    second_loop-NextStream :
        InRange s (max - s) none → (r : Option ℕ) → InRange 0 s r → NextStream max start r
    second_loop-NextStream none_high none none_low = λ i h. elim (dec_lt i s) [
      | yes low ↦ none_low i (omega arith) (omega arith)
      | no high ↦ none_high i (omega arith) (omega arith)
    ]
    second_loop-NextStream none_high (some k) (lo, hi, hit, before) =
        let fits = s-lt in
        (
          max - s + k,
          omega arith,
          sym (round_high max start (max - s + k) (omega arith) (omega arith) ∙ omega arith),
          hit,
          λ e h. elim (dec_lt (s + e) max) [
            | yes low ↦
                rw (round_low max start e low) (none_high (s + e) (omega arith) (omega arith))
            | no high ↦
                rw (round_high max start e (omega arith) (omega arith))
                  (before (s + e - max) (omega arith) (omega arith))
          ],
        )

    -- With at least one stream in the array, the call is defined and finds the next stream that the
    -- partition uses, going round, or finds that there is none.
    pub find_next_stream-NextStream :
        (r : Option ℕ) × (find_next_stream max p start streams ≡ some r) × NextStream max start r
    unfolding find_next_stream search_order
    find_next_stream-NextStream =
        let size : (max == 0) ≡ false = ground arith in
        let found = first_stream p streams (range s (max - s) ++ range 0 s) in
        (
          found,
          rw size,
          go (first_stream p streams (range s (max - s))) refl (first_stream-InRange (max - s) s),
        )
      where
        go :
            (r : Option ℕ)
            → first_stream p streams (range s (max - s)) ≡ r
            → InRange s (max - s) r
            → NextStream max start (first_stream p streams (range s (max - s) ++ range 0 s))
        go none e v =
            rw (first_stream-append (range s (max - s)) (range 0 s), e)
              (second_loop-NextStream v (first_stream p streams (range 0 s))
                (first_stream-InRange s 0))
        go (some k) e v =
            rw (first_stream-append (range s (max - s)) (range 0 s), e) (first_loop-NextStream k v)
