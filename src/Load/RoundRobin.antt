-- ===== src/Load/RoundRobin.antt =====
-- Dealing in turn: what the loop of abtst_init_loads (src/load/load.c) does with the streams of a
-- partition, as a function on their list.
use mathlib.Core.List.{append_assoc, append-nil}
use abtst.Common.{
  ℕ, zero, suc, ◌+◌, ◌≡◌, ◌⊎◌, inl, inr, refl, subst, ap, true, false, List, [], ◌∷◌, ◌++◌, arith,
  ◌==◌, if◌then◌else◌, length, mem, mem-append, count, Distinct, All, Bool-cases,
}

-- `n` turns, each at the head of the queue, whose owner goes to its end.
unfoldable pub round_robin : ℕ → List ℕ → List ℕ
round_robin zero q = []
round_robin (suc n) [] = []
round_robin (suc n) (k ∷ q) = k ∷ round_robin n (q ++ k ∷ [])

pub length-round_robin : (n k : ℕ) (q : List ℕ) → length (round_robin n (k ∷ q)) ≡ n
unfolding round_robin
length-round_robin zero k q = refl
length-round_robin (suc n) k [] = ap suc (length-round_robin n k [])
length-round_robin (suc n) k (j ∷ q) = ap suc (length-round_robin n j (q ++ k ∷ []))

All-weaken :
    (q q' xs : List ℕ)
    → ((j : ℕ) → mem j q ≡ true → mem j q' ≡ true)
    → All (λ j. mem j q ≡ true) xs
    → All (λ j. mem j q' ≡ true) xs
All-weaken q q' [] h all = tt
All-weaken q q' (x ∷ xs) h all = (h x all.0, All-weaken q q' xs h all.1)

pub round_robin-mem : (n : ℕ) (q : List ℕ) → All (λ j. mem j q ≡ true) (round_robin n q)
unfolding round_robin
round_robin-mem zero q = tt
round_robin-mem (suc n) [] = tt
round_robin-mem (suc n) (k ∷ q) = (
  ground arith,
  All-weaken (q ++ k ∷ []) (k ∷ q) (round_robin n (q ++ k ∷ []))
      (λ j m. ground (arith, m, mem-append j q (k ∷ []))) (round_robin-mem n (q ++ k ∷ [])),
)

-- Those that had their turn already are counted once more.
abbrev turns : ℕ → List ℕ → List ℕ → List ℕ → ℕ
turns j a b done = count j done + (if mem j b then 1 else 0)

abbrev Even : List ℕ → List ℕ → List ℕ → Type 0
Even a b ks =
    (c : ℕ) × ((j : ℕ) → mem j (a ++ b) ≡ true → (turns j a b ks ≡ c) ⊎ (turns j a b ks ≡ suc c))

Distinct-rotate : (k : ℕ) (q : List ℕ) → Distinct (k ∷ q) → Distinct (q ++ k ∷ [])
Distinct-rotate k [] d = d
Distinct-rotate k (j ∷ q) d =
    (ground (arith, d.0, d.1.0, mem-append j q (k ∷ [])), Distinct-rotate k q (ground arith, d.1.1))

-- One turn of the head of the queue.
turn_here :
    (k j : ℕ) (a b done : List ℕ)
    → mem k b ≡ false
    → turns j (k ∷ a) b (k ∷ done) ≡ turns j a (b ++ k ∷ []) done
turn_here k j a b done out = elim (Bool-cases (j == k)) [
  | inl same ↦ let e : j ≡ k = ground arith in rw e (ground (arith, out, mem-append k b (k ∷ [])))
  | inr apart ↦ ground (arith, apart, mem-append j b (k ∷ []))
]

still_here :
    (k j : ℕ) (a b : List ℕ) → mem j (k ∷ a ++ b) ≡ true → mem j (a ++ (b ++ k ∷ [])) ≡ true
still_here k j a b m =
    ground (arith, m, mem-append j a (b ++ k ∷ []), mem-append j b (k ∷ []), mem-append j a b)

round_robin-Even_step :
    (n k : ℕ) (a b : List ℕ)
    → mem k (a ++ b) ≡ false
    → Even a (b ++ k ∷ []) (round_robin n (a ++ (b ++ k ∷ [])))
    → Even (k ∷ a) b (round_robin (suc n) (k ∷ a ++ b))
unfolding round_robin
round_robin-Even_step n k a b out (c, rest) = (
  c,
  λ j m.
      let e =
        turn_here k j a b (round_robin n (a ++ (b ++ k ∷ [])))
          (ground (arith, out, mem-append k a b)) in
      rw (append_assoc a b (k ∷ []), e) (rest j (still_here k j a b m)),
)

-- When everyone had a turn, the next cycle begins.
wrap_here :
    (k j : ℕ) (b done : List ℕ)
    → mem j (k ∷ b) ≡ true
    → turns j [] (k ∷ b) (k ∷ done) ≡ suc (turns j b (k ∷ []) done)
wrap_here k j b done m = elim (Bool-cases (j == k)) [
  | inl same ↦ let e : j ≡ k = ground arith in rw e (ground arith)
  | inr apart ↦ ground (arith, apart, m)
]

round_robin-Even_wrap :
    (n k : ℕ) (b : List ℕ)
    → Even b (k ∷ []) (round_robin n (b ++ k ∷ []))
    → Even [] (k ∷ b) (round_robin (suc n) (k ∷ b))
unfolding round_robin
round_robin-Even_wrap n k b (c, rest) = (
  suc c,
  λ j m.
      let e = wrap_here k j b (round_robin n (b ++ k ∷ [])) m in
      let r = rest j (ground (arith, m, mem-append j b (k ∷ []))) in
      rw e (elim r [ inl x ↦ inl (ap suc x) | inr x ↦ inr (ap suc x) ]),
)

pub round_robin-Even_parts :
    (n : ℕ) (a b : List ℕ) → Distinct (a ++ b) → Even a b (round_robin n (a ++ b))
unfolding round_robin
round_robin-Even_parts zero a b d = (0, λ j m. ground arith)
round_robin-Even_parts (suc n) (k ∷ a) b d = round_robin-Even_step n k a b d.0 (
    round_robin-Even_parts n a (b ++ k ∷ [])
      (subst (λ l. Distinct l) (append_assoc a b (k ∷ [])) (Distinct-rotate k (a ++ b) d)))
round_robin-Even_parts (suc n) [] [] d = (0, λ j m. ground arith)
round_robin-Even_parts (suc n) [] (k ∷ b) d =
    round_robin-Even_wrap n k b (round_robin-Even_parts n b (k ∷ []) (Distinct-rotate k b d))

-- No one has two turns more than another.
pub round_robin-Even :
    (n : ℕ) (q : List ℕ)
    → Distinct q
    → (c : ℕ) × ((j : ℕ)
        → mem j q ≡ true
        → (count j (round_robin n q) ≡ c) ⊎ (count j (round_robin n q) ≡ suc c))
round_robin-Even n q d =
    let all : q ++ [] ≡ q = append-nil q in
    let (c, even) = round_robin-Even_parts n q [] (rw all d) in
    (
      c,
      λ j m.
          let same : count j (round_robin n (q ++ [])) ≡ count j (round_robin n q) =
            ap (λ l. count j (round_robin n l)) all in
          elim (even j (rw all m)) [
            | inl e ↦ inl (omega (arith, e, same))
            | inr e ↦ inr (omega (arith, e, same))
          ],
    )
