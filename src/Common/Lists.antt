-- ===== src/Common/Lists.antt =====
-- Lists measured and indexed by native numbers, under the library's names, and lists of addresses.
use Prim.Native.Nat.{ℕ, zero, suc, ◌+◌, ◌≤◌, ◌<◌}
use mathlib.Core.Path.{◌≡◌, refl, ap}
use mathlib.Core.Bool.{Bool, true, false, ◌||◌}
use mathlib.Core.Logic.{inl, inr}
use mathlib.Core.List.{List, [], ◌∷◌, ◌++◌}
use mathlib.Core.Option.{Option, none, some}
use native.Mathlib.Omega.{arith}
use native.Mathlib.Decide.{dec_lt}
use abtst.Common.Tests.{◌==◌, if◌then◌else◌, Bool-cases}

module _ {ℓ} {A : Type ℓ} where
  abbrev pub length : List A → ℕ
  length [] = 0
  length (x ∷ xs) = suc (length xs)

  abbrev pub get_elem? : List A → ℕ → Option A
  get_elem? [] i = none
  get_elem? (x ∷ xs) zero = some x
  get_elem? (x ∷ xs) (suc i) = get_elem? xs i

  abbrev pub take : ℕ → List A → List A
  take zero xs = []
  take (suc n) [] = []
  take (suc n) (x ∷ xs) = x ∷ take n xs

  abbrev pub drop : ℕ → List A → List A
  drop zero xs = xs
  drop (suc n) [] = []
  drop (suc n) (x ∷ xs) = drop n xs

  pub length-append : (xs ys : List A) → length (xs ++ ys) ≡ length xs + length ys
  length-append [] ys = omega arith
  length-append (x ∷ xs) ys = omega (arith, length-append xs ys)

-- `start, start + 1, …`, `n` numbers: the indices of a counted loop.
abbrev pub range : ℕ → ℕ → List ℕ
range start zero = []
range start (suc n) = start ∷ range (suc start) n

abbrev pub mem : ℕ → List ℕ → Bool
mem a [] = false
mem a (x ∷ xs) = (a == x) || mem a xs

-- How often an address stands in a list.
abbrev pub count : ℕ → List ℕ → ℕ
count a [] = 0
count a (x ∷ xs) = (if x == a then 1 else 0) + count a xs

-- Drops the first occurrence.
abbrev pub erase : ℕ → List ℕ → List ℕ
erase a [] = []
erase a (x ∷ xs) = if x == a then xs else x ∷ erase a xs

-- Counting in a list that grew by one entry at its end.
pub count-append_one :
    (b a : ℕ) (queue : List ℕ)
    → count a (queue ++ b ∷ []) ≡ (if b == a then 1 else 0) + count a queue
count-append_one b a [] = ground arith
count-append_one b a (c ∷ queue) = ground (arith, count-append_one b a queue)

pub count-erase :
    (a b : ℕ) (xs : List ℕ)
    → mem b xs ≡ true
    → count a (erase b xs) + (if b == a then 1 else 0) ≡ count a xs
count-erase a b [] m = ground arith
count-erase a b (x ∷ xs) m = ground (arith, count-erase a b xs)

pub length-erase : (b : ℕ) (xs : List ℕ) → mem b xs ≡ true → length (erase b xs) + 1 ≡ length xs
length-erase b [] m = ground arith
length-erase b (x ∷ xs) m = ground (arith, length-erase b xs)

-- Every element of a list of addresses has a property.
abbrev pub All {ℓ κ} : {A : Type ℓ} → (A → Type κ) → List A → Type κ
All P [] = Unit
All P (x ∷ xs) = P x × All P xs

-- No address stands twice in a list.
abbrev pub Distinct : List ℕ → Type 0
Distinct [] = Unit {0}
Distinct (x ∷ xs) = (mem x xs ≡ false) × Distinct xs

pub mem-append : (a : ℕ) (xs ys : List ℕ) → mem a (xs ++ ys) ≡ (mem a xs || mem a ys)
mem-append a [] ys = refl
mem-append a (x ∷ xs) ys = ground (arith, mem-append a xs ys)

pub mem-range : (k n start : ℕ) → start ≤ k → k < start + n → mem k (range start n) ≡ true
mem-range k zero start lo hi = absurd (omega arith)
mem-range k (suc n) start lo hi = elim (dec_lt start k) [
  | yes later ↦ ground (arith, mem-range k n (suc start))
  | no first ↦ ground arith
]

pub mem-range_iff : (k n start : ℕ) → mem k (range start n) ≡ true → (start ≤ k) × (k < start + n)
mem-range_iff k zero start m = absurd (ground arith)
mem-range_iff k (suc n) start m = ground (arith, mem-range_iff k n (suc start))

pub count-range : (k n start : ℕ) → start ≤ k → k < start + n → count k (range start n) ≡ 1
count-range k zero start lo hi = absurd (omega arith)
count-range k (suc n) start lo hi = elim (Bool-cases (start == k)) [
  | inl here ↦ rw here (omega (arith, count-range_before k n (suc start) (ground arith)))
  | inr later ↦ rw later (omega (arith, count-range k n (suc start) (ground arith) (omega arith)))
]
  where
    count-range_before : (j m from : ℕ) → j < from → count j (range from m) ≡ 0
    count-range_before j zero from lt = refl
    count-range_before j (suc m) from lt = ground (arith, count-range_before j m (suc from))

pub length-range : (n start : ℕ) → length (range start n) ≡ n
length-range zero start = refl
length-range (suc n) start = ap suc (length-range n (suc start))

pub All-range : (bound n start : ℕ) → start + n ≤ bound → All (λ i. i < bound) (range start n)
All-range bound zero start h = tt
All-range bound (suc n) start h = (omega arith, All-range bound n (suc start) (omega arith))

pub All-get {ℓ κ} :
    {A : Type ℓ} (P : A → Type κ) (xs : List A) (k : ℕ)
    → All P xs
    → k < length xs
    → (x : A) × (get_elem? xs k ≡ some x) × P x
All-get P [] k h lt = absurd (omega arith)
All-get P (x ∷ xs) zero h lt = (x, refl, h.0)
All-get P (x ∷ xs) (suc k) h lt = All-get P xs k h.1 (omega arith)
