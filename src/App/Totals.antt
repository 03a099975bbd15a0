-- ===== src/App/Totals.antt =====
-- The counters of several loads together, for App/UnderWay.
use abtst.Common.{
  ℕ, ◌+◌, ◌%◌, ◌≡◌, inl, inr, refl, subst, true, false, List, [], ◌∷◌, arith, ◌==◌, Bool-cases, mem,
  erase, Distinct, add_u64, u64_mod,
}
use abtst.Common.Store.{Array, write}
use abtst.Load.{Load}
use abtst.App.Submit.{IoParam}

-- A counter of the loads `ls`, added up.
abbrev pub total : (Load → ℕ) → Array Load → List ℕ → ℕ
total counter loads [] = 0
total counter loads (l ∷ ls) = counter (loads l) + total counter loads ls

total-outside :
    (counter : Load → ℕ) (loads : Array Load) (l : ℕ) (load : Load) (ls : List ℕ)
    → mem l ls ≡ false
    → total counter (write loads l load) ls ≡ total counter loads ls
total-outside counter loads l load [] out = refl
total-outside counter loads l load (k ∷ ls) out =
    let apart : (k == l) ≡ false = ground (arith, out) in
    let rest = total-outside counter loads l load ls (ground (arith, out)) in rw (apart, rest) refl

-- One load is written.
pub total-write :
    (counter : Load → ℕ) (loads : Array Load) (l : ℕ) (load : Load) (ls : List ℕ)
    → Distinct ls
    → mem l ls ≡ true
    → total counter (write loads l load) ls + counter (loads l)
      ≡ total counter loads ls + counter load
total-write counter loads l load [] d m = cc
total-write counter loads l load (k ∷ ls) d m = elim (Bool-cases (k == l)) [
  | inl here ↦
      let e : k ≡ l = ground arith in
      let out : mem l ls ≡ false = subst (λ x. mem x ls ≡ false) e d.0 in
      let rest = total-outside counter loads l load ls out in rw (here, e, rest) (omega arith)
  | inr apart ↦
      let rest = total-write counter loads l load ls d.1 (ground (arith, m, apart)) in
      rw apart (omega (arith, rest))
]

pub started_one :
    (t t' s e n : ℕ)
    → t % u64_mod ≡ (e + n) % u64_mod
    → t' + s ≡ t + add_u64 s 1
    → t' % u64_mod ≡ (e + (n + 1)) % u64_mod
started_one t t' s e n h one = omega (arith, h, one)

pub ended_one :
    (t e e' d n n' : ℕ)
    → t % u64_mod ≡ (e + n) % u64_mod
    → e' + d ≡ e + add_u64 d 1
    → n' + 1 ≡ n
    → t % u64_mod ≡ (e' + n') % u64_mod
ended_one t e e' d n n' h one fewer = omega (arith, h, one, fewer)

-- A slot is written with a load of `ls`: the slots whose loads are in `ls` still are such.
pub slots-in :
    (ls is : List ℕ) (i : ℕ) (param : IoParam) (params params' : Array IoParam)
    → params' ≡ write params i param
    → mem param.load ls ≡ true
    → ((j : ℕ) → mem j is ≡ true → mem (params j).load ls ≡ true)
    → (j : ℕ) → mem j is ≡ true
    → mem (params' j).load ls ≡ true
slots-in ls is i param params params' same inside known j m =
    rw same
      (elim (Bool-cases (j == i)) [ inl here ↦ rw here inside | inr other ↦ rw other (known j m) ])

-- An entry of a list without one of its entries is in the list.
pub mem-erase : (j i : ℕ) (is : List ℕ) → mem j (erase i is) ≡ true → mem j is ≡ true
mem-erase j i [] m = m
mem-erase j i (k ∷ is) m = ground (arith, mem-erase j i is)
