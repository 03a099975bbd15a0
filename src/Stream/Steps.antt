-- ===== src/Stream/Steps.antt =====
-- An abstract view of what the rebalancer may do to streams and loads (src/stream/stream.c): one load
-- goes from a queue to another, a depth or a time is noted, a stream changes its partition.
use abtst.Common.{
  ℕ, ◌+◌, ◌≤◌, ◌≡◌, true, Option, some, List, [], ◌∷◌, arith, leb, ◌==◌, if◌then◌else◌, length, mem,
  count, count-erase, subst, ==_refl, Bool-cases, inl, inr, require, >>=-eq-some,
}
use abtst.Common.Int.{ℤ}
use abtst.Stream.{
  add_load_to_stream, remove_load_from_stream, Store, SortParam, Picked, put_stream,
  set_partition_id, move_load, move_loads, set_qdepth, combine_streams, choose_loads, not_needed,
  hand_over, transfer, rebalance_streams,
}
use abtst.Stream.Choose.{choose_loads-IsChoice}
use abtst.Stream.Move.{SubBag, mem_of_count}

pub data Step : Store → Store → Type 0 where
  moved :
      (from to l : ℕ) (s : Store)
      → mem l (s.streams from).load_q ≡ true
      → Step s (move_load from to l s)
  measured : (i qdepth : ℕ) (s : Store) → Step s (set_qdepth i qdepth s)
  lent :
      (i part_id : ℕ) (s : Store) → Step s (put_stream i (set_partition_id (s.streams i) part_id) s)
  slept :
      (i nsec : ℕ) (s : Store)
      → Step s (put_stream i (record (s.streams i) { sleep_nsec = nsec }) s)

pub data Steps : Store → Store → Type 0 where
  none : (s : Store) → Steps s s
  then : (s t u : Store) → Steps s t → Step t u → Steps s u

pub trans-Steps : {s t u : Store} → Steps s t → Steps t u → Steps s u
trans-Steps p (Steps.none _) = p
trans-Steps {s} p (Steps.then t v u q st) = Steps.then s v u (trans-Steps p q) st

-- How often an address counts.
abbrev pub once : ℕ → ℕ → ℕ
once l a = if l == a then 1 else 0

abbrev pub at : ℕ → ℕ → ℕ → ℕ
at j k n = if j == k then n else 0

remove-count :
    (i l j a : ℕ) (s : Store)
    → mem l (s.streams i).load_q ≡ true
    → count a ((remove_load_from_stream i l s).streams j).load_q + at j i (once l a)
      ≡ count a (s.streams j).load_q
unfolding remove_load_from_stream
remove-count i l j a s m = elim (Bool-cases (j == i)) [
  | inl here ↦ let e : j ≡ i = ground arith in rw (here, e) (count-erase a l (s.streams i).load_q m)
  | inr apart ↦ rw apart (omega arith)
]

add-count :
    (i l j a : ℕ) (s : Store)
    → count a ((add_load_to_stream i l s).streams j).load_q
      ≡ count a (s.streams j).load_q + at j i (once l a)
unfolding add_load_to_stream
add-count i l j a s = elim (Bool-cases (j == i)) [
  | inl here ↦ let e : j ≡ i = ground arith in rw (here, e) (omega arith)
  | inr apart ↦ rw apart (omega arith)
]

-- The loads of every queue after one went from a queue to another, or to the same.
pub move_load-count :
    (from to l j a : ℕ) (s : Store)
    → mem l (s.streams from).load_q ≡ true
    → count a ((move_load from to l s).streams j).load_q + at j from (once l a)
      ≡ count a (s.streams j).load_q + at j to (once l a)
unfolding move_load
move_load-count from to l j a s m =
    omega
      (arith, remove-count from l j a s m, add-count to l j a (remove_load_from_stream from l s))

left_over :
    (from to l a : ℕ) (ls : List ℕ) (s : Store)
    → mem l (s.streams from).load_q ≡ true
    → count a (l ∷ ls) ≤ count a (s.streams from).load_q
    → count a ls ≤ count a ((move_load from to l s).streams from).load_q
left_over from to l a ls s m h =
    let c = move_load-count from to l from a s m in
    let self : (from == from) ≡ true = ==_refl from in
    let c' =
      subst
        (λ b.
          count a ((move_load from to l s).streams from).load_q + (if b then once l a else 0)
          ≡ count a (s.streams from).load_q + at from to (once l a))
        self c in
    omega (arith, c', h)

pub move_loads-Steps :
    (from to : ℕ) (ls : List ℕ) (s t : Store)
    → Steps s t
    → SubBag ls (t.streams from).load_q
    → Steps s (move_loads from to ls t)
unfolding move_loads
move_loads-Steps from to [] s t p sub = p
move_loads-Steps from to (l ∷ ls) s t p sub =
    let m = mem_of_count l (t.streams from).load_q (ground (arith, sub l)) in
    move_loads-Steps from to ls s (move_load from to l t)
      (Steps.then s t (move_load from to l t) p (Step.moved from to l t m))
      (λ a. left_over from to l a ls t m (sub a))

pub result_store :
    {A : Type 0} (a b : ℤ) (s t : A) → ◌≡◌ {A = Option (ℤ × A)} (some (a, s)) (some (b, t)) → s ≡ t
result_store a b s t h = cc

measured_two : (i j m n : ℕ) (s t : Store) → Steps s t → Steps s (set_qdepth i m (set_qdepth j n t))
measured_two i j m n s t p =
    Steps.then s (set_qdepth j n t) _ (Steps.then s t _ p (Step.measured j n t))
      (Step.measured i m (set_qdepth j n t))

-- Whatever the two streams, and whether or not they are one.
pub combine_streams-Steps :
    (from to : ℕ) (s t : Store) (ret : ℤ) → combine_streams from to s ≡ some (ret, t) → Steps s t
unfolding combine_streams
combine_streams-Steps from to s t ret h = elim (Bool-cases ((s.streams from).nr_loads == 0)) [
  | inl empty ↦ subst (Steps s) (result_store _ ret s t (rw empty at h)) (Steps.none s)
  | inr full ↦
      let (_, ok, rest) =
        >>=-eq-some (require (leb (length (s.streams from).load_q) (s.streams from).nr_loads)) _
          (rw full at h) in
      let moved =
        move_loads-Steps from to (s.streams from).load_q s s (Steps.none s) (λ a. omega arith) in
      subst (Steps s) (result_store _ ret _ t rest) (measured_two from to 0 _ s _ moved)
]

transfer-Steps :
    (p1 p2 : SortParam) (s t : Store) (ret : ℤ) (p : Picked) (ls : List ℕ)
    → SubBag p.mloads (s.streams p2.stream).load_q
    → transfer p1 p2 s p ls ≡ some (ret, t)
    → Steps s t
unfolding transfer hand_over
transfer-Steps p1 p2 s t ret p [] bag h = subst (Steps s) (result_store _ ret s t h) (Steps.none s)
transfer-Steps p1 p2 s t ret p (l ∷ ls) bag h =
    let (_, ok, rest) =
      >>=-eq-some (require (leb (length (l ∷ ls)) (s.streams p2.stream).nr_loads)) _ h in
    let moved = move_loads-Steps p2.stream p1.stream p.mloads s s (Steps.none s) bag in
    subst (Steps s) (result_store _ ret _ t rest) (measured_two p1.stream p2.stream _ _ s _ moved)

pub rebalance_streams-Steps :
    (p1 p2 : SortParam) (avg : ℕ) (s t : Store) (ret : ℤ)
    → rebalance_streams p1 p2 avg s ≡ some (ret, t)
    → Steps s t
unfolding rebalance_streams
rebalance_streams-Steps p1 p2 avg s t ret h = elim (Bool-cases (not_needed p1 p2 avg)) [
  | inl idle ↦ subst (Steps s) (result_store _ ret s t (rw idle at h)) (Steps.none s)
  | inr needed ↦
      let chosen = choose_loads p1 p2 avg s in
      transfer-Steps p1 p2 s t ret chosen chosen.mloads (choose_loads-IsChoice p1 p2 avg s).bag
        (rw needed at h)
]
