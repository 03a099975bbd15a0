-- ===== src/Stream/Rebalance.antt =====
-- abtst_rebalance_streams (src/stream/stream.c) as a whole: nothing happens, or the chosen loads
-- move and both depths follow.
use abtst.Common.{
  ℕ, ◌+◌, ◌≤◌, ◌<◌, ◌≡◌, ◌≢◌, ◌⊎◌, refl, ◌∙◌, ap, inl, inr, true, some, List, [], ◌∷◌, arith,
  if◌then◌else◌, Bool-cases, length, mem, count, erase, count-erase, length-erase, le→leb, u32_mod,
}
use mathlib.Core.List.{reverse_aux}
use abtst.Common.Int.{ℤ, pos, negsuc, ◌+ℤ◌, ◌-ℤ◌, to_u32, int_laws}
use abtst.Load.{set_migrating}
use abtst.Stream.{
  Store, SortParam, Picked, set_qdepth, choose_loads, not_needed, hand_over, transfer,
  rebalance_streams,
}
use abtst.Stream.Move.{SubBag, IsCounted, mem_of_count, move_loads-Moved}
use abtst.Stream.Combine.{settled}
use abtst.Stream.Choose.{total_size, IsChoice, choose_loads-IsChoice}

-- The store `t` is `s` after the loads `ls` went from the stream of `p2` to the stream of `p1`.
pub record Rebalanced (p1 p2 : SortParam) (ls : List ℕ) (s t : Store) : Type 0 where
  pub some_load : ls ≢ []
  pub arrived : (t.streams p1.stream).load_q ≡ reverse_aux ls (s.streams p1.stream).load_q
  pub left :
      (a : ℕ)
      → count a (t.streams p2.stream).load_q + count a ls ≡ count a (s.streams p2.stream).load_q
  pub depth_to : (t.streams p1.stream).total_qdepth ≡ to_u32 (p1.ios +ℤ total_size s.loads ls)
  pub depth_from : (t.streams p2.stream).total_qdepth ≡ to_u32 (p2.ios -ℤ total_size s.loads ls)
  pub fields : (i : ℕ) → settled (t.streams i) ≡ settled (s.streams i)
  pub elsewhere : (i : ℕ) → i ≢ p2.stream → i ≢ p1.stream → t.streams i ≡ s.streams i
  pub counted : (i : ℕ) → IsCounted (s.streams i) → IsCounted (t.streams i)
  pub marked :
      (a : ℕ)
      → t.loads a ≡ (
          if mem a ls then set_migrating (s.loads a) true (s.streams p1.stream).rank else s.loads a)

give_back : (a b t : ℤ) → b -ℤ (a +ℤ t -ℤ a) ≡ b -ℤ t
give_back a b t = omega int_laws

length-le_of_SubBag : (xs ys : List ℕ) → SubBag xs ys → length xs ≤ length ys
length-le_of_SubBag [] ys h = omega arith
length-le_of_SubBag (x ∷ xs) ys h =
    let m = mem_of_count x ys (ground (arith, h x)) in
    let rest =
      length-le_of_SubBag xs (erase x ys) (λ a. ground (arith, h a, count-erase a x ys m)) in
    omega (arith, rest, length-erase x ys m)

module _ (p1 p2 : SortParam) (avg : ℕ) (s : Store) (ne : p2.stream ≢ p1.stream) where
  hand_over-Rebalanced :
      (p : Picked)
      → p.mloads ≢ []
      → SubBag p.mloads (s.streams p2.stream).load_q
      → p.ios ≡ p1.ios +ℤ total_size s.loads p.mloads
      → Rebalanced p1 p2 p.mloads s (hand_over p1 p2 p s).1
  unfolding hand_over set_qdepth
  hand_over-Rebalanced p nonempty bag gained =
      let m = move_loads-Moved ne p.mloads s bag in
      record {
        some_load = nonempty;
        arrived = ground (arith, m.arrived);
        left = λ a. ground (arith, m.left a);
        depth_to = ground (arith, ap to_u32 gained);
        depth_from = ground (
          arith,
          ap to_u32 (ap (λ k. p2.ios -ℤ (k -ℤ p1.ios)) gained ∙ give_back p1.ios p2.ios _),
        );
        fields = λ i. ground (arith, m.fields i);
        elsewhere = λ i h k. ground (arith, m.elsewhere i h k);
        counted = λ i c. ground (arith, m.counted i);
        marked = m.marked;
      }

  -- Two streams, of which `from` keeps its length and holds fewer than 2 ^ 32 loads: the call
  -- reports -1 and changes nothing, or reports 0 and has moved at least one load.
  pub rebalance_streams-Rebalanced :
      IsCounted (s.streams p2.stream)
      → length (s.streams p2.stream).load_q < u32_mod
      → (rebalance_streams p1 p2 avg s ≡ some (negsuc 0, s))
        ⊎ ((t : Store) × (rebalance_streams p1 p2 avg s ≡ some (pos 0, t))
            × Rebalanced p1 p2 (choose_loads p1 p2 avg s).mloads s t)
  unfolding rebalance_streams
  rebalance_streams-Rebalanced c fits = elim (Bool-cases (not_needed p1 p2 avg)) [
    | inl rest ↦ inl (rw rest)
    | inr needed ↦
        rw needed (go (choose_loads p1 p2 avg s) (choose_loads-IsChoice p1 p2 avg s) _ refl)
  ]
    where
      go :
          (p : Picked)
          → IsChoice p1 p2 avg s p
          → (ls : List ℕ) → p.mloads ≡ ls
          → (transfer p1 p2 s p ls ≡ some (negsuc 0, s))
            ⊎ ((t : Store) × (transfer p1 p2 s p ls ≡ some (pos 0, t))
                × Rebalanced p1 p2 p.mloads s t)
      go p choice [] e = inl refl
      go p choice (x ∷ xs) e =
          let short = length-le_of_SubBag p.mloads (s.streams p2.stream).load_q choice.bag in
          let fit : length (x ∷ xs) ≤ (s.streams p2.stream).nr_loads = omega (arith, ap length e) in
          inr (
            (hand_over p1 p2 p s).1,
            rw (le→leb _ _ fit),
            hand_over-Rebalanced p (λ n. cc) choice.bag choice.gained,
          )
