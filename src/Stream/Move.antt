-- ===== src/Stream/Move.antt =====
-- What the loop that hands loads over leaves behind (the moves of abtst_combine_streams and
-- abtst_rebalance_streams in src/stream/stream.c).
use abtst.Common.{
  ℕ, ◌+◌, ◌%◌, ◌≤◌, ◌≡◌, ◌≢◌, refl, ◌∙◌, ap, true, List, [], ◌∷◌, arith, ◌==◌, if◌then◌else◌,
  length, mem, count, erase, count-erase, length-erase, u32_mod,
}
use mathlib.Core.List.{reverse_aux}
use abtst.Load.{set_migrating}
use abtst.Stream.{Stream, Store, move_load, move_loads}

-- A stream but for its queue and the length that it keeps of it.
abbrev pub bare : Stream → Stream
bare st = record st { load_q = []; nr_loads = 0 }

-- The kept length is the queue's, as far as 32 bits go.
abbrev pub IsCounted : Stream → Type 0
IsCounted st = st.nr_loads ≡ length st.load_q % u32_mod

-- No load stands in the first list more often than in the second.
abbrev pub SubBag : List ℕ → List ℕ → Type 0
SubBag xs ys = (a : ℕ) → count a xs ≤ count a ys

-- The store `t` is `s` after the loads `ls` went from the stream `from` to the stream `to`.
pub record Moved (from to : ℕ) (ls : List ℕ) (s t : Store) : Type 0 where
  pub arrived : (t.streams to).load_q ≡ reverse_aux ls (s.streams to).load_q
  pub left :
      (a : ℕ) → count a (t.streams from).load_q + count a ls ≡ count a (s.streams from).load_q
  pub fields : (i : ℕ) → bare (t.streams i) ≡ bare (s.streams i)
  pub elsewhere : (i : ℕ) → i ≢ from → i ≢ to → t.streams i ≡ s.streams i
  pub counted : (i : ℕ) → IsCounted (s.streams i) → IsCounted (t.streams i)
  pub marked :
      (a : ℕ)
      → t.loads a
        ≡ (if mem a ls then set_migrating (s.loads a) true (s.streams to).rank else s.loads a)

pub mem_of_count : (l : ℕ) (q : List ℕ) → 1 ≤ count l q → mem l q ≡ true
mem_of_count l [] h = absurd (omega arith)
mem_of_count l (x ∷ q) h = ground (arith, mem_of_count l q)

module _ {from to : ℕ} (ne : from ≢ to) (l : ℕ) (s : Store) where
  step_arrived : ((move_load from to l s).streams to).load_q ≡ l ∷ (s.streams to).load_q
  unfolding move_load
  step_arrived = ground arith

  step_left : ((move_load from to l s).streams from).load_q ≡ erase l (s.streams from).load_q
  unfolding move_load
  step_left = ground arith

  step_fields : (i : ℕ) → bare ((move_load from to l s).streams i) ≡ bare (s.streams i)
  unfolding move_load
  step_fields i = ground arith

  step_rank : ((move_load from to l s).streams to).rank ≡ (s.streams to).rank
  unfolding move_load
  step_rank = ground arith

  step_elsewhere : (i : ℕ) → i ≢ from → i ≢ to → (move_load from to l s).streams i ≡ s.streams i
  unfolding move_load
  step_elsewhere i p q = ground arith

  step-IsCounted :
      mem l (s.streams from).load_q ≡ true
      → (i : ℕ) → IsCounted (s.streams i)
      → IsCounted ((move_load from to l s).streams i)
  unfolding move_load
  step-IsCounted m i c = ground (arith, length-erase l (s.streams from).load_q m)

  step_marked :
      (a : ℕ)
      → (move_load from to l s).loads a
        ≡ (if a == l then set_migrating (s.loads a) true (s.streams to).rank else s.loads a)
  unfolding move_load
  step_marked a = ground arith

-- One load, then the others.
Moved-cons :
    {from to : ℕ} (ne : from ≢ to) (l : ℕ) (ls : List ℕ) (s t : Store)
    → mem l (s.streams from).load_q ≡ true
    → Moved from to ls (move_load from to l s) t
    → Moved from to (l ∷ ls) s t
unfolding set_migrating
Moved-cons {from} {to} ne l ls s t m rest = record {
  arrived = rest.arrived ∙ ap (reverse_aux ls) (step_arrived ne l s);
  left = λ a. omega (
    arith,
    rest.left a,
    ap (count a) (step_left ne l s),
    count-erase a l (s.streams from).load_q m,
  );
  fields = λ i. rest.fields i ∙ step_fields ne l s i;
  elsewhere = λ i p q. rest.elsewhere i p q ∙ step_elsewhere ne l s i p q;
  counted = λ i c. rest.counted i (step-IsCounted ne l s m i c);
  marked = λ a. ground (arith, rest.marked a, step_marked ne l s a, step_rank ne l s);
}

-- Handing over a list of loads that stand in the queue of `from`.
pub move_loads-Moved :
    {from to : ℕ} (ne : from ≢ to) (ls : List ℕ) (s : Store)
    → SubBag ls (s.streams from).load_q
    → Moved from to ls s (move_loads from to ls s)
unfolding move_loads set_migrating
move_loads-Moved ne [] s sub = record {
  arrived = refl;
  left = λ a. omega arith;
  fields = λ i. refl;
  elsewhere = λ i p q. refl;
  counted = λ i c. c;
  marked = λ a. refl;
}
move_loads-Moved {from} {to} ne (l ∷ ls) s sub =
    let m = mem_of_count l (s.streams from).load_q (ground (arith, sub l)) in
    Moved-cons ne l ls s (move_loads from to ls (move_load from to l s)) m (
      move_loads-Moved ne ls (move_load from to l s)
        λ a. ground (arith, sub a, step_left ne l s, count-erase a l (s.streams from).load_q m))
