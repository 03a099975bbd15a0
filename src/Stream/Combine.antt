-- ===== src/Stream/Combine.antt =====
-- abtst_combine_streams (src/stream/stream.c): all loads of one stream go to another.
use abtst.Common.{
  ℕ, ◌≤◌, ◌<◌, ◌≡◌, ◌≢◌, refl, inl, inr, true, some, List, [], ◌∷◌, arith, ◌==◌, if◌then◌else◌,
  Bool-cases, length, mem, count, le→leb, u32_mod, add_u32,
}
use mathlib.Core.List.{reverse_aux}
use abtst.Common.Int.{pos}
use abtst.Load.{set_migrating}
use abtst.Stream.{Stream, Store, move_loads, set_qdepth, combine_streams}
use abtst.Stream.Move.{IsCounted, Moved, move_loads-Moved}

-- A stream but for its queue, its kept length and its depth.
abbrev pub settled : Stream → Stream
settled st = record st { load_q = []; nr_loads = 0; total_qdepth = 0 }

-- The store `t` is `s` after everything queued on `from` went to `to`.
pub record Combined (from to : ℕ) (s t : Store) : Type 0 where
  pub emptied : (t.streams from).load_q ≡ []
  pub joined : (t.streams to).load_q ≡ reverse_aux (s.streams from).load_q (s.streams to).load_q
  pub depth :
      add_u32 (t.streams from).total_qdepth (t.streams to).total_qdepth
      ≡ add_u32 (s.streams from).total_qdepth (s.streams to).total_qdepth
  pub fields : (i : ℕ) → settled (t.streams i) ≡ settled (s.streams i)
  pub elsewhere : (i : ℕ) → i ≢ from → i ≢ to → t.streams i ≡ s.streams i
  pub counted : (i : ℕ) → IsCounted (s.streams i) → IsCounted (t.streams i)
  pub marked :
      (a : ℕ)
      → t.loads a ≡ (
          if mem a (s.streams from).load_q
          then set_migrating (s.loads a) true (s.streams to).rank
          else s.loads a)

nil_of_count : (q : List ℕ) → ((a : ℕ) → count a q ≡ 0) → q ≡ []
nil_of_count [] h = refl
nil_of_count (x ∷ q) h = absurd (ground (arith, h x))

nil_of_length : (q : List ℕ) → length q ≡ 0 → q ≡ []
nil_of_length [] h = refl
nil_of_length (x ∷ q) h = absurd (omega arith)

module _ {from to : ℕ} (ne : from ≢ to) (s : Store) where
  after_moves : Store
  after_moves = move_loads from to (s.streams from).load_q s

  combined : Store
  combined = set_qdepth from 0 (
      set_qdepth to
        (add_u32 (after_moves.streams from).total_qdepth (after_moves.streams to).total_qdepth)
        after_moves)

  combined-Combined :
      Moved from to (s.streams from).load_q s after_moves → Combined from to s combined
  unfolding combined set_qdepth
  combined-Combined m = record {
    emptied = nil_of_count _ (λ a. ground (arith, m.left a));
    joined = ground (arith, m.arrived);
    depth = ground (arith, m.fields from, m.fields to);
    fields = λ i. ground (arith, m.fields i);
    elsewhere = λ i p q. ground (arith, m.elsewhere i p q);
    counted = λ i c. ground (arith, m.counted i);
    marked = m.marked;
  }

  idle-Combined : (s.streams from).load_q ≡ [] → Combined from to s s
  idle-Combined e = record {
    emptied = e;
    joined = rw e;
    depth = refl;
    fields = λ i. refl;
    elsewhere = λ i p q. refl;
    counted = λ i c. c;
    marked = λ a. rw e;
  }

  kept :
      IsCounted (s.streams from)
      → length (s.streams from).load_q < u32_mod
      → length (s.streams from).load_q ≤ (s.streams from).nr_loads
  kept c fits = omega arith

  -- Two streams, of which the first keeps its length and holds fewer than 2 ^ 32 loads: the call
  -- returns 0, and all loads went over.
  pub combine_streams-Combined :
      IsCounted (s.streams from)
      → length (s.streams from).load_q < u32_mod
      → (t : Store) × (combine_streams from to s ≡ some (pos 0, t)) × Combined from to s t
  unfolding combine_streams combined after_moves
  combine_streams-Combined c fits = elim (Bool-cases ((s.streams from).nr_loads == 0)) [
    | inl empty ↦ (s, rw empty, idle-Combined (nil_of_length _ (ground arith)))
    | inr full ↦ (
      combined,
      rw (full, le→leb _ _ (kept c fits)),
      combined-Combined (move_loads-Moved ne _ s (λ a. omega arith)),
    )
  ]
