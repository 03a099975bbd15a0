-- ===== src/Stream/Rehoused.antt =====
-- What every sequence of steps of Stream/Steps keeps of the streams and loads (src/stream/stream.c).
use abtst.Common.{
  ℕ, ◌%◌, ◌≡◌, refl, sym, ap, ◌∙◌, subst, true, arith, ◌==◌, length, mem, Bool-cases, inl, inr,
  u32_mod,
}
use abtst.Stream.{Stream, Store, put_stream, set_partition_id, set_qdepth, update_qdepth}
use abtst.Stream.Move.{IsCounted}
use abtst.Stream.Steps.{Step, Steps}
use abtst.Stream.Placed.{
  IsPlaced, IsQueued, frame, cargo, frame_put, move_load-IsPlaced, move_load-queued,
  move_load-queued_before, move_load-IsCounted, move_load-frame, move_load-cargo,
}

-- Two stores whose queues hold the same loads, on streams of the same ranks.
record Alike (s t : Store) : Type 0 where
  queues : (j : ℕ) → (t.streams j).load_q ≡ (s.streams j).load_q
  lengths : (j : ℕ) → (t.streams j).nr_loads ≡ (s.streams j).nr_loads
  frames : (j : ℕ) → frame (t.streams j) ≡ frame (s.streams j)
  loads : t.loads ≡ s.loads

put-Alike :
    (i : ℕ) (stream : Stream) (s : Store)
    → stream.load_q ≡ (s.streams i).load_q
    → stream.nr_loads ≡ (s.streams i).nr_loads
    → frame stream ≡ frame (s.streams i)
    → Alike s (put_stream i stream s)
put-Alike i stream s q n f = record {
  queues = λ j. elim (Bool-cases (j == i)) [
    | inl here ↦ let e : j ≡ i = ground arith in rw (here, e) q
    | inr apart ↦ rw apart refl
  ];
  lengths = λ j. elim (Bool-cases (j == i)) [
    | inl here ↦ let e : j ≡ i = ground arith in rw (here, e) n
    | inr apart ↦ rw apart refl
  ];
  frames = λ j. frame_put i j stream s f;
  loads = refl;
}

-- What a sequence of steps keeps.
pub record Rehoused (s t : Store) : Type 0 where
  pub placed : IsPlaced s → IsPlaced t
  pub counted : ((i : ℕ) → IsCounted (s.streams i)) → (i : ℕ) → IsCounted (t.streams i)
  pub there : (a : ℕ) → IsQueued a s → IsQueued a t
  pub back : (a : ℕ) → IsQueued a t → IsQueued a s
  pub frames : (j : ℕ) → frame (t.streams j) ≡ frame (s.streams j)
  pub cargos : (a : ℕ) → cargo (t.loads a) ≡ cargo (s.loads a)

Alike-Rehoused : {s t : Store} → Alike s t → Rehoused s t
Alike-Rehoused {s} {t} v = record {
  placed = λ p. record {
    single = λ j l. rw (v.queues j) (p.single j l);
    apart = λ i j l hi hj. p.apart i j l (queued i l hi) (queued j l hj);
    home = λ j l h.
        rw v.loads (p.home j l (queued j l h)) ∙ sym (ap (λ (st : Stream). st.rank) (v.frames j));
  };
  counted = λ all i. v.lengths i ∙ all i ∙ ap (λ q. length q % u32_mod) (sym (v.queues i));
  there = λ a (j, h). (j, rw (v.queues j) h);
  back = λ a (j, h). (j, queued j a h);
  frames = v.frames;
  cargos = λ a. rw v.loads refl;
}
  where
    queued : (j l : ℕ) → mem l (t.streams j).load_q ≡ true → mem l (s.streams j).load_q ≡ true
    queued j l h = subst (λ q. mem l q ≡ true) (v.queues j) h

Step-Rehoused : {s t : Store} → Step s t → Rehoused s t
unfolding set_qdepth update_qdepth set_partition_id
Step-Rehoused (Step.moved from to l s m) = record {
  placed = move_load-IsPlaced from to l s m;
  counted = move_load-IsCounted from to l s m;
  there = move_load-queued from to l s m;
  back = move_load-queued_before from to l s m;
  frames = move_load-frame from to l s;
  cargos = move_load-cargo from to l s;
}
Step-Rehoused (Step.measured i qdepth s) =
    Alike-Rehoused (put-Alike i (update_qdepth (s.streams i) qdepth) s refl refl refl)
Step-Rehoused (Step.lent i part_id s) =
    Alike-Rehoused (put-Alike i (set_partition_id (s.streams i) part_id) s refl refl refl)
Step-Rehoused (Step.slept i nsec s) =
    Alike-Rehoused (put-Alike i (record (s.streams i) { sleep_nsec = nsec }) s refl refl refl)

pub Steps-Rehoused : {s t : Store} → Steps s t → Rehoused s t
Steps-Rehoused (Steps.none s) =
    Alike-Rehoused
      (record { queues = λ j. refl; lengths = λ j. refl; frames = λ j. refl; loads = refl })
Steps-Rehoused (Steps.then s t u steps step) =
    let before = Steps-Rehoused steps in
    let last = Step-Rehoused step in
    record {
      placed = λ p. last.placed (before.placed p);
      counted = λ all. last.counted (before.counted all);
      there = λ a q. last.there a (before.there a q);
      back = λ a q. before.back a (last.back a q);
      frames = λ j. last.frames j ∙ before.frames j;
      cargos = λ a. last.cargos a ∙ before.cargos a;
    }
