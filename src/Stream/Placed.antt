-- ===== src/Stream/Placed.antt =====
-- Where the loads are queued (src/stream/stream.c), and what the move of one of them keeps of it.
use abtst.Common.{
  ℕ, ◌+◌, ◌≤◌, ◌≡◌, refl, sym, ap, ◌∙◌, subst, true, false, List, [], ◌∷◌, arith, ◌==◌, mem, count,
  erase, Bool-cases, inl, inr, add_u32, sub_u32, length-erase, ==_refl,
}
use abtst.Load.{Load, set_migrating}
use abtst.Stream.{Stream, Store, put_stream, add_load_to_stream, remove_load_from_stream, move_load}
use abtst.Stream.Move.{IsCounted, mem_of_count}
use abtst.Stream.Steps.{move_load-count, once, at}

-- A queued load stands in one queue, once, and is to run on that queue's stream.
pub record IsPlaced (s : Store) : Type 0 where
  pub single : (j l : ℕ) → count l (s.streams j).load_q ≤ 1
  pub apart :
      (i j l : ℕ) → mem l (s.streams i).load_q ≡ true → mem l (s.streams j).load_q ≡ true → i ≡ j
  pub home :
      (j l : ℕ) → mem l (s.streams j).load_q ≡ true → (s.loads l).dest_rank ≡ (s.streams j).rank

-- The load stands in a queue.
abbrev pub IsQueued : ℕ → Store → Type 0
IsQueued l s = (j : ℕ) × (mem l (s.streams j).load_q ≡ true)

-- All of a stream but its queue, that queue's length, its partition and its statistics.
abbrev pub frame : Stream → Stream
frame stream = record stream {
  load_q = [];
  nr_loads = 0;
  total_qdepth = 0;
  sleep_nsec = 0;
  part_id = 0;
}

-- All of a load but where it is to run.
abbrev pub cargo : Load → Load
cargo load = record load { dest_rank = 0 }

pub mem_one : (l : ℕ) (q : List ℕ) → mem l q ≡ true → 1 ≤ count l q
mem_one l [] m = absurd (ground arith)
mem_one l (x ∷ q) m = elim (Bool-cases (l == x)) [
  | inl here ↦ ground arith
  | inr there ↦ ground (arith, mem_one l q (ground arith))
]

pub count_not_mem : (l : ℕ) (q : List ℕ) → mem l q ≡ false → count l q ≡ 0
count_not_mem l [] m = refl
count_not_mem l (x ∷ q) m = ground (arith, count_not_mem l q (ground arith))

-- A stream that is written with its frame kept.
pub frame_put :
    (i j : ℕ) (stream : Stream) (s : Store)
    → frame stream ≡ frame (s.streams i)
    → frame ((put_stream i stream s).streams j) ≡ frame (s.streams j)
frame_put i j stream s h = elim (Bool-cases (j == i)) [
  | inl here ↦ let e : j ≡ i = ground arith in rw (here, e) h
  | inr apart ↦ rw apart refl
]

IsCounted-put :
    (i j : ℕ) (stream : Stream) (s : Store)
    → IsCounted stream
    → IsCounted (s.streams j)
    → IsCounted ((put_stream i stream s).streams j)
IsCounted-put i j stream s new old = elim (Bool-cases (j == i)) [
  | inl here ↦ rw here new
  | inr apart ↦ rw apart old
]

shorter :
    (l : ℕ) (st : Stream)
    → mem l st.load_q ≡ true
    → IsCounted st
    → IsCounted (record st { load_q = erase l st.load_q; nr_loads = sub_u32 st.nr_loads 1 })
shorter l st m c = ground (arith, length-erase l st.load_q m)

longer :
    (l : ℕ) (st : Stream)
    → IsCounted st
    → IsCounted (record st { load_q = l ∷ st.load_q; nr_loads = add_u32 st.nr_loads 1 })
longer l st c = ground arith

module _ (from to l : ℕ) (s : Store) where
  pub move_load-frame : (j : ℕ) → frame ((move_load from to l s).streams j) ≡ frame (s.streams j)
  unfolding move_load add_load_to_stream remove_load_from_stream
  move_load-frame j =
      frame_put to j _ (remove_load_from_stream from l s) refl ∙ frame_put from j _ s refl

  move_load-rank : (j : ℕ) → ((move_load from to l s).streams j).rank ≡ (s.streams j).rank
  move_load-rank j = ap (λ (st : Stream). st.rank) (move_load-frame j)

  move_load-other : (a : ℕ) → (a == l) ≡ false → (move_load from to l s).loads a ≡ s.loads a
  unfolding move_load add_load_to_stream remove_load_from_stream
  move_load-other a ne = rw ne refl

  move_load-dest : ((move_load from to l s).loads l).dest_rank ≡ (s.streams to).rank
  unfolding move_load add_load_to_stream remove_load_from_stream set_migrating
  move_load-dest = rw (==_refl l) (move_load-rank to)

  pub move_load-cargo : (a : ℕ) → cargo ((move_load from to l s).loads a) ≡ cargo (s.loads a)
  unfolding move_load add_load_to_stream remove_load_from_stream set_migrating
  move_load-cargo a = elim (Bool-cases (a == l)) [
    | inl here ↦ let e : a ≡ l = ground arith in rw (here, e) refl
    | inr apart ↦ rw apart refl
  ]

module _ (from to l : ℕ) (s : Store) (m : mem l (s.streams from).load_q ≡ true) where
  moves :
      (j a : ℕ)
      → count a ((move_load from to l s).streams j).load_q + at j from (once l a)
        ≡ count a (s.streams j).load_q + at j to (once l a)
  moves j a = move_load-count from to l j a s m

  -- The other loads stay in their queues.
  stays :
      (j a : ℕ)
      → (a == l) ≡ false
      → count a ((move_load from to l s).streams j).load_q ≡ count a (s.streams j).load_q
  stays j a ne = ground (arith, moves j a)

  -- Its queue is that of `to`.
  lands : IsPlaced s → (j : ℕ) → mem l ((move_load from to l s).streams j).load_q ≡ true → j ≡ to
  lands v j h =
      let c = moves j l in
      let self = ==_refl l in
      let some_left = mem_one l _ h in
      elim (Bool-cases (j == to)) [
        | inl here ↦ ground arith
        | inr apart ↦
            let left : 1 ≤ count l (s.streams j).load_q = ground arith in
            let e = v.apart j from l (mem_of_count l _ left) m in
            absurd (ground (arith, v.single j l))
      ]

  one_there : IsPlaced s → (j : ℕ) → count l ((move_load from to l s).streams j).load_q ≤ 1
  one_there v j =
      let c = moves j l in
      let self = ==_refl l in
      let only = v.single j l in
      elim (Bool-cases (j == to)) [
        | inr apart ↦ ground arith
        | inl here ↦ elim (Bool-cases (j == from)) [
          | inl both ↦ ground arith
          | inr other ↦ elim (Bool-cases (mem l (s.streams j).load_q)) [
            | inl twice ↦ let e = v.apart j from l twice m in absurd (ground arith)
            | inr away ↦ let n = count_not_mem l (s.streams j).load_q away in ground arith
          ]
        ]
      ]

  still :
      (j a : ℕ)
      → (a == l) ≡ false
      → mem a ((move_load from to l s).streams j).load_q ≡ true
      → mem a (s.streams j).load_q ≡ true
  still j a ne h = mem_of_count a _ (omega (arith, stays j a ne, mem_one a _ h))

  pub move_load-IsPlaced : IsPlaced s → IsPlaced (move_load from to l s)
  move_load-IsPlaced v = record {
    single = λ j a. elim (Bool-cases (a == l)) [
      | inr other ↦ omega (arith, stays j a other, v.single j a)
      | inl same ↦ let e : a ≡ l = ground arith in rw e (one_there v j)
    ];
    apart = λ i j a hi hj. elim (Bool-cases (a == l)) [
      | inl same ↦
          let e : a ≡ l = ground arith in
          lands v i (subst (λ x. mem x ((move_load from to l s).streams i).load_q ≡ true) e hi)
          ∙ sym (
              lands v j (subst (λ x. mem x ((move_load from to l s).streams j).load_q ≡ true) e hj))
      | inr other ↦ v.apart i j a (still i a other hi) (still j a other hj)
    ];
    home = λ j a h. elim (Bool-cases (a == l)) [
      | inl same ↦
          let e : a ≡ l = ground arith in
          let e' =
            lands v j (subst (λ x. mem x ((move_load from to l s).streams j).load_q ≡ true) e h) in
          rw (e, e') (move_load-dest from to l s ∙ sym (move_load-rank from to l s to))
      | inr other ↦
          ap (λ (x : Load). x.dest_rank) (move_load-other from to l s a other)
          ∙ v.home j a (still j a other h)
          ∙ sym (move_load-rank from to l s j)
    ];
  }

  pub move_load-queued : (a : ℕ) → IsQueued a s → IsQueued a (move_load from to l s)
  move_load-queued a (j, h) = elim (Bool-cases (a == l)) [
    | inr other ↦ (j, mem_of_count a _ (omega (arith, stays j a other, mem_one a _ h)))
    | inl same ↦
        let c = moves to l in
        let some_left = mem_one l (s.streams from).load_q m in
        let self = ==_refl l in
        let here = ==_refl to in
        let landed : 1 ≤ count l ((move_load from to l s).streams to).load_q =
          elim (Bool-cases (to == from)) [
            | inl both ↦ let e' : to ≡ from = ground arith in ground arith
            | inr other ↦ ground arith
          ] in
        let e : l ≡ a = ground arith in
        subst (λ x. IsQueued x (move_load from to l s)) e (to, mem_of_count l _ landed)
  ]

  pub move_load-queued_before : (a : ℕ) → IsQueued a (move_load from to l s) → IsQueued a s
  move_load-queued_before a (j, h) = elim (Bool-cases (a == l)) [
    | inr other ↦ (j, still j a other h)
    | inl same ↦ let e : l ≡ a = ground arith in subst (λ x. IsQueued x s) e (from, m)
  ]

  pub move_load-IsCounted :
      ((i : ℕ) → IsCounted (s.streams i)) → (i : ℕ) → IsCounted ((move_load from to l s).streams i)
  unfolding move_load add_load_to_stream remove_load_from_stream
  move_load-IsCounted all i =
      let taken : (j : ℕ) → IsCounted ((remove_load_from_stream from l s).streams j) =
        λ j. IsCounted-put from j _ s (shorter l (s.streams from) m (all from)) (all j) in
      IsCounted-put to i _ (remove_load_from_stream from l s)
        (longer l ((remove_load_from_stream from l s).streams to) (taken to)) (taken i)
