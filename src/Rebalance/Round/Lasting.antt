-- ===== src/Rebalance/Round/Lasting.antt =====
-- What any number of rounds of the rebalancer's thread (src/rebalance/rebalance.c) keep of the places of
-- the loads, at whatever level.
use abtst.Common.{
  ℕ, zero, suc, ◌≡◌, sym, ap, ◌∙◌, subst, Bool, true, false, Option, some, if◌then◌else◌, ◌>>=◌,
  List, mem, inl, inr, Bool-cases, >>=-eq-some, leb, ltb, ◌&&◌,
}
use abtst.Stream.{Stream, Store, SortParam}
use abtst.Stream.Move.{IsCounted}
use abtst.Stream.Stat.{update_streams_stat, reset_streams_stat}
use abtst.Stream.Display.{print_stream_qdepth, print_stream_sleeptime}
use abtst.Stream.Quiet.{IsQuiet, same_queue, quiet-IsCounted}
use abtst.Stream.Steps.{Steps, trans-Steps}
use abtst.Stream.Noted.{update_streams_stat-Steps, reset_streams_stat-Steps}
use abtst.Stream.Placed.{IsPlaced, IsQueued, frame}
use abtst.Stream.Rehoused.{Steps-Rehoused}
use abtst.Global.{
  Global, get_rebalance_level, get_rebalance_verbose, get_rebalance_interval, renew_partitions,
  renew_numas,
}
use abtst.Rebalance.Inside.{Moves, renew_partitions-Moves}
use abtst.Rebalance.Across.{renew_numas-Moves, renew_power-Moves, reb_levels-Moves}
use abtst.Rebalance.Round.{shown_if, reb_update_stat, reb_levels, reb_round, reb_func}

reb_update_stat-Moves : (g g' : Global) → reb_update_stat g ≡ some g' → Moves g g'
unfolding reb_update_stat
reb_update_stat-Moves g g' h =
    let (s, measured, h1) = >>=-eq-some (update_streams_stat g.env.nr_cores g.store) _ h in
    let (_, _, h2) =
      >>=-eq-some
        (shown_if (leb 1 (get_rebalance_verbose g.rebalance)) (print_stream_qdepth g.env s.streams))
        _ h1 in
    let (_, _, h3) =
      >>=-eq-some
        (shown_if (leb 2 (get_rebalance_verbose g.rebalance))
          (print_stream_sleeptime g.env (get_rebalance_interval g.rebalance) s.streams))
        _ h2 in
    let (parts, counted, h4) = >>=-eq-some (renew_partitions (record g { store = s })) _ h3 in
    let (numas, renewed, rest) = >>=-eq-some (renew_numas parts) _ h4 in
    trans-Steps (update_streams_stat-Steps g.env.nr_cores g.store s measured) (
      trans-Steps (renew_partitions-Moves (record g { store = s }) parts counted)
        (trans-Steps (renew_numas-Moves parts numas renewed) (renew_power-Moves numas g' rest)))

module _ (qsort : List SortParam → List SortParam) where
  -- A round, at whatever level, is a sequence of steps.
  pub reb_round-Moves : (g g' : Global) → reb_round qsort g ≡ some g' → Moves g g'
  unfolding reb_round
  reb_round-Moves g g' h =
      let (renewed, e1, h1) = >>=-eq-some (reb_update_stat g) _ h in
      let (moved, e2, h2) =
        >>=-eq-some (reb_levels qsort (get_rebalance_level renewed.rebalance) renewed) _ h1 in
      let (_, _, h3) =
        >>=-eq-some
          (shown_if
            (leb 1 (get_rebalance_verbose moved.rebalance)
              && ltb 0 (get_rebalance_level renewed.rebalance))
            (print_stream_qdepth moved.env moved.store.streams))
          _ h2 in
      let last = reset_streams_stat moved.max_xstreams moved.store in
      let e : record moved { store = last } ≡ g' = cc in
      subst (Steps g.store) (ap (λ (o : Global). o.store) e) (
        trans-Steps (reb_update_stat-Moves g renewed e1) (
          trans-Steps
            (reb_levels-Moves qsort (get_rebalance_level renewed.rebalance) renewed moved e2)
            (reset_streams_stat-Steps moved.max_xstreams moved.store)))

choose-true :
    {b : Bool} {x z : Option Global} (y : Option Global)
    → b ≡ true
    → (if b then x else y) ≡ z
    → x ≡ z
choose-true y h e = rw h at e

choose-false :
    {b : Bool} {y z : Option Global} (x : Option Global)
    → b ≡ false
    → (if b then x else y) ≡ z
    → y ≡ z
choose-false x h e = rw h at e

-- What the schedulers do between two rounds: of the streams only statistics change, and no load is told
-- to run elsewhere.
pub record IsServing (s t : Store) : Type 0 where
  pub quiet : IsQuiet s t
  pub dests : (l : ℕ) → (t.loads l).dest_rank ≡ (s.loads l).dest_rank

-- What lasts.
pub record Lasting (s t : Store) : Type 0 where
  pub placed : IsPlaced t
  pub counted : (i : ℕ) → IsCounted (t.streams i)
  pub there : (a : ℕ) → IsQueued a s → IsQueued a t
  pub back : (a : ℕ) → IsQueued a t → IsQueued a s
  pub frames : (j : ℕ) → frame (t.streams j) ≡ frame (s.streams j)

serving-Lasting :
    {s t : Store} → IsServing s t → IsPlaced s → ((i : ℕ) → IsCounted (s.streams i)) → Lasting s t
serving-Lasting {s} {t} v p counted = record {
  placed = record {
    single = λ j l. rw (same_queue v.quiet j) (p.single j l);
    apart = λ i j l hi hj. p.apart i j l (queued i l hi) (queued j l hj);
    home = λ j l h.
        v.dests l
        ∙ (p.home j l (queued j l h) ∙ sym (ap (λ (st : Stream). st.rank) (v.quiet.same j)));
  };
  counted = quiet-IsCounted v.quiet counted;
  there = λ a (j, h). (j, rw (same_queue v.quiet j) h);
  back = λ a (j, h). (j, queued j a h);
  frames = λ j. ap frame (v.quiet.same j);
}
  where
    queued : (j l : ℕ) → mem l (t.streams j).load_q ≡ true → mem l (s.streams j).load_q ≡ true
    queued j l h = subst (λ q. mem l q ≡ true) (same_queue v.quiet j) h

trans-Lasting : {s t u : Store} → Lasting s t → Lasting t u → Lasting s u
trans-Lasting a b = record {
  placed = b.placed;
  counted = b.counted;
  there = λ x q. b.there x (a.there x q);
  back = λ x q. a.back x (b.back x q);
  frames = λ j. b.frames j ∙ a.frames j;
}

moves-Lasting :
    {s t : Store} → Steps s t → IsPlaced s → ((i : ℕ) → IsCounted (s.streams i)) → Lasting s t
moves-Lasting steps p counted =
    let kept = Steps-Rehoused steps in
    record {
      placed = kept.placed p;
      counted = kept.counted counted;
      there = kept.there;
      back = kept.back;
      frames = kept.frames;
    }

module _ (qsort : List SortParam → List SortParam) (outside : ℕ → Store → Store)
    (serving : (n : ℕ) (s : Store) → IsServing s (outside n s)) where
  -- Whatever the level and the sort, where a queued load stands in one queue, once, and is to run on
  -- that queue's stream, the kept lengths are right, and the schedulers change nothing of the streams
  -- but their statistics and tell no load to run elsewhere: if the rounds of the thread are defined,
  -- this is so after them, the loads queued are those that were, and of a stream only its queue, that
  -- queue's length, its partition and its statistics may differ.
  pub reb_func-Lasting :
      (n : ℕ) (g g' : Global)
      → IsPlaced g.store
      → ((i : ℕ) → IsCounted (g.store.streams i))
      → reb_func qsort outside n g ≡ some g'
      → Lasting g.store g'.store
  unfolding reb_func
  reb_func-Lasting zero g g' placed counted h =
      let e : g ≡ g' = cc in
      subst (λ (o : Global). Lasting g.store o.store) e
        (moves-Lasting (Steps.none g.store) placed counted)
  reb_func-Lasting (suc n) g g' placed counted h = elim (Bool-cases g.env.stopping) [
    | inl stops ↦
        let chosen =
          choose-true
            (reb_round qsort g >>= (λ (m : Global).
              reb_func qsort outside n (record m { store = outside n m.store })))
            stops h in
        let e : g ≡ g' = cc in
        subst (λ (o : Global). Lasting g.store o.store) e
          (moves-Lasting (Steps.none g.store) placed counted)
    | inr runs ↦
        let (m, round, rest) = >>=-eq-some (reb_round qsort g) _ (choose-false (some g) runs h) in
        let first = moves-Lasting (reb_round-Moves qsort g m round) placed counted in
        let between = serving-Lasting (serving n m.store) first.placed first.counted in
        trans-Lasting first (
          trans-Lasting between (
            reb_func-Lasting n (record m { store = outside n m.store }) g' between.placed
              between.counted rest))
  ]
