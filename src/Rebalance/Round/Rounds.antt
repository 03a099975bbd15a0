-- ===== src/Rebalance/Round/Rounds.antt =====
-- The rounds of the rebalancer's thread (src/rebalance/rebalance.c) at its default level.
use abtst.Common.{
  ℕ, suc, zero, ◌*◌, ◌^◌, ◌<◌, ◌≡◌, refl, sym, subst, ◌∙◌, ap, true, false, some, List, arith,
  count, range, length, Bool-cases, inl, inr,
}
use abtst.Env.{cores_of}
use abtst.Stream.{Store, SortParam}
use abtst.Stream.Shift.{queued}
use abtst.Stream.Quiet.{IsQuiet, quiet-IsCounted, quiet_weight}
use abtst.Global.{Global, RebalanceConfig}
use abtst.Rebalance.Sorting.{IsSort}
use abtst.Rebalance.Round.{reb_func, reb_round}
use abtst.Rebalance.Round.Kept.{IsSound, Kept, streams_used-quiet, quiet-StatsFit, reb_round-Kept}
use abtst.Stream.Sizes.{IsSmall}

quiet-Kept :
    (most : ℕ) (g : Global) {t : Store}
    → IsSound most g
    → IsQuiet g.store t
    → IsSmall most t
    → Kept most g (record g { store = t })
quiet-Kept most g {t} v quiet small = record {
  sound = record {
    cores_exist = v.cores_exist;
    cores_fit = v.cores_fit;
    numas_used = λ k lt.
        let used = v.numas_used k lt in
        let same = streams_used-quiet quiet (cores_of (g.env.numa_info k)) in
        (omega (arith, same, used), omega (arith, same, used));
    all_counted = quiet-IsCounted quiet v.all_counted;
    few_loads = omega (arith, quiet_weight quiet length (range 0 g.env.nr_cores), v.few_loads);
    stats_fit = quiet-StatsFit quiet v.stats_fit;
    small = small;
    few_packets =
        subst (λ n. n * most < 2 ^ 31) (sym (quiet_weight quiet length (range 0 g.env.nr_cores)))
          v.few_packets;
  };
  same_config = refl;
  same_cores = refl;
  same_loads = λ a. quiet_weight quiet (count a) (range 0 g.env.nr_cores);
}

Kept-trans : {most : ℕ} {g h k : Global} → Kept most g h → Kept most h k → Kept most g k
Kept-trans {most} {g} {h} {k} u v = record {
  sound = v.sound;
  same_config = v.same_config ∙ u.same_config;
  same_cores = v.same_cores ∙ u.same_cores;
  same_loads = λ a.
      subst (λ n. queued a (range 0 n) k.store ≡ queued a (range 0 n) h.store) u.same_cores
        (v.same_loads a)
      ∙ u.same_loads a;
}

module _ (qsort : List SortParam → List SortParam) (sorts : IsSort qsort)
    (outside : ℕ → Store → Store) (quiet : (n : ℕ) (s : Store) → IsQuiet s (outside n s)) (most : ℕ)
    (light : (n : ℕ) (s : Store) → IsSmall most s → IsSmall most (outside n s)) where
  reb_func_stop :
      (n : ℕ) (g : Global) → g.env.stopping ≡ true → reb_func qsort outside (suc n) g ≡ some g
  unfolding reb_func
  reb_func_stop n g stop = rw stop refl

  reb_func_step :
      (n : ℕ) (g mid g' : Global)
      → g.env.stopping ≡ false
      → reb_round qsort g ≡ some mid
      → reb_func qsort outside n (record mid { store = outside n mid.store }) ≡ some g'
      → reb_func qsort outside (suc n) g ≡ some g'
  unfolding reb_func
  reb_func_step n g mid g' go first runs = rw (first, go) runs

  -- A sound state, in which no load has more than `most` packets, the default level 1, an interval of 1
  -- to 21 seconds, and schedulers that change nothing of the streams but their statistics and leave no
  -- load more than `most` packets: whatever sort is used and whatever is printed, every number of rounds
  -- is defined and leaves a sound state with the same configuration, and every load is queued on the
  -- cores of the machine as often as before.
  pub reb_func-Kept :
      (n : ℕ) (g : Global)
      → IsSound most g
      → g.rebalance.rebalance_level ≡ 1
      → 0 < g.rebalance.rebalance_interval
      → g.rebalance.rebalance_interval < 22
      → (g' : Global) × (reb_func qsort outside n g ≡ some g') × Kept most g g'
  unfolding reb_func
  reb_func-Kept zero g v level low high =
      (g, refl, quiet-Kept most g v (record { same = λ i. refl }) v.small)
  reb_func-Kept (suc n) g v level low high = elim (Bool-cases g.env.stopping) [
    | inl stop ↦
        (g, reb_func_stop n g stop, quiet-Kept most g v (record { same = λ i. refl }) v.small)
    | inr go ↦
        let (mid, first, kept) = reb_round-Kept qsort sorts most g v level low high in
        let between =
          quiet-Kept most mid kept.sound (quiet n mid.store) (light n mid.store kept.sound.small) in
        let (g', runs, rest) =
          reb_func-Kept n (record mid { store = outside n mid.store }) between.sound
            (ap (λ (c : RebalanceConfig). c.rebalance_level) kept.same_config ∙ level)
            (subst (λ (c : RebalanceConfig). 0 < c.rebalance_interval) (sym kept.same_config) low)
            (subst (λ (c : RebalanceConfig). c.rebalance_interval < 22) (sym kept.same_config)
              high) in
        (g', reb_func_step n g mid g' go first runs, Kept-trans kept (Kept-trans between rest))
  ]
