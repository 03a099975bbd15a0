-- ===== src/Stream/Balance.antt =====
-- That abtst_rebalance_streams (src/stream/stream.c) does not overshoot where no load has strayed
-- from the stream on which it began.
use abtst.Common.{
  ℕ, ◌≤◌, ◌≡◌, ◌≢◌, ◌⊎◌, refl, sym, ◌∙◌, ap, inl, inr, true, List, [], ◌∷◌, arith, Bool-cases, All,
}
use abtst.Common.Store.{Array}
use abtst.Common.Int.{ℤ, pos, ◌+ℤ◌, ◌-ℤ◌, to_u32, int_laws, lt_three_halves}
use abtst.Load.{Load, get_load_size}
use abtst.Stream.{
  Store, SortParam, Picked, pick, note_smallest, pick_strayed, pick_fitting_one, pick_fitting,
  pick_smallest, choose_loads,
}
use abtst.Stream.Choose.{
  total_size, none_picked, strayed, fitting, fitting-Sound, Sound, or_if_empty-case, may_take,
}

-- A load that is where it began.
abbrev pub IsHome : Load → Type 0
IsHome load = load.curr_rank ≡ load.init_rank

pick_strayed_home :
    (loads : Array Load) (q : List ℕ) (p : Picked)
    → All (λ l. IsHome (loads l)) q
    → pick_strayed loads q p ≡ p
unfolding pick_strayed
pick_strayed_home loads [] p h = refl
pick_strayed_home loads (l ∷ q) p h = ground (arith, pick_strayed_home loads q p h.1)

-- Either nothing is chosen yet, or `from` is at the average or above and `to` at it or below.
Fits : ℕ → Picked → Type 0
Fits avg p = (p.mloads ≡ []) ⊎ ((avg ≤ to_u32 p.from_ios) × (to_u32 p.ios ≤ avg))

pick_fitting_one-Fits :
    (avg l : ℕ) (lsize : ℤ) (p : Picked)
    → Fits avg p
    → Fits avg (pick_fitting_one avg l lsize (note_smallest l lsize p))
unfolding pick_fitting_one pick note_smallest Fits
pick_fitting_one-Fits avg l lsize p h = ground arith

pick_fitting-Fits :
    (avg to_loads : ℕ) (loads : Array Load) (q : List ℕ) (p : Picked)
    → Fits avg p
    → Fits avg (pick_fitting avg to_loads loads q p)
unfolding pick_fitting
pick_fitting-Fits avg to_loads loads [] p h = h
pick_fitting-Fits avg to_loads loads (l ∷ q) p h =
    let next = pick_fitting_one-Fits avg l (get_load_size (loads l)) p h in
    ground (
      arith,
      pick_fitting-Fits avg to_loads loads q p h,
      pick_fitting-Fits avg to_loads loads q _ next,
      next,
    )

-- The depth that `from` is left with.
abbrev pub depth_left : SortParam → SortParam → Picked → ℤ
depth_left p1 p2 p = p2.ios -ℤ (p.ios -ℤ p1.ios)

-- What a selection achieves: `from` stays at the average or above and `to` at it or below, or the
-- new depth of `to` is less than one and a half times that of `from`.
abbrev pub IsBalanced : SortParam → SortParam → ℕ → Picked → Type 0
IsBalanced p1 p2 avg p =
    ((avg ≤ to_u32 (depth_left p1 p2 p)) × (to_u32 p.ios ≤ avg))
    ⊎ (lt_three_halves p.ios (depth_left p1 p2 p) ≡ true)

left_over : (a b t : ℤ) → b -ℤ (a +ℤ t -ℤ a) ≡ b -ℤ t
left_over a b t = omega int_laws

left_after : (a b x : ℤ) → b -ℤ (a +ℤ x -ℤ a) ≡ b -ℤ x
left_after a b x = omega int_laws

plus_zero : (a : ℤ) → a +ℤ pos 0 ≡ a
plus_zero a = omega int_laws

module _ (p1 p2 : SortParam) (avg : ℕ) (s : Store) where
  fitting-Fits :
      All (λ l. IsHome (s.loads l)) (s.streams p2.stream).load_q → Fits avg (fitting p1 p2 avg s)
  unfolding fitting strayed Fits
  fitting-Fits home =
      rw (pick_strayed_home s.loads _ (none_picked p1 p2) home)
        (pick_fitting-Fits avg _ s.loads _ (none_picked p1 p2) (inl refl))

  fitting-IsBalanced :
      (p : Picked)
      → Sound s.loads p1.ios p2.ios (s.streams p2.stream).load_q [] p
      → Fits avg p
      → p.mloads ≢ []
      → IsBalanced p1 p2 avg p
  unfolding Fits
  fitting-IsBalanced p v (inl e) ne = absurd (ne e)
  fitting-IsBalanced p v (inr (above, below)) ne =
      let same : depth_left p1 p2 p ≡ p.from_ios =
        ap (λ k. p2.ios -ℤ (k -ℤ p1.ios)) v.gained ∙ left_over p1.ios p2.ios _ ∙ sym v.given in
      inl (rw same above, below)

  smallest-IsBalanced :
      (p : Picked)
      → p.ios ≡ p1.ios
      → p.mloads ≡ []
      → (pick_smallest p1 p2 p).mloads ≢ []
      → IsBalanced p1 p2 avg (pick_smallest p1 p2 p)
  unfolding pick_smallest
  smallest-IsBalanced p same e ne = elim (Bool-cases (may_take p1 p2 avg s p)) [
    | inl take ↦ rw take (inr (rw (same, left_after p1.ios p2.ios p.min_lsize) (ground arith)))
    | inr leave ↦ absurd (ne (rw leave e))
  ]

  -- Where nothing has been chosen the depth is still that of `to`.
  unchanged : (fitting p1 p2 avg s).mloads ≡ [] → (fitting p1 p2 avg s).ios ≡ p1.ios
  unfolding total_size
  unchanged e =
      (fitting-Sound p1 p2 avg s).gained
      ∙ ap (λ ls. p1.ios +ℤ total_size s.loads ls) e
      ∙ plus_zero p1.ios

  -- Where every load queued on the stream to take from is where it began, a selection that moves
  -- something either keeps that stream at the average or above and the other at it or below, or
  -- leaves the other below one and a half times what stays.
  pub choose_loads-IsBalanced :
      All (λ l. IsHome (s.loads l)) (s.streams p2.stream).load_q
      → (choose_loads p1 p2 avg s).mloads ≢ []
      → IsBalanced p1 p2 avg (choose_loads p1 p2 avg s)
  unfolding choose_loads fitting strayed
  choose_loads-IsBalanced home =
      or_if_empty-case p1 p2 avg s (λ p. p.mloads ≢ [] → IsBalanced p1 p2 avg p)
        (fitting p1 p2 avg s) _
        (fitting-IsBalanced (fitting p1 p2 avg s) (fitting-Sound p1 p2 avg s) (fitting-Fits home))
        λ e. smallest-IsBalanced (fitting p1 p2 avg s) (unchanged e) e
