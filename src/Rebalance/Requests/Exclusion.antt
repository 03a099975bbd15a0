-- ===== src/Rebalance/Requests/Exclusion.antt =====
-- That the spin lock (include/spinlock.h) lets one thread at a time change the queue of requests.
use abtst.Common.{
  ℕ, ◌≡◌, ◌≢◌, inl, inr, refl, sym, ◌∙◌, Bool, true, false, Option, none, some, Option-cases, arith,
  ◌==◌, if◌then◌else◌, Bool-cases,
}
use abtst.Rebalance.Requests.Lock.{
  Job, Pc, Shared, first_at, take_at, visit, advance, State, set_pc, act, start, Step, Reach,
}

-- Whether a thread has the lock.
abbrev pub holds : Pc → Bool
holds Pc.outside = false
holds (Pc.trying job) = false
holds (Pc.waiting job) = false
holds (Pc.holding job) = true
holds Pc.leaving = true
holds (Pc.releasing req n) = true
holds (Pc.handling req n) = false
holds Pc.broken = false

-- Who has the lock has it alone, and it is taken.
pub record IsLocked (s : State) : Type 0 where
  pub taken : (t : ℕ) → holds (s.pcs t) ≡ true → s.shared.val ≢ 0
  pub alone : (t u : ℕ) → holds (s.pcs t) ≡ true → holds (s.pcs u) ≡ true → t ≡ u

-- A thread without the lock leaves it taken, and gets it where it is free.
record Outside (sh : Shared) (p' : Pc) (sh' : Shared) : Type 0 where
  pub busy : sh.val ≢ 0 → sh'.val ≢ 0
  pub barred : sh.val ≢ 0 → holds p' ≡ false
  pub marked : holds p' ≡ true → sh'.val ≢ 0

advance-Outside :
    (p : Pc) (sh : Shared) → holds p ≡ false → Outside sh (advance p sh).0 (advance p sh).1
unfolding advance
advance-Outside Pc.outside sh h = record { busy = λ b. b; barred = λ b. refl; marked = λ m. cc }
advance-Outside (Pc.trying job) sh h = elim (Bool-cases (sh.val == 0)) [
  | inl free ↦ rw free (record {
    busy = λ b e. omega arith;
    barred = λ b. absurd (b (ground arith));
    marked = λ m e. omega arith;
  })
  | inr set ↦ rw set (record { busy = λ b e. omega arith; barred = λ b. refl; marked = λ m. cc })
]
advance-Outside (Pc.waiting job) sh h = elim (Bool-cases (sh.val == 0)) [
  | inl free ↦ rw free (record { busy = λ b. b; barred = λ b. refl; marked = λ m. cc })
  | inr set ↦ rw set (record { busy = λ b. b; barred = λ b. refl; marked = λ m. cc })
]
advance-Outside (Pc.holding job) sh h = cc
advance-Outside Pc.leaving sh h = cc
advance-Outside (Pc.releasing req n) sh h = cc
advance-Outside (Pc.handling req n) sh h = record {
  busy = λ b. b;
  barred = λ b. refl;
  marked = λ m. cc;
}
advance-Outside Pc.broken sh h = record { busy = λ b. b; barred = λ b. refl; marked = λ m. cc }

visit-val : (n : Option ℕ) (sh : Shared) → (visit n sh).1.val ≡ sh.val
unfolding visit
visit-val none sh = refl
visit-val (some pos) sh = elim (Option-cases (take_at pos sh.req_q)) [
  | inl gone ↦ rw (visit, gone) refl
  | inr ((e, n, q), found) ↦ rw (visit, found) refl
]

-- A thread with the lock keeps it taken for as long as it has it.
advance-holding :
    (p : Pc) (sh : Shared)
    → holds p ≡ true
    → sh.val ≢ 0
    → holds (advance p sh).0 ≡ true
    → (advance p sh).1.val ≢ 0
unfolding advance
advance-holding Pc.outside sh h b m = cc
advance-holding (Pc.trying job) sh h b m = cc
advance-holding (Pc.waiting job) sh h b m = cc
advance-holding (Pc.holding (Job.add req)) sh h b m = b
advance-holding (Pc.holding Job.scan) sh h b m = λ e. b (sym (visit-val (first_at sh.req_q) sh) ∙ e)
advance-holding (Pc.holding (Job.next n)) sh h b m = λ e. b (sym (visit-val n sh) ∙ e)
advance-holding Pc.leaving sh h b m = cc
advance-holding (Pc.releasing req n) sh h b m = cc
advance-holding (Pc.handling req n) sh h b m = cc
advance-holding Pc.broken sh h b m = cc

-- One thread moves to a place, and the shared state changes.
moved-IsLocked :
    (t : ℕ) (p' : Pc) (sh' : Shared) (s : State)
    → (holds p' ≡ true → sh'.val ≢ 0)
    → ((u : ℕ) → u ≢ t → holds (s.pcs u) ≡ true → (holds p' ≡ false) × (sh'.val ≢ 0))
    → IsLocked s
    → IsLocked (record { pcs = λ u. if u == t then p' else s.pcs u; shared = sh' })
moved-IsLocked t p' sh' s own other v = record { taken = taken; alone = alone }
  where
    taken : (u : ℕ) → holds (if u == t then p' else s.pcs u) ≡ true → sh'.val ≢ 0
    taken u = elim (Bool-cases (u == t)) [
      | inl e ↦ rw e own
      | inr ne ↦ rw ne (λ h. (other u (ground (arith, ne)) h).1)
    ]

    alone :
        (u w : ℕ)
        → holds (if u == t then p' else s.pcs u) ≡ true
        → holds (if w == t then p' else s.pcs w) ≡ true
        → u ≡ w
    alone u w = elim (Bool-cases (u == t)) [
      | inl e ↦ elim (Bool-cases (w == t)) [
        | inl e' ↦ λ h h'. ground (arith, e, e')
        | inr ne' ↦
            rw (e, ne')
              (λ h h'.
                absurd (let o = (other w (ground (arith, ne')) h').0 in ground (arith, h, o)))
      ]
      | inr ne ↦ elim (Bool-cases (w == t)) [
        | inl e' ↦
            rw (ne, e')
              (λ h h'. absurd (let o = (other u (ground (arith, ne)) h).0 in ground (arith, h', o)))
        | inr ne' ↦ rw (ne, ne') (λ h h'. v.alone u w h h')
      ]
    ]

act-IsLocked : (t : ℕ) (s : State) → IsLocked s → IsLocked (act t s)
unfolding act
act-IsLocked t s v = elim (Bool-cases (holds (s.pcs t))) [
  | inl has ↦
      moved-IsLocked t (advance (s.pcs t) s.shared).0 (advance (s.pcs t) s.shared).1 s
        (advance-holding (s.pcs t) s.shared has (v.taken t has))
        (λ u ne h. absurd (ne (v.alone u t h has))) v
  | inr without ↦
      let o = advance-Outside (s.pcs t) s.shared without in
      moved-IsLocked t (advance (s.pcs t) s.shared).0 (advance (s.pcs t) s.shared).1 s o.marked
        (λ u ne h. (o.barred (v.taken u h), o.busy (v.taken u h))) v
]

Step-IsLocked : (s s' : State) → Step s s' → IsLocked s → IsLocked s'
unfolding set_pc
Step-IsLocked s s' (Step.begin_add t req _ at) v =
    moved-IsLocked t (Pc.trying (Job.add req)) s.shared s (λ h. cc) (λ u ne h. (refl, v.taken u h))
      v
Step-IsLocked s s' (Step.begin_scan _ at) v =
    moved-IsLocked 0 (Pc.trying Job.scan) s.shared s (λ h. cc) (λ u ne h. (refl, v.taken u h)) v
Step-IsLocked s s' (Step.go_on t _) v = act-IsLocked t s v

-- Whatever the order in which the threads go on, at most one of them is between spin_lock and
-- spin_unlock, and the lock is taken while one is.
pub Reach-IsLocked : (s : State) → Reach s → IsLocked s
unfolding start
Reach-IsLocked s Reach.started = record { taken = λ t h. cc; alone = λ t u h h'. cc }
Reach-IsLocked s (Reach.stepped before _ r st) = Step-IsLocked before s st (Reach-IsLocked before r)
