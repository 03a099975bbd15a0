-- ===== src/Rebalance/Requests/Order.antt =====
-- That the requests are handled in the order in which they were accepted, once each
-- (src/rebalance/reb_req.c), and that the loop's saved entry is there when it comes to it.
use abtst.Common.{
  ℕ, ◌≡◌, ◌≢◌, inl, inr, refl, sym, subst, ap, ◌∙◌, false, none, some, [], ◌++◌, arith, ◌==◌,
  Bool-cases,
}
use abtst.Rebalance.Requests.Lock.{Job, Pc, first_at, State, set_pc, act, start, Step, Reach}
use abtst.Rebalance.Requests.Moves.{
  in_hand, scanning, scans, saved, expects, Queued, advance-Aside, advance-Queued,
}

-- The invariant of the system: but for the thread 0, no thread is in the loop over the requests.
record IsQueued (s : State) : Type 0 where
  pub first : Queued (s.pcs 0) s.shared
  pub others : (t : ℕ) → t ≢ 0 → scans (s.pcs t) ≡ false

act-IsQueued : (t : ℕ) (s : State) → IsQueued s → IsQueued (act t s)
unfolding act
act-IsQueued t s v = elim (Bool-cases (0 == t)) [
  | inl e ↦
      let zero_t : t ≡ 0 = ground arith in
      subst (λ i. IsQueued (act i s)) (sym zero_t)
        record {
          first = advance-Queued (s.pcs 0) s.shared v.first;
          others = λ u ne. let off : (u == 0) ≡ false = ground arith in rw off (v.others u ne);
        }
  | inr ne ↦
      let a = advance-Aside (s.pcs t) s.shared (v.others t (λ e. ground (arith, ne))) in
      record {
        first = rw ne record {
          waits = a.waits v.first.waits;
          done = a.taken ∙ v.first.done ∙ ap (λ x. x ++ in_hand (s.pcs 0)) (sym a.handled);
          there = λ at m. a.there at (v.first.there at m);
          sound = v.first.sound;
        };
        others = λ u off. elim (Bool-cases (u == t)) [
          | inl here ↦ rw here a.scans
          | inr there ↦ rw there (v.others u off)
        ];
      }
]

begun-IsQueued :
    (t : ℕ) (job : Job) (s : State)
    → saved job ≡ none
    → (t ≢ 0 → scanning job ≡ false)
    → s.pcs t ≡ Pc.outside
    → IsQueued s
    → IsQueued (set_pc t (Pc.trying job) s)
unfolding set_pc
begun-IsQueued t job s fresh only at v = record {
  first = elim (Bool-cases (0 == t)) [
    | inl e ↦
        let zero_t : t ≡ 0 = ground arith in
        let was : in_hand (s.pcs 0) ≡ [] =
          ap in_hand (subst (λ i. s.pcs i ≡ Pc.outside) zero_t at) in
        rw e record {
          waits = v.first.waits;
          done = v.first.done ∙ ap (λ x. s.shared.handled ++ x) was;
          there = λ n m. absurd (let bad = sym fresh ∙ m in cc);
          sound = λ b. cc;
        }
    | inr ne ↦ rw ne v.first
  ];
  others = λ u off. elim (Bool-cases (u == t)) [
    | inl here ↦ rw here (only (λ e. off (ground (arith, here))))
    | inr there ↦ rw there (v.others u off)
  ];
}

Step-IsQueued : (s s' : State) → Step s s' → IsQueued s → IsQueued s'
Step-IsQueued s s' (Step.begin_add t req _ at) v =
    begun-IsQueued t (Job.add req) s refl (λ ne. refl) at v
Step-IsQueued s s' (Step.begin_scan _ at) v =
    begun-IsQueued 0 Job.scan s refl (λ ne. absurd (ne refl)) at v
Step-IsQueued s s' (Step.go_on t _) v = act-IsQueued t s v

Reach-IsQueued : (s : State) → Reach s → IsQueued s
unfolding start
Reach-IsQueued s Reach.started = record {
  first = record { waits = refl; done = refl; there = λ at m. cc; sound = λ b. cc };
  others = λ t ne. refl;
}
Reach-IsQueued s (Reach.stepped before _ r st) = Step-IsQueued before s st (Reach-IsQueued before r)

-- Whatever the order in which the threads go on: the requests that were accepted are those that
-- were handled, then the one that the thread 0 has in hand, then those in the queue, each list in the
-- order of acceptance, so that none is lost and none is handled twice.
pub Reach-accepted :
    (s : State)
    → Reach s
    → s.shared.accepted ≡ (s.shared.handled ++ in_hand (s.pcs 0)) ++ s.shared.req_q
Reach-accepted s r =
    let v = (Reach-IsQueued s r).first in v.waits ∙ ap (λ x. x ++ s.shared.req_q) v.done

-- Although the lock is let go while a request is handled: no thread but the thread 0, which processes
-- requests, is in that loop, no thread comes to an entry that is not in the queue, and an entry that the
-- loop has saved is at any time the first one of the queue.
pub Reach-sound :
    (s : State)
    → Reach s
    → ((t : ℕ) → s.pcs t ≢ Pc.broken)
      × ((t : ℕ) → t ≢ 0 → scans (s.pcs t) ≡ false)
      × ((at : ℕ) → expects (s.pcs 0) ≡ some at → first_at s.shared.req_q ≡ some at)
Reach-sound s r =
    let v = Reach-IsQueued s r in
    (
      (λ t. elim (Bool-cases (t == 0)) [
        | inl e ↦ let z : t ≡ 0 = ground arith in rw z v.first.sound
        | inr ne ↦
            λ b. absurd (let bad = sym (v.others t (λ e. ground (arith, ne))) ∙ ap scans b in cc)
      ]),
      v.others,
      v.first.there,
    )
