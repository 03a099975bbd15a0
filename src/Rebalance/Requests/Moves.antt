-- ===== src/Rebalance/Requests/Moves.antt =====
-- What one move of a thread does to the queue of requests (src/rebalance/reb_req.c).
use abtst.Common.{
  ◌≡◌, ◌≢◌, inl, inr, refl, sym, subst, ap, ◌∙◌, ℕ, Bool, true, false, Option, none, some, ==_refl,
  List, [], ◌∷◌, ◌++◌, ◌==◌, Bool-cases,
}
use mathlib.Core.List.{append-nil, append_assoc}
use abtst.Rebalance.Requests.Lock.{Entry, Job, Pc, Shared, first_at, take_at, visit, advance}

-- The request that was taken out and is not handled yet.
abbrev pub in_hand : Pc → List Entry
in_hand Pc.outside = []
in_hand (Pc.trying job) = []
in_hand (Pc.waiting job) = []
in_hand (Pc.holding job) = []
in_hand Pc.leaving = []
in_hand (Pc.releasing req n) = req ∷ []
in_hand (Pc.handling req n) = req ∷ []
in_hand Pc.broken = []

abbrev pub scanning : Job → Bool
scanning (Job.add req) = false
scanning Job.scan = true
scanning (Job.next n) = true

-- Whether a thread is in the loop over the requests.
abbrev pub scans : Pc → Bool
scans Pc.outside = false
scans (Pc.trying job) = scanning job
scans (Pc.waiting job) = scanning job
scans (Pc.holding job) = scanning job
scans Pc.leaving = false
scans (Pc.releasing req n) = true
scans (Pc.handling req n) = true
scans Pc.broken = true

abbrev pub saved : Job → Option ℕ
saved (Job.add req) = none
saved Job.scan = none
saved (Job.next n) = n

-- The address that the loop has saved, to come to it next.
abbrev pub expects : Pc → Option ℕ
expects Pc.outside = none
expects (Pc.trying job) = saved job
expects (Pc.waiting job) = saved job
expects (Pc.holding job) = saved job
expects Pc.leaving = none
expects (Pc.releasing req n) = n
expects (Pc.handling req n) = n
expects Pc.broken = none

-- What holds of the thread 0 and of the shared state.
pub record Queued (p : Pc) (sh : Shared) : Type 0 where
  pub waits : sh.accepted ≡ sh.taken ++ sh.req_q
  pub done : sh.taken ≡ sh.handled ++ in_hand p
  pub there : (at : ℕ) → expects p ≡ some at → first_at sh.req_q ≡ some at
  pub sound : p ≢ Pc.broken

-- What another thread leaves.
pub record Aside (p' : Pc) (sh sh' : Shared) : Type 0 where
  pub waits : sh.accepted ≡ sh.taken ++ sh.req_q → sh'.accepted ≡ sh'.taken ++ sh'.req_q
  pub taken : sh'.taken ≡ sh.taken
  pub handled : sh'.handled ≡ sh.handled
  pub there : (at : ℕ) → first_at sh.req_q ≡ some at → first_at sh'.req_q ≡ some at
  pub scans : scans p' ≡ false

first_at-append :
    (q : List Entry) (r : Entry) (at : ℕ) → first_at q ≡ some at → first_at (q ++ r ∷ []) ≡ some at
first_at-append [] r at e = cc
first_at-append (x ∷ q) r at e = e

waits_add : (a t q : List Entry) (r : Entry) → a ≡ t ++ q → a ++ r ∷ [] ≡ t ++ (q ++ r ∷ [])
waits_add a t q r e = rw e (append_assoc t q (r ∷ []))

pub advance-Aside :
    (p : Pc) (sh : Shared) → scans p ≡ false → Aside (advance p sh).0 sh (advance p sh).1
unfolding advance
advance-Aside Pc.outside sh h = record {
  waits = λ e. e;
  taken = refl;
  handled = refl;
  there = λ at e. e;
  scans = refl;
}
advance-Aside (Pc.trying job) sh h = elim (Bool-cases (sh.val == 0)) [
  | inl free ↦
      rw free
        (record { waits = λ e. e; taken = refl; handled = refl; there = λ at e. e; scans = h })
  | inr set ↦
      rw set (record { waits = λ e. e; taken = refl; handled = refl; there = λ at e. e; scans = h })
]
advance-Aside (Pc.waiting job) sh h = elim (Bool-cases (sh.val == 0)) [
  | inl free ↦
      rw free
        (record { waits = λ e. e; taken = refl; handled = refl; there = λ at e. e; scans = h })
  | inr set ↦
      rw set (record { waits = λ e. e; taken = refl; handled = refl; there = λ at e. e; scans = h })
]
advance-Aside (Pc.holding (Job.add req)) sh h = record {
  waits = waits_add sh.accepted sh.taken sh.req_q req;
  taken = refl;
  handled = refl;
  there = first_at-append sh.req_q req;
  scans = refl;
}
advance-Aside (Pc.holding Job.scan) sh h = cc
advance-Aside (Pc.holding (Job.next n)) sh h = cc
advance-Aside Pc.leaving sh h = record {
  waits = λ e. e;
  taken = refl;
  handled = refl;
  there = λ at e. e;
  scans = refl;
}
advance-Aside (Pc.releasing req n) sh h = cc
advance-Aside (Pc.handling req n) sh h = cc
advance-Aside Pc.broken sh h = cc

take_at-first : (e : Entry) (q : List Entry) → take_at e.address (e ∷ q) ≡ some (e, first_at q, q)
unfolding take_at
take_at-first e q = rw (==_refl e.address) refl

-- The first entry is found and taken out, where the loop comes to it.
visit-Queued :
    (sh : Shared) (q : List Entry)
    → sh.req_q ≡ q
    → sh.accepted ≡ sh.taken ++ sh.req_q
    → sh.taken ≡ sh.handled ++ []
    → Queued (visit (first_at q) sh).0 (visit (first_at q) sh).1
unfolding visit
visit-Queued sh [] e waits done = record {
  waits = waits;
  done = done;
  there = λ at m. cc;
  sound = λ b. cc;
}
visit-Queued sh (r ∷ q) e waits done =
    rw (visit, ap (take_at r.address) e ∙ take_at-first r q)
      record {
        waits = waits ∙ ap (λ x. sh.taken ++ x) e ∙ sym (append_assoc sh.taken (r ∷ []) q);
        done = ap (λ x. x ++ r ∷ []) (done ∙ append-nil sh.handled);
        there = λ at m. m;
        sound = λ b. cc;
      }

-- The loop goes on to what it has saved: nothing, or the first entry.
next-Queued :
    (n : Option ℕ) (sh : Shared)
    → Queued (Pc.holding (Job.next n)) sh
    → Queued (visit n sh).0 (visit n sh).1
unfolding visit
next-Queued none sh v = record {
  waits = v.waits;
  done = v.done;
  there = λ at m. cc;
  sound = λ b. cc;
}
next-Queued (some at) sh v =
    subst (λ n. Queued (visit n sh).0 (visit n sh).1) (v.there at refl)
      (visit-Queued sh sh.req_q refl v.waits v.done)

pub advance-Queued : (p : Pc) (sh : Shared) → Queued p sh → Queued (advance p sh).0 (advance p sh).1
unfolding advance
advance-Queued Pc.outside sh v = v
advance-Queued (Pc.trying job) sh v = elim (Bool-cases (sh.val == 0)) [
  | inl free ↦ rw free (record { waits = v.waits; done = v.done; there = v.there; sound = λ b. cc })
  | inr set ↦ rw set (record { waits = v.waits; done = v.done; there = v.there; sound = λ b. cc })
]
advance-Queued (Pc.waiting job) sh v = elim (Bool-cases (sh.val == 0)) [
  | inl free ↦ rw free (record { waits = v.waits; done = v.done; there = v.there; sound = λ b. cc })
  | inr set ↦ rw set (record { waits = v.waits; done = v.done; there = v.there; sound = λ b. cc })
]
advance-Queued (Pc.holding (Job.add req)) sh v = record {
  waits = waits_add sh.accepted sh.taken sh.req_q req v.waits;
  done = v.done;
  there = λ at m. cc;
  sound = λ b. cc;
}
advance-Queued (Pc.holding Job.scan) sh v = visit-Queued sh sh.req_q refl v.waits v.done
advance-Queued (Pc.holding (Job.next n)) sh v = next-Queued n sh v
advance-Queued Pc.leaving sh v = record {
  waits = v.waits;
  done = v.done;
  there = λ at m. cc;
  sound = λ b. cc;
}
advance-Queued (Pc.releasing req n) sh v = record {
  waits = v.waits;
  done = v.done;
  there = v.there;
  sound = λ b. cc;
}
advance-Queued (Pc.handling req n) sh v = record {
  waits = v.waits;
  done = v.done ∙ sym (append-nil (sh.handled ++ req ∷ []));
  there = v.there;
  sound = λ b. cc;
}
advance-Queued Pc.broken sh v = absurd (v.sound refl)
