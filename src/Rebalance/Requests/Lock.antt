-- ===== src/Rebalance/Requests/Lock.antt =====
-- The spin lock (include/spinlock.h), and the threads that share the queue of requests under it
-- (src/rebalance/reb_req.c), one atomic access or one part of a critical section at a time.
use abtst.Common.{
  ℕ, ◌≡◌, Bool, not, Option, none, some, List, [], ◌∷◌, ◌++◌, ◌==◌, if◌then◌else◌, ◌>>=◌,
}
use abtst.Common.Store.{Array, write}
use abtst.Rebalance.Requests.{Request}

-- The value of the lock, and the one that was there before.
unfoldable pub spinlock_init : ℕ
spinlock_init = 0

unfoldable pub test_and_set : ℕ → ℕ × Bool
test_and_set val = (1, not (val == 0))

unfoldable pub spin_unlock : ℕ → ℕ
spin_unlock val = 0

-- A request in memory, at the address that malloc gave.
pub record Entry : Type 0 where
  pub address : ℕ
  pub req : Request

-- What a thread wants the lock for: to add a request, to look for the first one, or to go on to the
-- entry whose address list_for_each_safe has saved in `n`; `none` is the head of the list.
pub data Job : Type 0 where
  add : Entry → Job
  scan : Job
  next : Option ℕ → Job

-- Where a thread is: outside, at the test-and-set, in the inner loop of spin_lock, at its change of
-- the queue, at spin_unlock with what follows it, at the handling of a request, or at a saved entry
-- that is not in the queue.
pub data Pc : Type 0 where
  outside : Pc
  trying : Job → Pc
  waiting : Job → Pc
  holding : Job → Pc
  leaving : Pc
  releasing : Entry → Option ℕ → Pc
  handling : Entry → Option ℕ → Pc
  broken : Pc

-- The lock, the queue, and the requests that were accepted, taken out and handled, first one first.
pub record Shared : Type 0 where
  pub val : ℕ
  pub req_q : List Entry
  pub accepted : List Entry
  pub taken : List Entry
  pub handled : List Entry

-- The address of the first entry.
abbrev pub first_at : List Entry → Option ℕ
first_at [] = none
first_at (e ∷ q) = some e.address

-- The entry at an address, the one after it, and the queue without it.
unfoldable pub take_at : ℕ → List Entry → Option (Entry × Option ℕ × List Entry)
take_at pos [] = none
take_at pos (e ∷ q) =
    let rest = take_at pos q in
    if e.address == pos
    then some (e, first_at q, q)
    else (rest >>= λ (found, n, q'). some (found, n, e ∷ q'))

-- The loop list_for_each_safe at the entry `pos`: what follows `pos` is saved, and the body takes `pos`
-- out, up to spin_unlock.
unfoldable pub visit : Option ℕ → Shared → Pc × Shared
unfolding take_at
visit none sh = (Pc.leaving, sh)
visit (some pos) sh = elim (take_at pos sh.req_q) [
  | none ↦ (Pc.broken, sh)
  | some (e, n, q) ↦ (Pc.releasing e n, record sh { req_q = q; taken = sh.taken ++ e ∷ [] })
]

-- What a thread does next.
unfoldable pub advance : Pc → Shared → Pc × Shared
unfolding test_and_set spin_unlock visit
advance Pc.outside sh = (Pc.outside, sh)
advance (Pc.trying job) sh =
    let (val, was_set) = test_and_set sh.val in
    ((if was_set then Pc.waiting job else Pc.holding job), record sh { val = val })
advance (Pc.waiting job) sh = ((if sh.val == 0 then Pc.trying job else Pc.waiting job), sh)
advance (Pc.holding (Job.add req)) sh =
    (Pc.leaving, record sh { req_q = sh.req_q ++ req ∷ []; accepted = sh.accepted ++ req ∷ [] })
advance (Pc.holding Job.scan) sh = visit (first_at sh.req_q) sh
advance (Pc.holding (Job.next n)) sh = visit n sh
advance Pc.leaving sh = (Pc.outside, record sh { val = spin_unlock sh.val })
advance (Pc.releasing req n) sh = (Pc.handling req n, record sh { val = spin_unlock sh.val })
advance (Pc.handling req n) sh =
    (Pc.trying (Job.next n), record sh { handled = sh.handled ++ req ∷ [] })
advance Pc.broken sh = (Pc.broken, sh)

-- The threads by their numbers; the thread 0 processes requests.
pub record State : Type 0 where
  pub pcs : Array Pc
  pub shared : Shared

unfoldable pub set_pc : ℕ → Pc → State → State
set_pc t pc s = record s { pcs = write s.pcs t pc }

unfoldable pub act : ℕ → State → State
unfolding advance
act t s =
    let (pc, shared) = advance (s.pcs t) s.shared in
    record { pcs = write s.pcs t pc; shared = shared }

unfoldable pub start : State
unfolding spinlock_init
start = record {
  pcs = λ t. Pc.outside;
  shared = record { val = spinlock_init; req_q = []; accepted = []; taken = []; handled = [] };
}

-- Any thread may begin to add a request, the thread 0 to process them, and each may go on.
pub data Step : State → State → Type 0 where
  begin_add :
      (t : ℕ) (req : Entry) (s : State)
      → s.pcs t ≡ Pc.outside
      → Step s (set_pc t (Pc.trying (Job.add req)) s)
  begin_scan : (s : State) → s.pcs 0 ≡ Pc.outside → Step s (set_pc 0 (Pc.trying Job.scan) s)
  go_on : (t : ℕ) (s : State) → Step s (act t s)

pub data Reach : State → Type 0 where
  started : Reach start
  stepped : (s s' : State) → Reach s → Step s s' → Reach s'
