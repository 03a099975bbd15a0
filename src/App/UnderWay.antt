-- ===== src/App/UnderWay.antt =====
-- The requests of src/app/main.c that are under way, and the counters of all loads together.
use abtst.Common.{ℕ, ◌+◌, ◌%◌, ◌≡◌, true, false, some, List, [], ◌∷◌, mem, erase, length, u64_mod}
use abtst.Common.Int.{ℤ}
use abtst.Load.{Load}
use abtst.Stream.{Store}
use abtst.App.Submitted.{Submitted}
use abtst.App.Totals.{total}
use abtst.App.Submit.{Requests, submit, free_slot, count_ended}

-- The requests, the slots that a thread works for, and those of threads that have freed their slot but
-- not counted its end yet.
pub record Flow (Runtime : Type 0) : Type 0 where
  pub requests : Requests Runtime
  pub running : List ℕ
  pub ending : List ℕ

abbrev stores : {Runtime : Type 0} → Flow Runtime → Store
stores f = f.requests.global.store

-- Over the loads `ls`, as many packets were started as have ended or have a thread, modulo 2 ^ 64, and
-- those threads work for these loads.
pub record IsBalanced {Runtime : Type 0} (ls : List ℕ) (f : Flow Runtime) : Type 0 where
  pub balance :
      total (λ load. load.pkt_started) (stores f).loads ls % u64_mod
      ≡ (total (λ load. load.pkt_ended) (stores f).loads ls + length f.running + length f.ending)
        % u64_mod
  pub running_in : (i : ℕ) → mem i f.running ≡ true → mem (f.requests.params i).load ls ≡ true
  pub ending_in : (i : ℕ) → mem i f.ending ≡ true → mem (f.requests.params i).load ls ≡ true

module _ {Runtime : Type 0} (thread_create : (pool arg : ℕ) → Runtime → ℤ × Runtime)
    (rand mapping_id : ℕ) where
  -- What the loop of main and the threads do, the requests being for the loads `ls`: a free slot is
  -- submitted, with success or without; a thread frees its slot; a thread counts its end, for the load
  -- that the slot has by then.
  pub data Change (ls : List ℕ) : Flow Runtime → Flow Runtime → Type 0 where
    submitted :
        (i : ℕ) (f : Flow Runtime) (r' : Requests Runtime)
        → (f.requests.params i).used ≡ false
        → submit thread_create rand mapping_id i f.requests ≡ some (true, r')
        → mem (r'.params i).load ls ≡ true
        → Change ls f (record f { requests = r'; running = i ∷ f.running })
    refused :
        (i : ℕ) (f : Flow Runtime) (r' : Requests Runtime)
        → (f.requests.params i).used ≡ false
        → submit thread_create rand mapping_id i f.requests ≡ some (false, r')
        → mem (r'.params i).load ls ≡ true
        → Change ls f (record f { requests = r' })
    freed :
        (i : ℕ) (f : Flow Runtime)
        → mem i f.running ≡ true
        → Change ls f (record {
          requests = free_slot i f.requests;
          running = erase i f.running;
          ending = i ∷ f.ending;
        })
    counted :
        (i : ℕ) (f : Flow Runtime)
        → mem i f.ending ≡ true
        → Change ls f (record f { requests = count_ended i f.requests; ending = erase i f.ending })

  -- Some of these, one after the other, from a state without requests.
  pub data Runs (ls : List ℕ) : Flow Runtime → Type 0 where
    idle :
        (f : Flow Runtime)
        → f.running ≡ []
        → f.ending ≡ []
        → ((l : ℕ) → ((stores f).loads l).pkt_started ≡ 0)
        → ((l : ℕ) → ((stores f).loads l).pkt_ended ≡ 0)
        → Runs ls f
    after : (f f' : Flow Runtime) → Runs ls f → Change ls f f' → Runs ls f'
