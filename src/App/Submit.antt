-- ===== src/App/Submit.antt =====
-- The loop of src/app/main.c that submits requests, and what a request runs (src/app/st.c).
use abtst.Common.{
  ℕ, ◌+◌, Bool, true, false, Option, some, List, [], ◌∷◌, ◌>>=◌, if◌then◌else◌, add_u64,
}
use abtst.Common.Int.{ℤ, is_zero_ℤ}
use abtst.Common.Store.{Array, write}
use abtst.Global.{Global}
use abtst.Load.{inc_started, inc_ended}
use abtst.Mapping.{UserKey}
use abtst.Mapping.Create.{map_key_to_load}
use abtst.Stream.{put_load}

abbrev pub parallel_ios : ℕ
parallel_ios = 1024

abbrev pub hash_block_size : ℕ
hash_block_size = 65536

-- `load` is the load's address.
pub record IoParam : Type 0 where
  pub used : Bool
  pub key : UserKey
  pub load : ℕ

-- The variables of main that the loop works on, and what it changes.
pub record Requests (Runtime : Type 0) : Type 0 where
  pub params : Array IoParam
  pub lba : ℕ
  pub cnt : ℕ
  pub global : Global
  pub rt : Runtime

-- ABT_thread_create takes the pool and the argument.
module _ {Runtime : Type 0} (thread_create : (pool arg : ℕ) → Runtime → ℤ × Runtime) where
  -- The body of the loop, for the slot `i`; `false` is for leaving it after an error.
  unfoldable pub submit :
      (rand mapping_id i : ℕ) → Requests Runtime → Option (Bool × Requests Runtime)
  unfolding inc_started
  submit rand mapping_id i r = if (r.params i).used then some (true, r) else do
    let key : UserKey = record { lba = r.lba; volume_id = 1 }
    l ← map_key_to_load rand r.global mapping_id key
    let load = (r.global.mappings.mappings mapping_id).loads.loads + l
    let s = r.global.store
    let param : IoParam = record { used = true; key = key; load = load }
    let (ret, rt) = thread_create (s.loads load).pool i r.rt
    let failed = record r { params = write r.params i param; rt = rt }
    let done = record failed {
      lba = add_u64 r.lba hash_block_size;
      cnt = r.cnt + 1;
      global = record (r.global) { store = put_load load (inc_started (s.loads load)) s };
    }
    some (if is_zero_ℤ ret then (true, done) else (false, failed))

  unfoldable pub submit_all :
      (rand mapping_id : ℕ) → List ℕ → Requests Runtime → Option (Bool × Requests Runtime)
  unfolding submit
  submit_all rand mapping_id [] r = some (true, r)
  submit_all rand mapping_id (i ∷ is) r = submit rand mapping_id i r >>= λ x. elim x.0 [
    | true ↦ submit_all rand mapping_id is x.1
    | false ↦ some x
  ]

-- The end of st_thread_func, with the slot `i`; the work itself is simulated. The slot is free before
-- the load in it is read, so that main may use it for another request in between.
unfoldable pub free_slot : {Runtime : Type 0} → ℕ → Requests Runtime → Requests Runtime
free_slot i r = record r { params = write r.params i (record (r.params i) { used = false }) }

unfoldable pub count_ended : {Runtime : Type 0} → ℕ → Requests Runtime → Requests Runtime
unfolding inc_ended
count_ended i r =
    let load = (r.params i).load in
    let s = r.global.store in
    record r { global = record (r.global) { store = put_load load (inc_ended (s.loads load)) s } }
