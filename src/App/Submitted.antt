-- ===== src/App/Submitted.antt =====
-- What one submission in the loop of src/app/main.c leaves.
use abtst.Common.{ℕ, ◌+◌, ◌≡◌, ap, Bool, true, false, Option, some, if◌then◌else◌, >>=-eq-some}
use abtst.Common.Int.{ℤ}
use abtst.Common.Store.{write}
use abtst.Load.{inc_started}
use abtst.Mapping.{UserKey}
use abtst.Mapping.Create.{map_key_to_load}
use abtst.Stream.{put_load}
use abtst.App.Submit.{IoParam, Requests, submit}

-- What a submission to a free slot does, where it succeeds, and where it does not.
pub record Submitted {Runtime : Type 0} (i : ℕ) (r r' : Requests Runtime) : Type 0 where
  pub param : IoParam
  pub params : r'.params ≡ write r.params i param
  pub store :
      r'.global.store
      ≡ put_load param.load (inc_started (r.global.store.loads param.load)) r.global.store

pub record Refused {Runtime : Type 0} (i : ℕ) (r r' : Requests Runtime) : Type 0 where
  pub param : IoParam
  pub params : r'.params ≡ write r.params i param
  pub store : r'.global.store ≡ r.global.store

succeeded :
    {A : Type 0} (b : Bool) (done failed r : A)
    → ◌≡◌ {A = Option (Bool × A)}
        (some (if b then (true, done) else (false, failed)))
        (some (true, r))
    → r ≡ done
succeeded true done failed r h = cc
succeeded false done failed r h = cc

did_not :
    {A : Type 0} (b : Bool) (done failed r : A)
    → ◌≡◌ {A = Option (Bool × A)}
        (some (if b then (true, done) else (false, failed)))
        (some (false, r))
    → r ≡ failed
did_not true done failed r h = cc
did_not false done failed r h = cc

module _ {Runtime : Type 0} (thread_create : (pool arg : ℕ) → Runtime → ℤ × Runtime)
    (rand mapping_id : ℕ) where
  pub submit-Submitted :
      (i : ℕ) (r r' : Requests Runtime)
      → (r.params i).used ≡ false
      → submit thread_create rand mapping_id i r ≡ some (true, r')
      → Submitted i r r'
  unfolding submit
  submit-Submitted i r r' free h =
      let key : UserKey = record { lba = r.lba; volume_id = 1 } in
      let (l, found, rest) =
        >>=-eq-some (map_key_to_load rand r.global mapping_id key) _ (rw free at h) in
      let load = (r.global.mappings.mappings mapping_id).loads.loads + l in
      let made = succeeded _ _ _ r' rest in
      record {
        param = record { used = true; key = key; load = load };
        params = ap (λ (x : Requests Runtime). x.params) made;
        store = ap (λ (x : Requests Runtime). x.global.store) made;
      }

  pub submit-Refused :
      (i : ℕ) (r r' : Requests Runtime)
      → (r.params i).used ≡ false
      → submit thread_create rand mapping_id i r ≡ some (false, r')
      → Refused i r r'
  unfolding submit
  submit-Refused i r r' free h =
      let key : UserKey = record { lba = r.lba; volume_id = 1 } in
      let (l, found, rest) =
        >>=-eq-some (map_key_to_load rand r.global mapping_id key) _ (rw free at h) in
      let load = (r.global.mappings.mappings mapping_id).loads.loads + l in
      let made = did_not _ _ _ r' rest in
      record {
        param = record { used = true; key = key; load = load };
        params = ap (λ (x : Requests Runtime). x.params) made;
        store = ap (λ (x : Requests Runtime). x.global.store) made;
      }
