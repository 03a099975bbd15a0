-- ===== src/App/Main.antt =====
-- src/app/main.c from its start to its end.
use abtst.Common.{
  ℕ, zero, suc, Bool, false, not, Option, none, some, ◌>>=◌, ◌>>◌, require, range, if◌then◌else◌,
}
use abtst.Common.Int.{ℤ, pos, negsuc, is_zero_ℤ}
use abtst.Common.Store.{Array}
use abtst.Abt.{Abt}
use abtst.Env.{set_stopping}
use abtst.Global.{Global, set_rebalance_level, set_rebalance_verbose}
use abtst.Mapping.{HashInfo, set_hash_info, hash_func}
use abtst.Mapping.Table.{MappingType}
use abtst.Mapping.Create.{create_mapping}
use abtst.Stream.Lifecycle.{Streams, is_live}
use abtst.App.{System, init_global, finalize_global}
use abtst.App.Submit.{parallel_ios, hash_block_size, IoParam, Requests, submit_all}

abbrev pub hash_table_buckets : ℕ
hash_table_buckets = 131072

abbrev pub hash : HashInfo
hash = set_hash_info hash_table_buckets hash_block_size hash_func

-- What the calls around the library say: whether calloc succeeds, ABT_init and ABT_finalize, the system,
-- the memory of the loads of the two mappings, what rand() gives, and for how many more rounds than one
-- the clock lets the loop run.
pub record Outside (Runtime : Type 0) : Type 0 where
  pub params_allocated : Bool
  pub abt_init : Runtime → ℤ × Runtime
  pub abt_finalize : Runtime → Runtime
  pub system : System
  pub hash_loads : Option ℕ
  pub random_loads : Option ℕ
  pub rand : ℕ
  pub more_rounds : ℕ

-- st_init (src/app/st.c).
abbrev pub st_init : ℤ
st_init = pos 0

abbrev pub no_requests : Array IoParam
no_requests i = record { used = false; key = record { lba = 0; volume_id = 0 }; load = 0 }

module _ (abt : Abt) where
  open abt use {Runtime}

  -- From the label EXIT1 on; st_finalize does nothing, abtst_free and free only give memory back.
  unfoldable pub shut_down :
      (Runtime → Runtime) → Streams → Global → Runtime → Option (ℤ × Global × Runtime)
  shut_down abt_finalize streams g rt = do
    (ret, g', rt') ← finalize_global abt streams (record g { env = set_stopping g.env }) rt
    some (pos 0, g', abt_finalize rt')

-- `others` is what the threads of the program do while main sleeps.
module _ (abt : Abt) (thread_create : (pool arg : ℕ) → abt.Runtime → ℤ × abt.Runtime)
    (others : ℕ → Requests abt.Runtime → Requests abt.Runtime) where
  open abt use {Runtime}

  -- The two mappings; the number of the first, unless one fails.
  unfoldable pub set_up :
      Option ℕ → Option ℕ → Global → Runtime → Option (Option ℕ × Global × Runtime)
  set_up hash_loads random_loads g rt = do
    (ret, g', rt') ← create_mapping abt hash_loads MappingType.hashing (some hash) 0 g rt
    elim ret [
      | negsuc n ↦ some (none, g', rt')
      | pos id ↦ do
        (ret', g'', rt'') ← create_mapping abt random_loads MappingType.random none 1 g' rt'
        some (elim ret' [ negsuc n ↦ none | pos id' ↦ some id ], g'', rt'')
    ]

  -- The loop of requests, whose last round is number 0.
  unfoldable pub serve_rounds :
      (rand mapping_id n : ℕ) → Requests Runtime → Option (Bool × Requests Runtime)
  serve_rounds rand mapping_id zero r = do
    (ok, r') ← submit_all thread_create rand mapping_id (range 0 parallel_ios) r
    some (ok, (if ok then others zero r' else r'))
  serve_rounds rand mapping_id (suc n) r = do
    (ok, r') ← submit_all thread_create rand mapping_id (range 0 parallel_ios) r
    let rest = serve_rounds rand mapping_id n (others (suc n) r')
    if ok then rest else some (false, r')

  -- The requests under the mapping `id`, and then the end.
  unfoldable pub serve_and_stop :
      Outside Runtime → Streams → ℕ → Global → Runtime → Option (ℤ × Global × Runtime)
  unfolding serve_rounds shut_down
  serve_and_stop out streams id g rt = do
    let reb = set_rebalance_level (set_rebalance_verbose g.rebalance 2) 1
    (ok, r) ← serve_rounds out.rand id out.more_rounds (record {
      params = no_requests;
      lba = 0;
      cnt = 0;
      global = record g { rebalance = reb };
      rt = rt;
    })
    shut_down abt out.abt_finalize streams r.global r.rt

  -- abtst_init reports no error, so that main goes on to make the mappings, while the rebalancer's
  -- thread runs: without the array of the streams, both read memory that is not there.
  unfoldable pub run_main :
      Outside Runtime → Streams → Global → Runtime → Option (ℤ × Global × Runtime)
  unfolding set_up serve_and_stop shut_down
  run_main out streams g rt =
      if not out.params_allocated
      then some (negsuc 0, g, rt)
      else let (ret, rt1) = out.abt_init rt in
        if not (is_zero_ℤ ret) then some (ret, g, rt1) else do
          (ret', streams', g1, rt2) ← init_global abt out.system none streams g rt1
          let stop = shut_down abt out.abt_finalize streams'
          if not (is_zero_ℤ ret') then stop g1 rt2 else do
            require (is_live streams'.array)
            (made, g2, rt3) ← set_up out.hash_loads out.random_loads g1 rt2
            elim made [
              | none ↦ stop g2 rt3
              | some id ↦
                  if not (is_zero_ℤ st_init)
                  then stop g2 rt3
                  else serve_and_stop out streams' id g2 rt3
            ]
