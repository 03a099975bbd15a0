-- ===== src/App/Ended.antt =====
-- How src/app/main.c ends.
use abtst.Common.{
  ℕ, ◌-◌, ◌<◌, true, false, ◌⊎◌, inl, inr, Option, none, some, List, [], ◌∷◌, arith, ◌≡◌, ◌==◌,
  range, >>=-eq-some, Bool-cases, Option-cases, mem, mem-range, refl, sym, subst, ◌∙◌, require,
}
use abtst.Common.Int.{ℤ, pos, is_zero_ℤ}
use abtst.Abt.{Abt}
use abtst.Env.{set_stopping}
use abtst.Global.{Global}
use abtst.Stream.{Store}
use abtst.Stream.Lifecycle.{
  Streams, StreamArray, is_live, end_streams, finalize_streams, join_all, free_all,
}
use abtst.App.{init_global, finalize_global}
use abtst.App.Submit.{Requests}
use abtst.App.Main.{Outside, shut_down, set_up, serve_rounds, serve_and_stop, run_main}

-- A handle is null, or what ABT_xstream_free has left in its place.
pub data IsReleased (abt : Abt) : ℕ → Type 0 where
  never : IsReleased abt 0
  released : (xstream : ℕ) (rt : abt.Runtime) → IsReleased abt (abt.xstream_free xstream rt).1

state_of :
    {A : Type 0} {c c' : ℤ} {g g' : Global} {rt rt' : A}
    → ◌≡◌ {A = Option (ℤ × Global × A)} (some (c, g, rt)) (some (c', g', rt'))
    → (c ≡ c') × (g ≡ g')
state_of {A} {c} {c'} {g} {g'} {rt} {rt'} h = (cc, cc)

-- The state in which main returns 0: the system is stopping, and of the streams in the array, all but the
-- main one were given to ABT_xstream_free or never ran.
pub record Ended (abt : Abt) (streams : Streams) (g : Global) : Type 0 where
  pub stopping : g.env.stopping ≡ true
  pub ended :
      streams.array ≡ StreamArray.live
      → (i : ℕ) → 0 < i
      → i < streams.max_xstreams
      → IsReleased abt (g.store.streams i).xstream

module _ (abt : Abt) (out : Outside abt.Runtime) where
  open abt use {Runtime}

  -- The streams that abtst_init has made room for, and the state that main leaves.
  pub record Stopped (streams₀ : Streams) (g₀ : Global) (rt₀ : Runtime) (code : ℤ) (g : Global)
      : Type 0 where
    pub zero_code : code ≡ pos 0
    pub streams : Streams
    pub ret : ℤ
    pub started : Global
    pub rt : Runtime
    pub init :
        init_global abt out.system none streams₀ g₀ (out.abt_init rt₀).1
        ≡ some (ret, streams, started, rt)
    pub ended : Ended abt streams g

module _ (abt : Abt) where
  open abt use {Runtime}

  -- Freeing a list of streams leaves those that are released.
  free_all-IsReleased :
      (is : List ℕ) (ret : ℤ) (s : Store) (rt : Runtime) (i : ℕ)
      → IsReleased abt (s.streams i).xstream
      → IsReleased abt ((free_all abt is ret s rt).1.streams i).xstream
  unfolding free_all
  free_all-IsReleased [] ret s rt i h = h
  free_all-IsReleased (j ∷ is) ret s rt i h = elim (Bool-cases ((s.streams j).xstream == 0)) [
    | inl idle ↦ rw idle (free_all-IsReleased is ret s rt i h)
    | inr runs ↦ rw runs (
        free_all-IsReleased is _ _ _ i (elim (Bool-cases (i == j)) [
          | inl here ↦ rw here (IsReleased.released (s.streams j).xstream rt)
          | inr other ↦ rw other h
        ]))
  ]

  free_all-all :
      (is : List ℕ) (ret : ℤ) (s : Store) (rt : Runtime) (i : ℕ)
      → mem i is ≡ true
      → IsReleased abt ((free_all abt is ret s rt).1.streams i).xstream
  unfolding free_all
  free_all-all [] ret s rt i m = absurd (ground arith)
  free_all-all (j ∷ is) ret s rt i m = elim (Bool-cases (i == j)) [
    | inl here ↦ elim (Bool-cases ((s.streams j).xstream == 0)) [
      | inl idle ↦
          let null : 0 ≡ (s.streams j).xstream = ground arith in
          let same : j ≡ i = ground arith in
          rw idle (
            free_all-IsReleased is ret s rt i (
              subst (λ k. IsReleased abt (s.streams k).xstream) same
                (subst (IsReleased abt) null IsReleased.never)))
      | inr runs ↦
          rw runs (
            free_all-IsReleased is _ _ _ i (rw here (IsReleased.released (s.streams j).xstream rt)))
    ]
    | inr other ↦ elim (Bool-cases ((s.streams j).xstream == 0)) [
      | inl idle ↦ rw idle (free_all-all is ret s rt i (ground arith))
      | inr runs ↦ rw runs (free_all-all is _ _ _ i (ground arith))
    ]
  ]

  -- The streams, whatever has become of the array.
  finalize_streams-IsReleased :
      (streams : Streams) (s s' : Store) (rt rt' : Runtime) (ret : ℤ)
      → finalize_streams abt streams s rt ≡ some (ret, s', rt')
      → streams.array ≡ StreamArray.live
      → (i : ℕ) → 0 < i
      → i < streams.max_xstreams
      → IsReleased abt (s'.streams i).xstream
  unfolding finalize_streams end_streams
  finalize_streams-IsReleased streams s s' rt rt' ret h live i low high =
      let others = range 1 (streams.max_xstreams - 1) in
      let (code, rt1) = join_all abt s.streams others (pos 0) rt in
      let e : (free_all abt others code s rt1).1 ≡ s' = let h' = rw live at h in cc in
      subst (λ (t : Store). IsReleased abt (t.streams i).xstream) e
        (free_all-all others code s rt1 i
          (mem-range i (streams.max_xstreams - 1) 1 (omega arith) (omega arith)))

  shut_down-Ended :
      (finish : Runtime → Runtime) (streams : Streams) (g g' : Global) (rt rt' : Runtime) (code : ℤ)
      → shut_down abt finish streams g rt ≡ some (code, g', rt')
      → (code ≡ pos 0) × Ended abt streams g'
  unfolding shut_down finalize_global set_stopping
  shut_down-Ended finish streams g g' rt rt' code h =
      let stopping = record g { env = set_stopping g.env } in
      let ((ret, m, rt1), made, h1) = >>=-eq-some (finalize_global abt streams stopping rt) _ h in
      let ((ret', s, rt2), freed, h2) =
        >>=-eq-some (finalize_streams abt streams g.store rt) _ made in
      let e : record stopping { store = s } ≡ m = cc in
      let (zero_code, same) = state_of h1 in
      (
        sym zero_code,
        subst (Ended abt streams) (e ∙ same) record {
          stopping = refl;
          ended = finalize_streams-IsReleased streams g.store s rt rt2 ret' freed;
        },
      )

  module _ (thread_create : (pool arg : ℕ) → Runtime → ℤ × Runtime)
      (others : ℕ → Requests Runtime → Requests Runtime) (out : Outside Runtime) where
    stopped :
        (streams streams₀ : Streams) (g₀ g1 g g' : Global) (rt₀ rt1 rt rt' : Runtime) (ret code : ℤ)
        → init_global abt out.system none streams₀ g₀ (out.abt_init rt₀).1
          ≡ some (ret, streams, g1, rt1)
        → shut_down abt out.abt_finalize streams g rt ≡ some (code, g', rt')
        → Stopped abt out streams₀ g₀ rt₀ code g'
    unfolding shut_down
    stopped streams streams₀ g₀ g1 g g' rt₀ rt1 rt rt' ret code init h =
        let (zero_code, ended) = shut_down-Ended out.abt_finalize streams g g' rt rt' code h in
        record {
          zero_code = zero_code;
          streams = streams;
          ret = ret;
          started = g1;
          rt = rt1;
          init = init;
          ended = ended;
        }

    serve_and_stop-stops :
        (streams : Streams) (id : ℕ) (g : Global) (rt : Runtime) (x : ℤ × Global × Runtime)
        → serve_and_stop abt thread_create others out streams id g rt ≡ some x
        → (r : Requests Runtime) × (shut_down abt out.abt_finalize streams r.global r.rt ≡ some x)
    unfolding serve_and_stop
    serve_and_stop-stops streams id g rt x h =
        let ((ok, r), served, h1) =
          >>=-eq-some (serve_rounds abt thread_create others out.rand id out.more_rounds _) _ h in
        (r, h1)

    -- Where a run of main is defined, for which the array of streams must be there once abtst_init has
    -- returned 0: main returns a code other than 0 only where it has changed nothing of the library; otherwise it returns 0, the
    -- system is stopping, and of the streams that abtst_init has made room for, but for the main one, each
    -- has a null handle or what ABT_xstream_free has left in place of the handle.
    pub run_main-Stopped :
        (streams : Streams) (g g' : Global) (rt rt' : Runtime) (code : ℤ)
        → run_main abt thread_create others out streams g rt ≡ some (code, g', rt')
        → ((is_zero_ℤ code ≡ false) × (g' ≡ g)) ⊎ Stopped abt out streams g rt code g'
    unfolding run_main
    run_main-Stopped streams g g' rt rt' code h = elim (Bool-cases out.params_allocated) [
      | inr no_memory ↦
          let (e, same) = state_of (rw no_memory at h) in
          inl (subst (λ c. is_zero_ℤ c ≡ false) e refl, sym same)
      | inl memory ↦ elim (Bool-cases (is_zero_ℤ (out.abt_init rt).0)) [
        | inr failed ↦
            let (e, same) = state_of (rw (memory, failed) at h) in
            inl (subst (λ c. is_zero_ℤ c ≡ false) e failed, sym same)
        | inl ok ↦
            let ((ret, streams', g1, rt2), init, h1) =
              >>=-eq-some (init_global abt out.system none streams g (out.abt_init rt).1) _
                (rw (memory, ok) at h) in
            elim (Bool-cases (is_zero_ℤ ret)) [
              | inr bad ↦
                  inr (
                    stopped streams' streams g g1 g1 g' rt rt2 rt2 rt' ret code init (rw bad at h1))
              | inl good ↦
                  let (_, array, h1') =
                    >>=-eq-some (require (is_live streams'.array)) _ (rw good at h1) in
                  let ((made, g2, rt3), set, h2) =
                    >>=-eq-some
                      (set_up abt thread_create others out.hash_loads out.random_loads g1 rt2) _
                      h1' in
                  elim (Option-cases made) [
                    | inl none_made ↦ inr (
                        stopped streams' streams g g1 g2 g' rt rt2 rt3 rt' ret code init
                          (rw none_made at h2))
                    | inr (id, e) ↦
                        let (r, h3) =
                          serve_and_stop-stops streams' id g2 rt3 (code, g', rt') (rw e at h2) in
                        inr (
                          stopped streams' streams g g1 r.global g' rt rt2 r.rt rt' ret code init
                            h3)
                  ]
            ]
      ]
    ]
