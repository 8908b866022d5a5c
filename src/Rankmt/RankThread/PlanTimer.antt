-- ===== src/Rankmt/RankThread/PlanTimer.antt =====
-- `OnPlanTimer` of rank_thread.cpp: the search of a GPU for a candidate whose time has come.
use nexuslb.Prelude.{
  [], ◌∷◌, Option, ◌≢◌, is_some, ltb→lt, ℕ, ◌+◌, ◌≤◌, ◌<◌, ◌≡◌, refl, sym, ap, ◌∙◌, ◌⊎◌, inl, inr,
  true, false, none, some, List, ◌==◌, if◌then◌else◌, get_elem?, length, ltb, arith, Outcome, ok,
  ◌>>=◌, Bool-cases,
}
use nexuslb.Splay.Contents.{lookup}
use nexuslb.Splay.Map.{SplayMap, size}
use nexuslb.Splay.Refinement.{view}
use nexuslb.Splay.Reads.{Splayed}
use nexuslb.Splay.Keys.{top_entry, size-Splayed}
use nexuslb.Splay.Values.{first-smallest, first-lookup}
use nexuslb.Rankmt.{ExecutionCandidate}
use nexuslb.Rankmt.RankThread.State.{
  GpuContext, ModelData, RankThread, by_time, find_gpu, present, model_at,
}
use nexuslb.Rankmt.RankThread.Handlers.{assign_gpu, try_plan, on_plan_timer, update_gpu}
use nexuslb.Rankmt.RankThread.Plans.{Has, IsPlanned, Grants, grant_gpu_to_model-ok}
use nexuslb.Rankmt.RankThread.GpuPool.{
  Agrees, IsPooled, free_time-find, free_time-some, contains-find_gpu,
}
use nexuslb.Rankmt.RankThread.GpuChanges.{grant_gpu_to_model-IsPooled}

-- No GPU is free by the start of the candidate.
abbrev pub NoneFree : RankThread → ExecutionCandidate → Type 0
NoneFree s c = (id : ℕ) (g : GpuContext) → find_gpu id s.gpus ≡ some g → c.exec_at < g.free_at

-- The grant of a GPU that is free by the start of the candidate, no later than any other.
abbrev pub GrantsFirst : RankThread → ℕ → ModelData → ExecutionCandidate → RankThread → Type 0
GrantsFirst s i m c s' =
    (g : GpuContext) × (find_gpu g.gpu_id s.gpus ≡ some g)
    × (g.free_at ≤ c.exec_at)
    × ((id : ℕ) (h : GpuContext) → find_gpu id s.gpus ≡ some h → g.free_at ≤ h.free_at)
    × Grants s g i m s'

-- Only the shape of the pool has changed.
abbrev pub Unmoved : RankThread → RankThread → Type 0
Unmoved s s' = s' ≡ record s { gpu_availability_pool = s'.gpu_availability_pool }

Splayed-Agrees :
    (gs : List GpuContext) (p p' : SplayMap ℕ) → Agrees gs p → Splayed by_time p p' → Agrees gs p'
Splayed-Agrees gs p p' (v, d, e, n) sp =
    (sp.1, d, (λ id. ap (lookup id) sp.0 ∙ e id), size-Splayed by_time p p' v sp ∙ n)

-- The GPU at the top of the pool.
first_gpu :
    (s : RankThread)
    → IsPooled s
    → (k t : ℕ) → get_elem? (view s.gpu_availability_pool) 0 ≡ some (k, t)
    → (g : GpuContext) × (find_gpu k s.gpus ≡ some g)
      × (g.gpu_id ≡ k)
      × ((id : ℕ) (h : GpuContext) → find_gpu id s.gpus ≡ some h → g.free_at ≤ h.free_at)
first_gpu s (v, d, e, n) k t top =
    let listed = first-lookup by_time (view s.gpu_availability_pool) k t top in
    let g = free_time-some k s.gpus t (sym (e k) ∙ listed) in
    (
      g.0,
      g.1,
      (free_time-find k s.gpus g.0 g.1).1,
      λ id h f. rw g.2 (
          first-smallest by_time (view s.gpu_availability_pool) k id t h.free_at v.sorted top
            (e id ∙ (free_time-find id s.gpus h f).0)),
    )

-- What `OnPlanTimer` does for a candidate that is in time.
abbrev pub Assigns : RankThread → ℕ → ModelData → ExecutionCandidate → RankThread → Type 0
Assigns s i m c s' = (Unmoved s s' × NoneFree s c) ⊎ GrantsFirst s i m c s'

assign_gpu-ok :
    (i : ℕ) (m : ModelData) (c : ExecutionCandidate) (s : RankThread)
    → IsPlanned s
    → IsPooled s
    → Has s.model_threads i m c
    → (size s.gpu_availability_pool == 0) ≡ false
    → (s' : RankThread) × (assign_gpu i m c s ≡ ok s')
      × IsPlanned s'
      × IsPooled s'
      × Assigns s i m c s'
unfolding assign_gpu update_gpu
assign_gpu-ok i m c s h pooled has nonempty =
    let t = top_entry by_time s.gpu_availability_pool pooled.0 nonempty in
    let s1 = record s { gpu_availability_pool = t.2 } in
    let planned : IsPlanned s1 = record {
      valid = h.valid;
      backed = h.backed;
      in_turn = h.in_turn;
    } in
    let agrees = Splayed-Agrees s.gpus s.gpu_availability_pool t.2 pooled t.5 in
    let first = first_gpu s pooled t.0 t.1 t.4 in
    let g = first.0 in
    let own = ap (λ id. find_gpu id s.gpus) first.2 ∙ first.1 in
    let listed = contains-find_gpu g.gpu_id s.gpus ∙ ap is_some own in
    let grant = grant_gpu_to_model-ok i m c g s1 planned has in
    elim (Bool-cases (ltb c.exec_at g.free_at)) [
      | inl q ↦ (
        s1,
        rw (assign_gpu, t.3, first.1, q),
        planned,
        agrees,
        inl (refl, λ id h' f. omega (arith, first.3 id h' f, ltb→lt c.exec_at g.free_at q)),
      )
      | inr q ↦ (
        grant.0,
        (rw (assign_gpu, t.3, first.1, q) grant.1),
        grant.2,
        grant_gpu_to_model-IsPooled i m g s1 grant.0 agrees listed grant.1,
        inr (g, own, ground arith, first.3, grant.3),
      )
    ]

-- What `OnPlanTimer` does: nothing after a stop, without a candidate or too late for it, and else it
-- looks for a GPU.
abbrev pub Plans : ℕ → RankThread → ℕ → ModelData → RankThread → Type 0
Plans now s i m s' =
    ((s' ≡ s) × ((s.stop_flag ≡ true) ⊎ (m.candidate ≡ none)))
    ⊎ ((c : ExecutionCandidate) × (m.candidate ≡ some c)
        × (((s' ≡ s) × (c.invalid_after < now + s.config.data_latency + s.config.ctrl_latency))
            ⊎ ((now + s.config.data_latency + s.config.ctrl_latency ≤ c.invalid_after)
                × Assigns s i m c s')))

no_gpus : (gs : List GpuContext) (id : ℕ) (g : GpuContext) → length gs ≡ 0 → find_gpu id gs ≢ some g
unfolding find_gpu
no_gpus [] id g e f = absurd (cc)
no_gpus (h ∷ gs) id g e f = absurd (omega arith)

try_plan-ok :
    (now i : ℕ) (m : ModelData) (c : ExecutionCandidate) (s : RankThread)
    → IsPlanned s
    → IsPooled s
    → Has s.model_threads i m c
    → (s' : RankThread) × (try_plan now i m (some c) s ≡ ok s')
      × IsPlanned s'
      × IsPooled s'
      × (((s' ≡ s) × (c.invalid_after < now + s.config.data_latency + s.config.ctrl_latency))
          ⊎ ((now + s.config.data_latency + s.config.ctrl_latency ≤ c.invalid_after)
              × Assigns s i m c s'))
unfolding try_plan
try_plan-ok now i m c s h pooled has =
    let counted : (size s.gpu_availability_pool == length s.gpus) ≡ true =
      ground (arith, pooled.3) in
    let late = ltb c.invalid_after (now + s.config.data_latency + s.config.ctrl_latency) in
    elim (Bool-cases late) [
      | inl q ↦ (s, rw (try_plan, q), h, pooled, inl (refl, ground arith))
      | inr q ↦ elim (Bool-cases (size s.gpu_availability_pool == 0)) [
        | inl z ↦ (
          s,
          rw (try_plan, q, counted, z),
          h,
          pooled,
          inr (
            ground arith,
            inl (refl, λ id g f. absurd (no_gpus s.gpus id g (ground (arith, pooled.3)) f)),
          ),
        )
        | inr z ↦
            let a = assign_gpu-ok i m c s h pooled has z in
            (a.0, (rw (try_plan, q, counted, z) a.1), a.2, a.3, inr (ground arith, a.4))
      ]
    ]

-- If pool and GPUs agree and the plan pool is in order, `OnPlanTimer` on a model that is there fails
-- no check and misses no lookup, and keeps both. It does nothing after `Stop`, without a candidate, or
-- if the candidate can no longer reach a backend in time. Else either no GPU is free by the
-- candidate's start, or the model gets one that is, and of which none is free earlier.
pub on_plan_timer-ok :
    (now i : ℕ) (m : ModelData) (s : RankThread)
    → IsPlanned s
    → IsPooled s
    → get_elem? s.model_threads i ≡ some (some m)
    → (s' : RankThread) × (on_plan_timer now i s ≡ ok s')
      × IsPlanned s'
      × IsPooled s'
      × Plans now s i m s'
unfolding on_plan_timer try_plan model_at
on_plan_timer-ok now i m s h pooled there = elim (Bool-cases s.stop_flag) [
  | inl e ↦ (s, ap (λ b. if b then ok s else turn) e, h, pooled, inl (refl, inl e))
  | inr e ↦
      let step : on_plan_timer now i s ≡ try_plan now i m m.candidate s =
        ap (λ b. if b then ok s else turn) e
        ∙ ap (λ o. present o >>= λ n. try_plan now i n n.candidate s) there in
      by_candidate step m.candidate refl
]
  where
    turn : Outcome RankThread
    turn = model_at i s >>= λ n. try_plan now i n n.candidate s

    by_candidate :
        on_plan_timer now i s ≡ try_plan now i m m.candidate s
        → (o : Option ExecutionCandidate) → m.candidate ≡ o
        → (s' : RankThread) × (on_plan_timer now i s ≡ ok s')
          × IsPlanned s'
          × IsPooled s'
          × Plans now s i m s'
    by_candidate step none e =
        (s, step ∙ ap (λ o. try_plan now i m o s) e, h, pooled, inl (refl, inr e))
    by_candidate step (some c) e =
        let t = try_plan-ok now i m c s h pooled (there, e) in
        (t.0, step ∙ ap (λ o. try_plan now i m o s) e ∙ t.1, t.2, t.3, inr (c, e, t.4))
