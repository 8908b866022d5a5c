-- ===== src/Rankmt/RankThread/GpuTimer.antt =====
-- `OnGpuTimer` of rank_thread.cpp: removal of the candidates that are late, and the grant of the GPU.
use nexuslb.Prelude.{
  ℕ, zero, suc, ◌+◌, ◌≤◌, ◌<◌, ◌≡◌, refl, sym, ap, subst, ◌∙◌, ◌⊎◌, inl, inr, true, none, some,
  List, [], ◌∷◌, ◌==◌, ==_iff, contains, if◌then◌else◌, get_elem?, ltb, arith, Outcome, ok, ◌>>=◌,
  Bool-cases, length,
}
use nexuslb.Splay.Map.{SplayMap, size, remove}
use nexuslb.Splay.Refinement.{view, IsValid, remove_lem}
use nexuslb.Splay.Reads.{Splayed}
use nexuslb.Splay.Keys.{contains-remove, size-remove, top_entry, contains-Splayed, size-Splayed}
use nexuslb.Rankmt.{ExecutionCandidate}
use nexuslb.Rankmt.RankThread.State.{GpuContext, ModelData, RankThread, by_time, model_at}
use nexuslb.Rankmt.RankThread.Handlers.{remove_invalid, grant_top, on_gpu_timer}
use nexuslb.Rankmt.RankThread.GpuPool.{IsPooled, gpu_ids}
use nexuslb.Rankmt.RankThread.GpuChanges.{grant_gpu_to_model-IsPooled}
use nexuslb.Rankmt.RankThread.Plans.{Has, IsPlanned, Grants, grant_gpu_to_model-ok}

-- The invariant holds of a pool with fewer keys.
with_pool :
    (p : SplayMap ℕ) (s : RankThread)
    → IsPlanned s
    → IsValid by_time p
    → ((j : ℕ) → contains j p.map ≡ true → contains j s.plan_pool.map ≡ true)
    → IsPlanned (record s { plan_pool = p })
with_pool p s h v sub = record {
  valid = v;
  backed = λ j k. h.backed j (sub j k);
  in_turn = h.in_turn;
}

-- The top of a pool is a model whose candidate can still run when the GPU is free.
abbrev Fits : GpuContext → RankThread → SplayMap ℕ → Type 0
Fits g s p =
    (k : ℕ)
    → (t : ℕ) → get_elem? (view p) 0 ≡ some (k, t)
    → (m : ModelData) × (c : ExecutionCandidate) × Has s.model_threads k m c
      × (g.free_at ≤ c.invalid_after)

-- What the removal leaves of the pool.
abbrev Cleared : GpuContext → RankThread → SplayMap ℕ → Type 0
Cleared g s p =
    IsPlanned (record s { plan_pool = p })
    × ((j : ℕ) → contains j p.map ≡ true → contains j s.plan_pool.map ≡ true)
    × Fits g s p

none_left :
    (p : SplayMap ℕ) → IsValid by_time p → (size p == 0) ≡ true → get_elem? (view p) 0 ≡ none
unfolding size
none_left p v e = empty (view p) (sym v.counted ∙ (==_iff (size p) 0).0 e)
  where
    empty : (xs : List (ℕ × ℕ)) → length xs ≡ 0 → get_elem? xs 0 ≡ none
    empty [] e = refl
    empty (x ∷ xs) e = absurd (omega arith)

empty_fits :
    (g : GpuContext) (s : RankThread)
    → IsPlanned s
    → (size s.plan_pool == 0) ≡ true
    → Cleared g s s.plan_pool
empty_fits g s h e =
    (h, (λ j k. k), λ k t q. let n = none_left s.plan_pool h.valid e in absurd (cc))

-- Removal of the top keeps the invariant and makes the pool smaller.
drop_top :
    (k : ℕ) (top : SplayMap ℕ) (s : RankThread)
    → IsPlanned s
    → contains k s.plan_pool.map ≡ true
    → Splayed by_time s.plan_pool top
    → IsPlanned (record s { plan_pool = remove k top })
      × (size (remove k top) + 1 ≡ size s.plan_pool)
      × ((j : ℕ) → contains j (remove k top).map ≡ true → contains j s.plan_pool.map ≡ true)
drop_top k top s h c sp =
    (with_pool (remove k top) s h (remove_lem by_time k top sp.1).1 fewer, smaller, fewer)
  where
    same : (j : ℕ) → contains j top.map ≡ contains j s.plan_pool.map
    same j = contains-Splayed by_time j s.plan_pool top h.valid sp

    fewer : (j : ℕ) → contains j (remove k top).map ≡ true → contains j s.plan_pool.map ≡ true
    fewer j q = ground (arith, contains-remove by_time k j top sp.1, same j)

    smaller : size (remove k top) + 1 ≡ size s.plan_pool
    smaller =
        size-remove by_time k top sp.1 (same k ∙ c)
        ∙ size-Splayed by_time s.plan_pool top h.valid sp

-- A top whose candidate is in time stays.
keep_top :
    (g : GpuContext) (k t : ℕ) (top : SplayMap ℕ) (s : RankThread)
    → IsPlanned s
    → get_elem? (view s.plan_pool) 0 ≡ some (k, t)
    → Splayed by_time s.plan_pool top
    → (m : ModelData) → (c : ExecutionCandidate) → Has s.model_threads k m c
    → g.free_at ≤ c.invalid_after
    → Cleared g s top
keep_top g k t top s h e sp m c has le = (with_pool top s h sp.1 same, same, fits)
  where
    same : (j : ℕ) → contains j top.map ≡ true → contains j s.plan_pool.map ≡ true
    same j q = sym (contains-Splayed by_time j s.plan_pool top h.valid sp) ∙ q

    fits : Fits g s top
    fits j u q =
        let e' : get_elem? (view s.plan_pool) 0 ≡ some (j, u) = cc (sp.0) in
        let j≡k : k ≡ j = cc in (m, c, subst (λ i. Has s.model_threads i m c) j≡k has, le)

remove_invalid-ok :
    (fuel : ℕ) (g : GpuContext) (s : RankThread)
    → IsPlanned s
    → size s.plan_pool < fuel
    → (p : SplayMap ℕ) × (remove_invalid fuel g s ≡ ok (record s { plan_pool = p })) × Cleared g s p
unfolding remove_invalid model_at
remove_invalid-ok zero g s h f = absurd (omega arith)
remove_invalid-ok (suc fuel) g s h f = elim (Bool-cases (size s.plan_pool == 0)) [
  | inl e ↦ (s.plan_pool, rw (remove_invalid, e), empty_fits g s h e)
  | inr e ↦
      let t = top_entry by_time s.plan_pool h.valid e in
      let old = h.backed t.0 t.6 in
      let less = drop_top t.0 t.2 s h t.6 t.5 in
      let rest =
        remove_invalid-ok fuel g (record s { plan_pool = remove t.0 t.2 }) less.0
          (omega (arith, less.1)) in
      elim (Bool-cases (ltb old.1.invalid_after g.free_at)) [
        | inl q ↦ (
          rest.0,
          rw (remove_invalid, e, t.3, old.2.0, old.2.1, q, rest.1),
          (rest.2.0, (λ j k. less.2 j (rest.2.1 j k)), rest.2.2),
        )
        | inr q ↦ (
          t.2,
          rw (remove_invalid, e, t.3, old.2.0, old.2.1, q),
          keep_top g t.0 t.1 t.2 s h t.4 t.5 old.0 old.1 old.2 (ground arith),
        )
      ]
]

-- A grant by `OnGpuTimer`: of a candidate in the pool, for a GPU that is free in its window.
abbrev pub Granted : RankThread → GpuContext → RankThread → Type 0
Granted s g s' =
    (i : ℕ) × (m : ModelData) × (c : ExecutionCandidate) × (contains i s.plan_pool.map ≡ true)
    × Has s.model_threads i m c
    × (c.exec_at ≤ g.free_at)
    × (g.free_at ≤ c.invalid_after)
    × Grants s g i m s'

-- What `OnGpuTimer` does: nothing to models and GPUs, or a grant.
abbrev pub Answers : RankThread → GpuContext → RankThread → Type 0
Answers s g s' =
    ((s'.model_threads ≡ s.model_threads) × (s'.gpus ≡ s.gpus) × (s'.next_plan_id ≡ s.next_plan_id))
    ⊎ Granted s g s'

grant_top-ok :
    (g : GpuContext) (s : RankThread) (p : SplayMap ℕ)
    → Cleared g s p
    → (s' : RankThread) × (grant_top g (record s { plan_pool = p }) ≡ ok s')
      × IsPlanned s'
      × Answers s g s'
      × (IsPooled s → contains g.gpu_id (gpu_ids s.gpus) ≡ true → IsPooled s')
unfolding grant_top model_at
grant_top-ok g s p (h, sub, fits) = elim (Bool-cases (size p == 0)) [
  | inl e ↦ (record s { plan_pool = p }, rw (grant_top, e), h, inl (refl, refl, refl), (λ q k. q))
  | inr e ↦
      let t = top_entry by_time p h.valid e in
      let fit = fits t.0 t.1 t.4 in
      let kept =
        with_pool t.2 (record s { plan_pool = p }) h t.5.1
          (λ j q. sym (contains-Splayed by_time j p t.2 h.valid t.5) ∙ q) in
      let m = fit.0 in
      let c = fit.1 in
      let grant = grant_gpu_to_model-ok t.0 m c g (record s { plan_pool = t.2 }) kept fit.2 in
      elim (Bool-cases (ltb g.free_at c.exec_at)) [
        | inl q ↦ (
          record s { plan_pool = t.2 },
          rw (grant_top, e, t.3, fit.2.0, fit.2.1, q),
          kept,
          inl (refl, refl, refl),
          (λ q k. q),
        )
        | inr q ↦ (
          grant.0,
          (rw (grant_top, e, t.3, fit.2.0, fit.2.1, q) grant.1),
          grant.2,
          inr (t.0, m, c, sub t.0 t.6, fit.2, ground arith, fit.3, grant.3),
          (λ q k.
              grant_gpu_to_model-IsPooled t.0 m g (record s { plan_pool = t.2 }) grant.0 q k
                grant.1),
        )
      ]
]

pub on_gpu_timer-run :
    (g : GpuContext) (s : RankThread)
    → IsPlanned s
    → (s' : RankThread) × (on_gpu_timer g s ≡ ok s')
      × IsPlanned s'
      × Answers s g s'
      × (IsPooled s → contains g.gpu_id (gpu_ids s.gpus) ≡ true → IsPooled s')
unfolding on_gpu_timer
on_gpu_timer-run g s h = elim (Bool-cases s.stop_flag) [
  | inl e ↦ (s, ap (λ b. if b then ok s else rest) e, h, inl (refl, refl, refl), (λ q k. q))
  | inr e ↦
      let r = remove_invalid-ok (size s.plan_pool + 1) g s h (omega arith) in
      let last = grant_top-ok g s r.0 r.2 in
      (
        last.0,
        ap (λ b. if b then ok s else rest) e ∙ ap (λ o. o >>= grant_top g) r.1 ∙ last.1,
        last.2,
        last.3,
        last.4,
      )
]
  where
    rest : Outcome RankThread
    rest = remove_invalid (size s.plan_pool + 1) g s >>= grant_top g

-- As long as the thread runs, no check of `OnGpuTimer` fails and no lookup misses, the invariant is
-- kept, and models and GPUs are as before or one candidate of the pool is granted the GPU: one that may
-- start by when the GPU is free and is then still valid.
pub on_gpu_timer-ok :
    (g : GpuContext) (s : RankThread)
    → IsPlanned s
    → (s' : RankThread) × (on_gpu_timer g s ≡ ok s') × IsPlanned s' × Answers s g s'
on_gpu_timer-ok g s h = let r = on_gpu_timer-run g s h in (r.0, r.1, r.2, r.3)
