-- ===== src/Rankmt/RankThread/Grants.antt =====
-- What `GrantGpuToModel` of rank_thread.cpp does to the GPUs and to both pools.
use nexuslb.Prelude.{
  ℕ, ◌+◌, ◌≡◌, refl, ap, sym, ◌∙◌, true, false, none, some, ◌==◌, contains, if◌then◌else◌,
  get_elem?, ok,
}
use nexuslb.Splay.Contents.{lookup}
use nexuslb.Splay.Refinement.{view}
use nexuslb.Rankmt.{ExecutionCandidate, time_max}
use nexuslb.Rankmt.RankThread.State.{GpuContext, ModelData, RankThread}
use nexuslb.Rankmt.RankThread.Handlers.{grant_gpu_to_model, update_gpu}
use nexuslb.Rankmt.RankThread.Plans.{Has, IsPlanned, grant_gpu_to_model-ok, set-some}
use nexuslb.Rankmt.RankThread.GpuPool.{IsPooled, gpu_ids, free_time, free_time-set}
use nexuslb.Rankmt.RankThread.GpuChanges.{grant_gpu_to_model-IsPooled}

-- The model holds the message of the GPU under the next plan id and no candidate, and rejects further
-- ones; the other models stay as they are. It is out of the plan pool, and the plan id is used up. Among the GPUs and in the pool the GPU
-- is not free at any time, and the others are free when they were.
abbrev pub Taken : RankThread → GpuContext → ℕ → RankThread → Type 0
Taken s g i s' =
    ((m' : ModelData) × ((j : ℕ)
        → get_elem? s'.model_threads j
          ≡ (if i == j then some (some m') else get_elem? s.model_threads j))
      × (m'.link.granted_gpu
          ≡ some
              (record { gpu_id = g.gpu_id; plan_id = s.next_plan_id; debug_free_at = g.free_at }))
      × (m'.candidate ≡ none)
      × (m'.rejecting_candidates ≡ true))
    × (s'.next_plan_id ≡ s.next_plan_id + 1)
    × (contains i s'.plan_pool.map ≡ false)
    × ((id : ℕ)
        → free_time id s'.gpus ≡ (if g.gpu_id == id then some time_max else free_time id s.gpus))
    × ((id : ℕ)
        → lookup id (view s'.gpu_availability_pool)
          ≡ (if g.gpu_id == id then some time_max else lookup id (view s.gpu_availability_pool)))

-- While plan pool and GPU pool are in order, a grant of a known GPU to a model that has a candidate
-- passes its check and keeps both in order. The model has the message and is out of the plan pool, and
-- the GPU, and no other, is not available any more.
pub grant_gpu_to_model-Taken :
    (i : ℕ) (m : ModelData) (c : ExecutionCandidate) (g : GpuContext) (s : RankThread)
    → IsPlanned s
    → IsPooled s
    → Has s.model_threads i m c
    → contains g.gpu_id (gpu_ids s.gpus) ≡ true
    → (s' : RankThread) × (grant_gpu_to_model i m g s ≡ ok s')
      × IsPlanned s'
      × IsPooled s'
      × Taken s g i s'
unfolding update_gpu
grant_gpu_to_model-Taken i m c g s h pooled has there =
    let r = grant_gpu_to_model-ok i m c g s h has in
    let pooled' = grant_gpu_to_model-IsPooled i m g s r.0 pooled there r.1 in
    let granted : ModelData = record m {
      link = record m.link {
        granted_gpu =
            some
              (record { gpu_id = g.gpu_id; plan_id = s.next_plan_id; debug_free_at = g.free_at });
      };
      candidate = none;
      rejecting_candidates = true;
    } in
    let placed : (j : ℕ)
        → get_elem? r.0.model_threads j
          ≡ (if i == j then some (some granted) else get_elem? s.model_threads j) =
      λ j. ap (λ ms. get_elem? ms j) r.3.0 ∙ set-some s.model_threads i j m granted has.0 in
    let free : (id : ℕ)
        → free_time id r.0.gpus ≡ (if g.gpu_id == id then some time_max else free_time id s.gpus) =
      λ id.
        ap (free_time id) r.3.2
        ∙ free_time-set id (record g { free_at = time_max; free_timer = _ }) s.gpus there in
    (
      r.0,
      r.1,
      r.2,
      pooled',
      (
        (granted, placed, refl, refl, refl),
        r.3.1,
        r.3.3,
        free,
        λ id.
            pooled'.2 id
            ∙ free id
            ∙ ap (λ o. if g.gpu_id == id then some time_max else o) (sym (pooled.2 id)),
      ),
    )
