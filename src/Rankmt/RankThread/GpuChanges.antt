-- ===== src/Rankmt/RankThread/GpuChanges.antt =====
-- The GPUs of rank_thread.cpp as backends come and go and as model threads report them.
use nexuslb.Prelude.{
  is_some, ℕ, ◌+◌, ◌-◌, ◌≡◌, refl, sym, ap, subst, ◌∙◌, true, false, Option, none, some, List, [],
  ◌∷◌, ◌==◌, ==_iff, contains, if◌then◌else◌, arith, Outcome, ok, fault, ◌>>=◌, Bool-cases, inl,
  inr,
}
use nexuslb.Splay.Contents.{IsDistinct}
use nexuslb.Splay.Map.{upsert, remove}
use nexuslb.Rankmt.{epoch, time_max, UpdateGpuCommand}
use nexuslb.Rankmt.RankThread.State.{
  set_model, ModelData, GpuContext, RankThread, by_time, find_gpu, erase_gpu,
}
use nexuslb.Rankmt.RankThread.Handlers.{
  grant_model, grant_gpu_to_model, update_gpu, do_update_gpu_command,
}
use nexuslb.Rankmt.RankThread.Control.{
  add_gpu, add_gpus, add_backend, remove_gpu, remove_gpus, remove_backend, find_backend,
  erase_backend,
}
use nexuslb.Rankmt.RankThread.GpuPool.{
  IsPooled, gpu_ids, free_time, free_time-set, free_time-find, contains-find_gpu, upsert-Agrees,
  add-Agrees, remove-Agrees,
}

-- The context of a GPU after an update.
abbrev pub reset : GpuContext → ℕ → RankThread → GpuContext
reset g free_at s = record g {
  free_at = free_at;
  free_timer = some (free_at - s.config.ctrl_latency - s.config.data_latency);
}

pub update_gpu-IsPooled :
    (g : GpuContext) (free_at : ℕ) (s : RankThread)
    → IsPooled s
    → contains g.gpu_id (gpu_ids s.gpus) ≡ true
    → IsPooled (update_gpu g free_at s)
unfolding update_gpu
update_gpu-IsPooled g free_at s h c =
    upsert-Agrees (reset g free_at s) s.gpus s.gpu_availability_pool h c

pub none_found :
    (id : ℕ) (gs : List GpuContext) → contains id (gpu_ids gs) ≡ false → find_gpu id gs ≡ none
none_found id gs h = by_find (find_gpu id gs) (sym (contains-find_gpu id gs) ∙ h)
  where
    by_find : (o : Option GpuContext) → is_some o ≡ false → o ≡ none
    by_find none e = refl
    by_find (some g) e = absurd (cc)

abbrev pub new_gpu : ℕ → GpuContext
new_gpu id = record { gpu_id = id; free_at = epoch; free_timer = none }

-- The GPUs after new ones have been added.
abbrev pub with_gpus : List ℕ → List GpuContext → List GpuContext
with_gpus [] gs = gs
with_gpus (id ∷ ids) gs = with_gpus ids (new_gpu id ∷ gs)

-- None of the numbers is the id of a GPU.
abbrev pub Fresh : List ℕ → List GpuContext → Type 0
Fresh ids gs = (id : ℕ) → contains id ids ≡ true → contains id (gpu_ids gs) ≡ false

abbrev with_gpu : ℕ → RankThread → RankThread
with_gpu id s = record s {
  gpus = new_gpu id ∷ s.gpus;
  gpu_availability_pool = upsert by_time id epoch s.gpu_availability_pool;
}

add_gpu-ok :
    (id : ℕ) (s : RankThread) → find_gpu id s.gpus ≡ none → add_gpu id s ≡ ok (with_gpu id s)
unfolding add_gpu
add_gpu-ok id s e = rw (add_gpu, e)

pub add_gpus-ok :
    (ids : List ℕ) (s : RankThread)
    → IsPooled s
    → IsDistinct ids
    → Fresh ids s.gpus
    → (s' : RankThread) × (add_gpus ids s ≡ ok s')
      × IsPooled s'
      × (s'.gpus ≡ with_gpus ids s.gpus)
      × (s' ≡ record s { gpus = s'.gpus; gpu_availability_pool = s'.gpu_availability_pool })
unfolding add_gpus
add_gpus-ok [] s h d f = (s, refl, h, refl, refl)
add_gpus-ok (id ∷ ids) s h d f =
    let absent = f id (ground arith) in
    let pooled = add-Agrees (new_gpu id) s.gpus s.gpu_availability_pool h absent in
    let rest = add_gpus-ok ids (with_gpu id s) pooled d.1 fresh in
    (
      rest.0,
      ap (λ o. o >>= add_gpus ids) (add_gpu-ok id s (none_found id s.gpus absent)) ∙ rest.1,
      rest.2,
      rest.3,
      rest.4,
    )
  where
    fresh : Fresh ids (new_gpu id ∷ s.gpus)
    fresh j c = elim (Bool-cases (id == j)) [
      | inl q ↦
          let same : id ≡ j = (==_iff id j).0 q in
          absurd (cc (d.0, ap (λ i. contains i ids) same, c))
      | inr q ↦ ground (arith, f j)
    ]

-- The GPUs after some have been erased.
abbrev pub without_gpus : List ℕ → List GpuContext → List GpuContext
without_gpus [] gs = gs
without_gpus (id ∷ ids) gs = without_gpus ids (erase_gpu id gs)

pub remove_gpus-ok :
    (ids : List ℕ) (s : RankThread)
    → IsPooled s
    → IsPooled (remove_gpus ids s)
      × ((remove_gpus ids s).gpus ≡ without_gpus ids s.gpus)
      × ((remove_gpus ids s).backends ≡ s.backends)
unfolding remove_gpus remove_gpu
remove_gpus-ok [] s h = (h, refl, refl)
remove_gpus-ok (id ∷ ids) s h =
    remove_gpus-ok ids (remove_gpu id s) (remove-Agrees id s.gpus s.gpu_availability_pool h)

erase-with_gpus :
    (id : ℕ) (ids : List ℕ) (gs : List GpuContext)
    → contains id ids ≡ false
    → erase_gpu id (with_gpus ids gs) ≡ with_gpus ids (erase_gpu id gs)
unfolding erase_gpu
erase-with_gpus id [] gs h = refl
erase-with_gpus id (j ∷ ids) gs h =
    let other : (j == id) ≡ false = ground arith in
    erase-with_gpus id ids (new_gpu j ∷ gs) (ground arith) ∙ rw other

without-with_gpus :
    (ids : List ℕ) (gs : List GpuContext)
    → IsDistinct ids
    → without_gpus ids (with_gpus ids gs) ≡ gs
unfolding erase_gpu
without-with_gpus [] gs d = refl
without-with_gpus (id ∷ ids) gs d =
    let same : (id == id) ≡ true = ground arith in
    ap (without_gpus ids) (erase-with_gpus id ids (new_gpu id ∷ gs) d.0 ∙ rw same)
    ∙ without-with_gpus ids gs d.1

-- A backend whose id and GPUs are new, its GPUs distinct, is added without a failed check, with each
-- GPU in the pool as free since the epoch; and if it is removed then, the backends and GPUs are those
-- of before. Pool and GPUs agree on GPUs, times and number all the way.
pub remove_backend-add_backend :
    (id : ℕ) (ids : List ℕ) (s : RankThread)
    → IsPooled s
    → find_backend id s.backends ≡ none
    → IsDistinct ids
    → Fresh ids s.gpus
    → (s1 : RankThread) × (s2 : RankThread) × (add_backend id ids s ≡ ok s1)
      × (remove_backend id s1 ≡ ok s2)
      × IsPooled s1
      × (s1.gpus ≡ with_gpus ids s.gpus)
      × IsPooled s2
      × (s2.gpus ≡ s.gpus)
      × (s2.backends ≡ s.backends)
unfolding add_backend remove_backend find_backend erase_backend
remove_backend-add_backend id ids s h e d f =
    let a = add_gpus-ok ids (record s { backends = (id, ids) ∷ s.backends }) h d f in
    let r = remove_gpus-ok ids a.0 a.2 in
    let s2 = remove_gpus ids a.0 in
    let self : (id == id) ≡ true = ground arith in
    let found : find_backend id a.0.backends ≡ some ids =
      ap (λ x. find_backend id x.backends) a.4 ∙ rw self in
    (
      a.0,
      record s2 { backends = erase_backend id s2.backends },
      (rw (add_backend, e) a.1),
      rw (remove_backend, found),
      a.2,
      a.3,
      r.0,
      r.1 ∙ ap (without_gpus ids) a.3 ∙ without-with_gpus ids s.gpus d,
      ap (erase_backend id) (r.2 ∙ ap (λ x. x.backends) a.4) ∙ rw self,
    )

-- A report: the GPU has the new time, and nothing but GPUs and pool has changed.
abbrev pub Reported : UpdateGpuCommand → RankThread → RankThread → Type 0
Reported c s s' =
    (s' ≡ record s { gpus = s'.gpus; gpu_availability_pool = s'.gpu_availability_pool })
    × ((id : ℕ)
        → free_time id s'.gpus ≡ (if c.gpu_id == id then some c.free_at else free_time id s.gpus))

update_gpu-Reported :
    (c : UpdateGpuCommand) (g : GpuContext) (s : RankThread)
    → g.gpu_id ≡ c.gpu_id
    → contains g.gpu_id (gpu_ids s.gpus) ≡ true
    → Reported c s (update_gpu g c.free_at s)
unfolding update_gpu
update_gpu-Reported c g s e there = (
  refl,
  λ id.
      free_time-set id (reset g c.free_at s) s.gpus there
      ∙ ap (λ j. if j == id then some c.free_at else free_time id s.gpus) e,
)

-- A command for a GPU that is there is carried out: the GPU has the reported time, and pool and GPUs
-- agree as before.
pub do_update_gpu_command-ok :
    (c : UpdateGpuCommand) (s : RankThread)
    → IsPooled s
    → contains c.gpu_id (gpu_ids s.gpus) ≡ true
    → (s' : RankThread) × (do_update_gpu_command c s ≡ ok s') × IsPooled s' × Reported c s s'
unfolding do_update_gpu_command
do_update_gpu_command-ok c s h there = by_find (find_gpu c.gpu_id s.gpus) refl
  where
    by_find :
        (o : Option GpuContext)
        → find_gpu c.gpu_id s.gpus ≡ o
        → (s' : RankThread) × (do_update_gpu_command c s ≡ ok s') × IsPooled s' × Reported c s s'
    by_find none e = absurd (cc (contains-find_gpu c.gpu_id s.gpus, ap is_some e, there))
    by_find (some g) e =
        let id = (free_time-find c.gpu_id s.gpus g e).1 in
        let here = ap (λ i. contains i (gpu_ids s.gpus)) id ∙ there in
        (
          update_gpu g c.free_at s,
          rw (do_update_gpu_command, e),
          update_gpu-IsPooled g c.free_at s h here,
          update_gpu-Reported c g s id here,
        )

-- A grant keeps pool and GPUs in agreement.
pub grant_gpu_to_model-IsPooled :
    (i : ℕ) (m : ModelData) (g : GpuContext) (s s' : RankThread)
    → IsPooled s
    → contains g.gpu_id (gpu_ids s.gpus) ≡ true
    → grant_gpu_to_model i m g s ≡ ok s'
    → IsPooled s'
unfolding grant_gpu_to_model set_model update_gpu
grant_gpu_to_model-IsPooled i m g s s' h there e =
    by_step
      (grant_model
        (record { gpu_id = g.gpu_id; plan_id = s.next_plan_id; debug_free_at = g.free_at }) m)
      e
  where
    done : ModelData → RankThread
    done m' =
        let s1 = update_gpu g time_max (record s { next_plan_id = s.next_plan_id + 1 }) in
        set_model i m' (record s1 { plan_pool = remove i s1.plan_pool })

    by_step : (o : Outcome ModelData) → (o >>= λ m'. ok (done m')) ≡ ok s' → IsPooled s'
    by_step (fault f) r = absurd (cc)
    by_step (ok m') r =
        let same : done m' ≡ s' = cc in
        subst IsPooled same (update_gpu-IsPooled g time_max s h there)
