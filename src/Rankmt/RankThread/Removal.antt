-- ===== src/Rankmt/RankThread/Removal.antt =====
-- Removal of a backend of rank_thread.cpp while a model thread has one of its GPUs.
use nexuslb.Prelude.{
  ℕ, ◌≡◌, refl, ap, ◌∙◌, true, false, none, some, List, [], ◌∷◌, contains, if◌then◌else◌, ok, fault,
  out_of_range, arith, is_some,
}
use nexuslb.Splay.Contents.{IsDistinct}
use nexuslb.Rankmt.{UpdateGpuCommand}
use nexuslb.Rankmt.RankThread.State.{GpuContext, RankThread, erase_gpu}
use nexuslb.Rankmt.RankThread.Handlers.{do_update_gpu_command}
use nexuslb.Rankmt.RankThread.Control.{remove_backend, remove_gpus, find_backend, erase_backend}
use nexuslb.Rankmt.RankThread.GpuPool.{
  IsPooled, gpu_ids, free_time, free_time-erase, contains-gpu_ids, IsDistinct-erase_gpu,
}
use nexuslb.Rankmt.RankThread.GpuChanges.{without_gpus, remove_gpus-ok, none_found}

free_time-without :
    (id : ℕ) (ids : List ℕ) (gs : List GpuContext)
    → IsDistinct (gpu_ids gs)
    → free_time id (without_gpus ids gs) ≡ (if contains id ids then none else free_time id gs)
free_time-without id [] gs d = refl
free_time-without id (j ∷ ids) gs d = ground (
  arith,
  free_time-without id ids (erase_gpu j gs) (IsDistinct-erase_gpu j gs d),
  free_time-erase id j gs d,
)

-- If pool and GPUs agree, a backend that is there is removed without a failed check; and a command
-- for one of its GPUs, such as a model thread that holds the GPU sends later, then makes the rank
-- thread throw out_of_range.
pub remove_backend-throws :
    (id : ℕ) (ids : List ℕ) (c : UpdateGpuCommand) (s : RankThread)
    → IsPooled s
    → find_backend id s.backends ≡ some ids
    → contains c.gpu_id ids ≡ true
    → (s' : RankThread) × (remove_backend id s ≡ ok s')
      × IsPooled s'
      × (do_update_gpu_command c s' ≡ fault out_of_range)
unfolding remove_backend do_update_gpu_command erase_backend
remove_backend-throws id ids c s h e k =
    let r = remove_gpus-ok ids s h in
    let s1 = remove_gpus ids s in
    let gone : contains c.gpu_id (gpu_ids s1.gpus) ≡ false =
      contains-gpu_ids c.gpu_id s1.gpus
      ∙ ap (λ l. is_some (free_time c.gpu_id l)) r.1
      ∙ ap is_some (free_time-without c.gpu_id ids s.gpus h.1)
      ∙ rw k refl in
    (
      record s1 { backends = erase_backend id s1.backends },
      rw (remove_backend, e),
      r.0,
      rw (do_update_gpu_command, none_found c.gpu_id s1.gpus gone),
    )
