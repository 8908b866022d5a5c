-- ===== src/Rankmt/RankThread/Handlers.antt =====
-- The handlers of RankThread (rank_thread.cpp).
use nexuslb.Prelude.{
  is_some, ℕ, zero, suc, ◌+◌, ◌-◌, true, false, not, Option, none, some, List, [], ◌∷◌, ◌==◌, ltb,
  max, length, if◌then◌else◌, get_elem?, Outcome, ok, out_of_range, check_failed, check, or_fault,
  ◌>>=◌, ◌>>◌,
}
use nexuslb.Splay.Map.{size, upsert, remove, get_by_rank}
use nexuslb.Rankmt.{ExecutionCandidate, GrantedGpuMessage, UpdateGpuCommand, Link, time_max}
use nexuslb.Rankmt.RankThread.State.{
  GpuContext, ModelData, RankThread, by_time, find_gpu, set_gpu, model_at, set_model,
}

-- `PostExecutionCandidate`, called by the model thread.
unfoldable pub post_execution_candidate : ℕ → ExecutionCandidate → RankThread → Outcome RankThread
unfolding model_at set_model
post_execution_candidate i c s = do
  m ← model_at i s
  ok (set_model i (record m { link = record m.link { new_candidate = some c } }) s)

-- `PostResumeCandidateUpdate`, called by the model thread.
unfoldable pub post_resume_candidate_update : ℕ → RankThread → Outcome RankThread
unfolding model_at set_model
post_resume_candidate_update i s = do
  m ← model_at i s
  check (not m.link.resume_candidate_update)
  ok (set_model i (record m { link = record m.link { resume_candidate_update = true } }) s)

-- `SetupActivePlan`.
unfoldable pub setup_active_plan : ℕ → ℕ → ModelData → RankThread → Outcome RankThread
unfolding set_model
setup_active_plan now i m s = do
  c ← or_fault m.candidate check_failed
  let send_at = c.exec_at - s.config.ctrl_latency - s.config.data_latency
  ok (
      set_model i (record m { send_timer = some (max send_at now) })
        (record s { plan_pool = upsert by_time i c.exec_at s.plan_pool }))

-- The locked part of `DoUpdateCandidate`: takes the messages, and applies the resumption.
unfoldable pub take_messages : ModelData → Outcome (Option ExecutionCandidate × ModelData)
take_messages m =
    if m.link.resume_candidate_update
    then check m.rejecting_candidates >> ok (m.link.new_candidate, resumed)
    else ok (m.link.new_candidate, taken)
  where
    resumed : ModelData
    resumed = record m {
      link = record m.link { new_candidate = none; resume_candidate_update = false };
      rejecting_candidates = false;
    }

    taken : ModelData
    taken = record m { link = record m.link { new_candidate = none } }

-- The rest of `DoUpdateCandidate`: nothing new, or a candidate of the time before the grant was
-- picked up, is dropped.
unfoldable pub apply_candidate :
    ℕ → ℕ → Option ExecutionCandidate → ModelData → RankThread → Outcome RankThread
unfolding setup_active_plan set_model
apply_candidate now i none m s = ok (set_model i m s)
apply_candidate now i (some c) m s =
    if m.rejecting_candidates
    then ok (set_model i m s)
    else setup_active_plan now i (record m { candidate = some c }) s

-- `DoUpdateCandidate`.
unfoldable pub do_update_candidate : ℕ → ℕ → ModelData → RankThread → Outcome RankThread
unfolding take_messages apply_candidate
do_update_candidate now i m s = do t ← take_messages m; apply_candidate now i t.0 t.1 s

-- `UpdateGpu`, for a GPU that is in `gpus_`.
unfoldable pub update_gpu : GpuContext → ℕ → RankThread → RankThread
unfolding set_gpu
update_gpu g free_at s =
    let send_time = free_at - s.config.ctrl_latency - s.config.data_latency in
    record s {
      gpus = set_gpu (record g { free_at = free_at; free_timer = some send_time }) s.gpus;
      gpu_availability_pool = upsert by_time g.gpu_id free_at s.gpu_availability_pool;
    }

-- `DoUpdateGpuCommand`.
unfoldable pub do_update_gpu_command : UpdateGpuCommand → RankThread → Outcome RankThread
unfolding find_gpu update_gpu
do_update_gpu_command c s = do
  g ← or_fault (find_gpu c.gpu_id s.gpus) out_of_range
  ok (update_gpu g c.free_at s)

-- The loop of `ExecuteCommand` over the queue's contents.
unfoldable pub run_commands : List UpdateGpuCommand → RankThread → Outcome RankThread
unfolding do_update_gpu_command
run_commands [] s = ok s
run_commands (c ∷ cs) s = do_update_gpu_command c s >>= run_commands cs

-- `ExecuteCommand`, on the model at an index.
unfoldable pub execute_command : ℕ → ModelData → RankThread → Outcome RankThread
unfolding run_commands set_model
execute_command i m s =
    if s.stop_flag
    then ok s
    else run_commands m.link.commands
        (set_model i (record m { link = record m.link { commands = [] } }) s)

-- `ModelThread::PostGrantedGpu`.
unfoldable pub post_granted_gpu : GrantedGpuMessage → Link → Outcome Link
post_granted_gpu msg l = do
  check (not (is_some l.granted_gpu))
  ok (record l { granted_gpu = some msg })

-- What a grant leaves in the model's data: no candidate, and none accepted until the model thread
-- has picked the GPU up.
unfoldable pub grant_model : GrantedGpuMessage → ModelData → Outcome ModelData
unfolding post_granted_gpu
grant_model msg m = do
  l ← post_granted_gpu msg m.link
  ok (record m { link = l; candidate = none; rejecting_candidates = true })

-- `GrantGpuToModel`.
unfoldable pub grant_gpu_to_model : ℕ → ModelData → GpuContext → RankThread → Outcome RankThread
unfolding grant_model update_gpu set_model
grant_gpu_to_model i m g s = do
  m' ←
      grant_model
        (record { gpu_id = g.gpu_id; plan_id = s.next_plan_id; debug_free_at = g.free_at }) m
  let s' = update_gpu g time_max (record s { next_plan_id = s.next_plan_id + 1 })
  ok (set_model i m' (record s' { plan_pool = remove i s'.plan_pool }))

-- The end of `OnPlanTimer`: the GPU that is free first, if it is free in time.
unfoldable pub assign_gpu : ℕ → ModelData → ExecutionCandidate → RankThread → Outcome RankThread
unfolding grant_gpu_to_model find_gpu
assign_gpu i m c s = do
  top ← get_by_rank 0 s.gpu_availability_pool
  let s' = record s { gpu_availability_pool = top.2 }
  g ← or_fault (find_gpu top.0 s.gpus) out_of_range
  if ltb c.exec_at g.free_at then ok s' else grant_gpu_to_model i m g s'

-- `OnPlanTimer` once the candidate is known.
unfoldable pub try_plan :
    ℕ → ℕ → ModelData → Option ExecutionCandidate → RankThread → Outcome RankThread
unfolding assign_gpu
try_plan now i m none s = ok s
try_plan now i m (some c) s =
    if ltb c.invalid_after (now + s.config.data_latency + s.config.ctrl_latency)
    then ok s
    else check (size s.gpu_availability_pool == length s.gpus)
      >> (if size s.gpu_availability_pool == 0 then ok s else assign_gpu i m c s)

-- `OnPlanTimer`.
unfoldable pub on_plan_timer : ℕ → ℕ → RankThread → Outcome RankThread
unfolding try_plan model_at
on_plan_timer now i s =
    if s.stop_flag then ok s else (model_at i s >>= λ m. try_plan now i m m.candidate s)

-- The first loop of `OnGpuTimer`, on fuel: removes the candidates at the top that are not valid for
-- the GPU any more.
unfoldable pub remove_invalid : ℕ → GpuContext → RankThread → Outcome RankThread
unfolding model_at
remove_invalid zero g s = ok s
remove_invalid (suc fuel) g s = elim (size s.plan_pool == 0) [
  | true ↦ ok s
  | false ↦ do
    top ← get_by_rank 0 s.plan_pool
    m ← model_at top.0 s
    c ← or_fault m.candidate check_failed
    let s' = record s { plan_pool = top.2 }
    let next = remove_invalid fuel g (record s { plan_pool = remove top.0 top.2 })
    if ltb c.invalid_after g.free_at then next else ok s'
]

-- The end of `OnGpuTimer`: the top candidate, if its time has come by when the GPU is free.
unfoldable pub grant_top : GpuContext → RankThread → Outcome RankThread
unfolding model_at grant_gpu_to_model
grant_top g s = elim (size s.plan_pool == 0) [
  | true ↦ ok s
  | false ↦ do
    top ← get_by_rank 0 s.plan_pool
    let s' = record s { plan_pool = top.2 }
    m ← model_at top.0 s
    c ← or_fault m.candidate check_failed
    if ltb g.free_at c.exec_at then ok s' else grant_gpu_to_model top.0 m g s'
]

-- `OnGpuTimer`, on the context that the timer's callback holds.
unfoldable pub on_gpu_timer : GpuContext → RankThread → Outcome RankThread
unfolding remove_invalid grant_top
on_gpu_timer g s =
    if s.stop_flag then ok s else (remove_invalid (size s.plan_pool + 1) g s >>= grant_top g)

-- One model's turn of `Poll`.
unfoldable pub poll_model : ℕ → ℕ → RankThread → Outcome RankThread
unfolding execute_command do_update_candidate model_at
poll_model now i s = elim (get_elem? s.model_threads i) [
  | none ↦ ok s
  | some none ↦ ok s
  | some (some m) ↦ do
    s' ← execute_command i m s
    m' ← model_at i s'
    do_update_candidate now i m' s'
]

unfoldable pub poll_from : ℕ → ℕ → ℕ → RankThread → Outcome RankThread
unfolding poll_model
poll_from now zero i s = ok s
poll_from now (suc n) i s = poll_model now i s >>= poll_from now n (i + 1)

-- `Poll`.
unfoldable pub poll : ℕ → RankThread → Outcome RankThread
unfolding poll_from
poll now s = if s.stop_flag then ok s else poll_from now (length s.model_threads) 0 s
