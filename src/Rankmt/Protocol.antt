-- ===== src/Rankmt/Protocol.antt =====
-- The rank thread and the model threads of src/nexus/dispatcher/rankmt/ side by side. An event is
-- what a thread does between two locks: a handler of the rank thread, or one of the stretches of a
-- model thread's `Poll`. Each model thread may stand in the middle of its `Poll` while the rank
-- thread goes on. An event whose thread is not at that point, or that has nothing to act on, does
-- not happen. What a thread posts to the rank thread happens when its callback runs, whatever the rank
-- thread knows by then. Candidates and finish times are any. `Stop` and the removal of backends are
-- left out.
pub mod Turns
pub mod ModelSteps
pub mod Updates
pub mod Timers
pub mod Additions
pub mod Safe
mod Tests
use nexuslb.Prelude.{
  ℕ, ◌+◌, Bool, true, false, not, ◌&&◌, ◌||◌, Option, none, some, List, [], ◌∷◌, ◌++◌, ◌==◌, ltb,
  contains, is_some, if◌then◌else◌, get_elem?, Outcome, ok, fault, ◌>>=◌,
}
use nexuslb.Splay.Tree.{leaf}
use nexuslb.Rankmt.{Config, ExecutionCandidate, GrantedGpuMessage, UpdateGpuCommand}
use nexuslb.Rankmt.RankThread.State.{GpuContext, ModelData, RankThread, find_gpu, set_model}
use nexuslb.Rankmt.RankThread.Handlers.{
  execute_command, do_update_candidate, on_plan_timer, on_gpu_timer, post_execution_candidate,
  post_resume_candidate_update,
}
use nexuslb.Rankmt.RankThread.Control.{add_backend, add_model_thread, find_backend, max_models}

-- Where a model thread stands in `Poll`: outside, with the message it has taken, with the command
-- queued, and with the resumption posted.
pub data Phase : Type 0 where
  idle commanded resumed : Phase
  holding : GrantedGpuMessage → Phase

pub record System : Type 0 where
  pub rank : RankThread
  pub phase : ℕ → Phase

-- The rank thread's constructor.
unfoldable pub new_rank_thread : Config → RankThread
new_rank_thread config = record {
  config = config;
  stop_flag = false;
  next_plan_id = 1;
  backends = [];
  gpus = [];
  model_threads = [];
  gpu_availability_pool = record { root = leaf; map = [] };
  plan_pool = record { root = leaf; map = [] };
}

-- The locked part of a model thread's `Poll`: the message is taken out of the link.
unfoldable pub take_granted : ℕ → ModelData → RankThread → RankThread
unfolding set_model
take_granted i m s = set_model i (record m { link = record m.link { granted_gpu = none } }) s

-- The command of `Poll` for the GPU that was granted.
unfoldable pub enqueue_command : ℕ → UpdateGpuCommand → ModelData → RankThread → RankThread
unfolding set_model
enqueue_command i c m s =
    set_model i (record m { link = record m.link { commands = m.link.commands ++ c ∷ [] } }) s

pub data Event : Type 0 where
  backend_added : ℕ → List ℕ → Event
  model_added : ℕ → Event
  commands_run : ℕ → Event
  candidate_updated : ℕ → ℕ → Event
  plan_timer_fired : ℕ → ℕ → Event
  gpu_timer_fired : ℕ → Event
  candidate_posted : ℕ → ExecutionCandidate → Event
  grant_taken : ℕ → Event
  command_queued : ℕ → ℕ → Event
  resume_posted : ℕ → Event

abbrev pub at_rest : Phase → Bool
at_rest idle = true
at_rest commanded = false
at_rest resumed = true
at_rest (holding msg) = false

abbrev pub move : ℕ → Phase → (ℕ → Phase) → ℕ → Phase
move i p phase j = if i == j then p else phase j

-- The ids are distinct and none is the id of a GPU.
abbrev pub all_new : List ℕ → List GpuContext → Bool
all_new [] gs = true
all_new (id ∷ ids) gs = not (contains id ids) && not (is_some (find_gpu id gs)) && all_new ids gs

abbrev pub with_rank : System → Outcome RankThread → Outcome System
with_rank w o = o >>= λ s. ok (record w { rank = s })

-- `PostExecutionCandidate` by a model thread, outside of `Poll` or at its end.
abbrev pub post_candidate : ℕ → ExecutionCandidate → Phase → System → Outcome System
post_candidate i c p w =
    if at_rest p
    then (post_execution_candidate i c w.rank >>= λ s.
        ok (record { rank = s; phase = move i idle w.phase }))
    else ok w

abbrev pub take_message : ℕ → ModelData → Option GrantedGpuMessage → System → Outcome System
take_message i m none w = ok w
take_message i m (some msg) w =
    ok (record { rank = take_granted i m w.rank; phase = move i (holding msg) w.phase })

abbrev pub take : ℕ → ModelData → Phase → System → Outcome System
take i m idle w = take_message i m m.link.granted_gpu w
take i m commanded w = ok w
take i m resumed w = ok w
take i m (holding msg) w = ok w

abbrev pub queue_command : ℕ → ℕ → ModelData → Phase → System → Outcome System
queue_command i finish_at m idle w = ok w
queue_command i finish_at m commanded w = ok w
queue_command i finish_at m resumed w = ok w
queue_command i finish_at m (holding msg) w = ok (record {
  rank = enqueue_command i (record { gpu_id = msg.gpu_id; free_at = finish_at }) m w.rank;
  phase = move i commanded w.phase;
})

abbrev pub post_resume : ℕ → Phase → System → Outcome System
post_resume i idle w = ok w
post_resume i resumed w = ok w
post_resume i (holding msg) w = ok w
post_resume i commanded w = post_resume_candidate_update i w.rank >>= λ s.
    ok (record { rank = s; phase = move i resumed w.phase })

-- The new model's thread starts outside of `Poll`.
abbrev pub add_model : ℕ → Option (Option ModelData) → System → Outcome System
add_model i (some (some m)) w = with_rank w (add_model_thread i w.rank)
add_model i (some none) w =
    add_model_thread i w.rank >>= λ s. ok (record { rank = s; phase = move i idle w.phase })
add_model i none w =
    add_model_thread i w.rank >>= λ s. ok (record { rank = s; phase = move i idle w.phase })

abbrev pub fire : Option GpuContext → System → Outcome System
fire none w = ok w
fire (some g) w = with_rank w (on_gpu_timer g w.rank)

-- An event on the data of a model, if the model is there.
abbrev pub on_model :
    Option (Option ModelData) → (ModelData → Outcome System) → System → Outcome System
on_model none f w = ok w
on_model (some none) f w = ok w
on_model (some (some m)) f w = f m

abbrev pub model_of : ℕ → System → Option (Option ModelData)
model_of i w = get_elem? w.rank.model_threads i

abbrev pub act : Event → System → Outcome System
act (backend_added id ids) w = with_rank w (add_backend id ids w.rank)
act (model_added i) w = add_model i (model_of i w) w
act (commands_run i) w = on_model (model_of i w) (λ m. with_rank w (execute_command i m w.rank)) w
act (candidate_updated now i) w =
    on_model (model_of i w) (λ m. with_rank w (do_update_candidate now i m w.rank)) w
act (plan_timer_fired now i) w =
    on_model (model_of i w) (λ m. with_rank w (on_plan_timer now i w.rank)) w
act (gpu_timer_fired id) w = fire (find_gpu id w.rank.gpus) w
act (candidate_posted i c) w = post_candidate i c (w.phase i) w
act (grant_taken i) w = on_model (model_of i w) (λ m. take i m (w.phase i) w) w
act (command_queued i finish_at) w =
    on_model (model_of i w) (λ m. queue_command i finish_at m (w.phase i) w) w
act (resume_posted i) w = on_model (model_of i w) (λ m. post_resume i (w.phase i) w) w

abbrev pub is_there : Option (Option ModelData) → Bool
is_there none = false
is_there (some none) = false
is_there (some (some m)) = true

-- What the threads around these see to: the GPUs of a new backend have new ids, there are no more
-- models than the capacity, and a model thread posts a candidate only once the rank thread has run
-- the callback of `PostAddModelThread`.
abbrev pub allowed : Event → System → Bool
allowed (backend_added id ids) w = all_new ids w.rank.gpus
allowed (model_added i) w = ltb i max_models
allowed (candidate_posted i c) w = is_there (model_of i w)
allowed (commands_run i) w = true
allowed (candidate_updated now i) w = true
allowed (plan_timer_fired now i) w = true
allowed (gpu_timer_fired id) w = true
allowed (grant_taken i) w = true
allowed (command_queued i finish_at) w = true
allowed (resume_posted i) w = true

-- A run of the threads in the order of the events.
abbrev pub run : List Event → System → Outcome System
run [] w = ok w
run (e ∷ es) w = act e w >>= run es

abbrev pub if_ok : (System → Bool) → Outcome System → Bool
if_ok p (ok w) = p w
if_ok p (fault f) = true

-- Each event of a run is allowed at its point, as far as the run goes.
abbrev pub all_allowed : List Event → System → Bool
all_allowed [] w = true
all_allowed (e ∷ es) w = allowed e w && if_ok (all_allowed es) (act e w)

unfoldable pub start : Config → System
unfolding new_rank_thread
start config = record { rank = new_rank_thread config; phase = λ i. idle }
