-- ===== src/Rankmt/ModelThread/Control.antt =====
-- The control plane of ModelThread (model_thread.cpp): Stop and the Post* functions for frontends
-- and backends, run on the thread's executor.
use nexuslb.Prelude.{
  ℕ, true, false, Option, none, some, List, [], ◌∷◌, ◌==◌, contains, if◌then◌else◌, Outcome, ok,
  fault, check_failed, log_fatal, or_fault, check, not, ◌>>=◌, ◌>>◌,
}
use nexuslb.Profile.{ExecProfile}
use nexuslb.BatchPolicy.{set_profile}
use nexuslb.Rankmt.{Config, epoch}
use nexuslb.Rankmt.ModelThread.{ModelThread}

-- The callback of `Stop`. The invalidate timer is not cancelled.
unfoldable pub stop : ModelThread → ModelThread
stop t = record t { stop_flag = true; drop_timer = none }

-- `PostAddBackend` is not supported.
unfoldable pub add_backend : ℕ → ModelThread → Outcome ModelThread
add_backend id t = fault log_fatal

-- `PostAddFrontend`: a frontend that is there is replaced.
unfoldable pub add_frontend : ℕ → ModelThread → ModelThread
add_frontend id t = if contains id t.frontends then t else record t { frontends = id ∷ t.frontends }

unfoldable pub erase_number : ℕ → List ℕ → List ℕ
erase_number id [] = []
erase_number id (j ∷ js) = if j == id then js else j ∷ erase_number id js

-- `PostRemoveFrontend`.
unfoldable pub remove_frontend : ℕ → ModelThread → ModelThread
unfolding erase_number
remove_frontend id t = record t { frontends = erase_number id t.frontends }

unfoldable pub find_backend : ℕ → List (ℕ × List ℕ) → Option (List ℕ)
find_backend id [] = none
find_backend id ((j, gpus) ∷ bs) = if j == id then some gpus else find_backend id bs

unfoldable pub erase_backend : ℕ → List (ℕ × List ℕ) → List (ℕ × List ℕ)
erase_backend id [] = []
erase_backend id ((j, gpus) ∷ bs) = if j == id then bs else (j, gpus) ∷ erase_backend id bs

-- The loop of `PostRemoveBackend` over the backend's GPUs.
unfoldable pub erase_gpus : List ℕ → List ℕ → List ℕ
unfolding erase_number
erase_gpus [] gpus = gpus
erase_gpus (id ∷ ids) gpus = erase_gpus ids (erase_number id gpus)

-- `PostRemoveBackend`.
unfoldable pub remove_backend : ℕ → ModelThread → Outcome ModelThread
unfolding find_backend erase_backend erase_gpus
remove_backend id t = do
  ids ← or_fault (find_backend id t.backends) check_failed
  ok (record t { gpus = erase_gpus ids t.gpus; backends = erase_backend id t.backends })

-- The constructor's loops: the GPUs of all backends, no one twice.
unfoldable pub collect_gpus : List ℕ → List ℕ → Outcome (List ℕ)
collect_gpus [] gpus = ok gpus
collect_gpus (id ∷ ids) gpus = check (not (contains id gpus)) >> collect_gpus ids (id ∷ gpus)

unfoldable pub collect_backends : List (ℕ × List ℕ) → List ℕ → Outcome (List ℕ)
unfolding collect_gpus
collect_backends [] gpus = ok gpus
collect_backends ((j, ids) ∷ bs) gpus = collect_gpus ids gpus >>= collect_backends bs

-- The constructor, with the profile merged from those of the GPUs and the first target batch size.
unfoldable pub new_model_thread :
    Config → ℕ → ℕ → ExecProfile → ℕ → List ℕ → List (ℕ × List ℕ) → Outcome ModelThread
unfolding collect_backends set_profile
new_model_thread config latency_sla_ms model_index profile target frontends backends = do
  gpus ← collect_backends backends []
  ok (record {
    config = config;
    latency_sla_ms = latency_sla_ms;
    model_index = model_index;
    profile = profile;
    stop_flag = false;
    frontends = frontends;
    backends = backends;
    gpus = gpus;
    batch_policy =
        set_profile profile (record {
          queries = [];
          profile = none;
          last_exec_time = epoch;
          inputs = [];
          drops = [];
        });
    target_batch_size = target;
    candidate = record { exec_at = epoch; invalid_after = epoch };
    drop_timer = none;
    invalidate_timer = none;
  })
