-- ===== src/Rankmt/RankThread/Tests.antt =====
-- The rank thread on one model and two GPUs.
use nexuslb.Prelude.{
  contains, fault, out_of_range, ℕ, zero, ◌≡◌, refl, sym, subst, ◌∙◌, suc, true, false, none, some,
  [], ◌∷◌, ◌==◌, ◌||◌, get_elem?, ok, arith,
}
use nexuslb.Splay.Tree.{leaf}
use nexuslb.Splay.Map.{SplayMap, size, upsert}
use nexuslb.Splay.Refinement.{IsValid, upsert_lem}
use nexuslb.Splay.Keys.{contains-upsert}
use nexuslb.Rankmt.{Config, ExecutionCandidate}
use nexuslb.Rankmt.RankThread.State.{GpuContext, ModelData, RankThread, by_time}
use nexuslb.Rankmt.RankThread.Handlers.{
  do_update_gpu_command, grant_gpu_to_model, on_gpu_timer, on_plan_timer,
}
use nexuslb.Rankmt.RankThread.Control.{find_backend, add_backend, remove_backend}
use nexuslb.Rankmt.RankThread.Plans.{Has, InTurn, IsPlanned}
use nexuslb.Rankmt.RankThread.Grants.{Taken, grant_gpu_to_model-Taken}
use nexuslb.Rankmt.RankThread.GpuTimer.{Answers, on_gpu_timer-ok}
use nexuslb.Rankmt.RankThread.GpuPool.{IsPooled, add-Agrees}
use nexuslb.Rankmt.RankThread.GpuChanges.{Fresh, with_gpus, remove_backend-add_backend}
use nexuslb.Rankmt.RankThread.Removal.{remove_backend-throws}
use nexuslb.Rankmt.RankThread.Resumption.{resume_and_poll, old_candidate-Has}
use nexuslb.Rankmt.RankThread.PlanTimer.{Plans, on_plan_timer-ok}

abbrev pub latencies : Config
latencies = record { ctrl_latency = 50; data_latency = 50; resp_latency = 100 }

abbrev no_entries : SplayMap ℕ
no_entries = record { root = leaf; map = [] }

no_entries-IsValid : IsValid by_time no_entries
no_entries-IsValid = record {
  distinct = tt;
  sorted = tt;
  sized = tt;
  keyed = λ k. refl;
  map_distinct = tt;
  counted = refl;
}

abbrev pub candidate : ExecutionCandidate
candidate = record { exec_at = 5000; invalid_after = 7000 }

abbrev pub planned_model : ModelData
planned_model = record {
  link = record {
    granted_gpu = none;
    commands = [];
    new_candidate = none;
    resume_candidate_update = false;
  };
  send_timer = some 4900;
  rejecting_candidates = false;
  candidate = some candidate;
}

abbrev gpu : GpuContext
gpu = record { gpu_id = 3; free_at = 6000; free_timer = some 5900 }

abbrev pub one_plan : RankThread
one_plan = record {
  config = latencies;
  stop_flag = false;
  next_plan_id = 11;
  backends = (0, 3 ∷ []) ∷ [];
  gpus = gpu ∷ [];
  model_threads = some planned_model ∷ [];
  gpu_availability_pool = upsert by_time 3 6000 no_entries;
  plan_pool = upsert by_time 0 5000 no_entries;
}

one_plan-IsPlanned : IsPlanned one_plan
one_plan-IsPlanned = record {
  valid = (upsert_lem by_time 0 5000 no_entries no_entries-IsValid).1;
  backed = λ i k. (
    planned_model,
    candidate,
    (only i (sym (contains-upsert by_time 0 i 5000 no_entries no_entries-IsValid) ∙ k), refl),
  );
  in_turn = λ i m e. silent i m e;
}
  where
    only :
        (i : ℕ)
        → (0 == i || false) ≡ true
        → get_elem? (some planned_model ∷ []) i ≡ some (some planned_model)
    only zero e = refl
    only (suc i) e = ground arith

    silent :
        (i : ℕ) (m : ModelData)
        → get_elem? (some planned_model ∷ []) i ≡ some (some m)
        → (m.rejecting_candidates ≡ true → m.candidate ≡ none)
          × (m.rejecting_candidates ≡ false → m.link.granted_gpu ≡ none)
    silent zero m e =
        let same : planned_model ≡ m = cc in subst InTurn same ((λ r. absurd (cc)), (λ r. refl))
    silent (suc i) m e = absurd (cc)

on_gpu_timer_example :
    (s' : RankThread) × (on_gpu_timer gpu one_plan ≡ ok s') × IsPlanned s' × Answers one_plan gpu s'
on_gpu_timer_example = on_gpu_timer-ok gpu one_plan one_plan-IsPlanned

abbrev early_gpu : GpuContext
early_gpu = record { gpu_id = 4; free_at = 4000; free_timer = some 3900 }

abbrev pub two_gpus : RankThread
two_gpus = record one_plan {
  gpus = early_gpu ∷ gpu ∷ [];
  gpu_availability_pool = upsert by_time 4 4000 (upsert by_time 3 6000 no_entries);
}

pub two_gpus-IsPlanned : IsPlanned two_gpus
two_gpus-IsPlanned = record {
  valid = one_plan-IsPlanned.valid;
  backed = one_plan-IsPlanned.backed;
  in_turn = one_plan-IsPlanned.in_turn;
}

pub two_gpus-IsPooled : IsPooled two_gpus
unfolding size
two_gpus-IsPooled =
    add-Agrees early_gpu (gpu ∷ []) (upsert by_time 3 6000 no_entries)
      (add-Agrees gpu [] no_entries (no_entries-IsValid, tt, (λ id. refl), refl) refl) refl

grant_gpu_to_model_example :
    (s' : RankThread) × (grant_gpu_to_model 0 planned_model gpu two_gpus ≡ ok s')
    × IsPlanned s'
    × IsPooled s'
    × Taken two_gpus gpu 0 s'
grant_gpu_to_model_example =
    grant_gpu_to_model-Taken 0 planned_model candidate gpu two_gpus two_gpus-IsPlanned
      two_gpus-IsPooled (refl, refl) refl

on_plan_timer_example :
    (s' : RankThread) × (on_plan_timer 4800 0 two_gpus ≡ ok s')
    × IsPlanned s'
    × IsPooled s'
    × Plans 4800 two_gpus 0 planned_model s'
on_plan_timer_example =
    on_plan_timer-ok 4800 0 planned_model two_gpus two_gpus-IsPlanned two_gpus-IsPooled refl

no_backend : find_backend 1 two_gpus.backends ≡ none
unfolding find_backend
no_backend = refl

new_ids-Fresh : Fresh (8 ∷ 9 ∷ []) (early_gpu ∷ gpu ∷ [])
new_ids-Fresh id c = ground arith

remove_backend-add_backend_example :
    (s1 : RankThread) × (s2 : RankThread) × (add_backend 1 (8 ∷ 9 ∷ []) two_gpus ≡ ok s1)
    × (remove_backend 1 s1 ≡ ok s2)
    × IsPooled s1
    × (s1.gpus ≡ with_gpus (8 ∷ 9 ∷ []) (early_gpu ∷ gpu ∷ []))
    × IsPooled s2
    × (s2.gpus ≡ early_gpu ∷ gpu ∷ [])
    × (s2.backends ≡ (0, 3 ∷ []) ∷ [])
remove_backend-add_backend_example =
    remove_backend-add_backend 1 (8 ∷ 9 ∷ []) two_gpus two_gpus-IsPooled no_backend
      (refl, (refl, tt)) new_ids-Fresh

backend_there : find_backend 0 two_gpus.backends ≡ some (3 ∷ [])
unfolding find_backend
backend_there = refl

remove_backend-throws_example :
    (s' : RankThread) × (remove_backend 0 two_gpus ≡ ok s')
    × IsPooled s'
    × (do_update_gpu_command (record { gpu_id = 3; free_at = 9000 }) s' ≡ fault out_of_range)
remove_backend-throws_example =
    remove_backend-throws 0 (3 ∷ []) (record { gpu_id = 3; free_at = 9000 }) two_gpus
      two_gpus-IsPooled backend_there refl

-- A model that has been granted a GPU, and whose thread posted a candidate before it picked it up.
abbrev granted_model : ModelData
granted_model = record {
  link = record {
    granted_gpu = none;
    commands = [];
    new_candidate = some candidate;
    resume_candidate_update = false;
  };
  send_timer = some 4900;
  rejecting_candidates = true;
  candidate = none;
}

abbrev one_grant : RankThread
one_grant = record one_plan { model_threads = some granted_model ∷ []; plan_pool = no_entries }

one_grant-IsPlanned : IsPlanned one_grant
one_grant-IsPlanned = record {
  valid = no_entries-IsValid;
  backed = λ i k. absurd (cc);
  in_turn = λ i m e. silent i m e;
}
  where
    silent :
        (i : ℕ) (m : ModelData)
        → get_elem? (some granted_model ∷ []) i ≡ some (some m)
        → (m.rejecting_candidates ≡ true → m.candidate ≡ none)
          × (m.rejecting_candidates ≡ false → m.link.granted_gpu ≡ none)
    silent zero m e =
        let same : granted_model ≡ m = cc in subst InTurn same ((λ r. refl), (λ r. absurd (cc)))
    silent (suc i) m e = absurd (cc)

old_candidate_example :
    (s' : RankThread) × (resume_and_poll 4800 0 one_grant ≡ ok s')
    × ((m' : ModelData) × Has s'.model_threads 0 m' candidate)
    × (contains 0 s'.plan_pool.map ≡ true)
old_candidate_example =
    old_candidate-Has 4800 0 granted_model candidate one_grant one_grant-IsPlanned refl refl refl
      refl
