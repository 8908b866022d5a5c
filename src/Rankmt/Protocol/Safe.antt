-- ===== src/Rankmt/Protocol/Safe.antt =====
-- Every run of the rank thread and the model threads of src/nexus/dispatcher/rankmt/.
use nexuslb.Prelude.{
  ℕ, Bool, true, ◌&&◌, arith, sym, ◌≡◌, refl, ap, ◌∙◌, Option, none, some, List, [], ◌∷◌, Outcome,
  ok, ◌>>=◌, get_elem?,
}
use nexuslb.Splay.Tree.{leaf}
use nexuslb.Splay.Map.{size}
use nexuslb.Splay.Refinement.{IsValid}
use nexuslb.Rankmt.{Config, ExecutionCandidate}
use nexuslb.Rankmt.RankThread.State.{ModelData, find_gpu, by_time}
use nexuslb.Rankmt.Protocol.{
  allowed, all_allowed, if_ok, is_there, post_candidate, Event, backend_added, model_added,
  commands_run, candidate_updated, plan_timer_fired, gpu_timer_fired, candidate_posted, grant_taken,
  command_queued, resume_posted, System, start, act, run, on_model, model_of,
}
use nexuslb.Rankmt.Protocol.Turns.{IsSafe, Succeeds}
use nexuslb.Rankmt.Protocol.ModelSteps.{
  post_candidate-ok, take-ok, queue_command-ok, post_resume-ok,
}
use nexuslb.Rankmt.Protocol.Updates.{execute_command-ok, do_update_candidate-ok}
use nexuslb.Rankmt.Protocol.Timers.{on_plan_timer-IsSafe, fire-IsSafe}
use nexuslb.Rankmt.Protocol.Additions.{add_backend-IsSafe, add_model-IsSafe}

-- An event of a model that succeeds if the model is there.
on_model-ok :
    (i : ℕ) (w : System) (f : ModelData → Outcome System)
    → IsSafe w
    → ((m : ModelData) → get_elem? w.rank.model_threads i ≡ some (some m) → Succeeds (f m))
    → Succeeds (on_model (model_of i w) f w)
on_model-ok i w f h each = by_model (get_elem? w.rank.model_threads i) refl
  where
    by_model :
        (o : Option (Option ModelData))
        → get_elem? w.rank.model_threads i ≡ o
        → Succeeds (on_model o f w)
    by_model none e = (w, refl, h)
    by_model (some none) e = (w, refl, h)
    by_model (some (some m)) e = each m e

-- A candidate of a model that the rank thread knows.
posted-ok :
    (i : ℕ) (c : ExecutionCandidate) (w : System)
    → IsSafe w
    → (o : Option (Option ModelData)) → get_elem? w.rank.model_threads i ≡ o
    → is_there o ≡ true
    → Succeeds (post_candidate i c (w.phase i) w)
posted-ok i c w h none e q = absurd (cc)
posted-ok i c w h (some none) e q = absurd (cc)
posted-ok i c w h (some (some m)) e q = post_candidate-ok i c m w h e

act-ok : (e : Event) (w : System) → IsSafe w → allowed e w ≡ true → Succeeds (act e w)
act-ok (backend_added id ids) w h q = add_backend-IsSafe id ids w h q
act-ok (model_added i) w h q = add_model-IsSafe i w h (model_of i w) refl q
act-ok (commands_run i) w h q = on_model-ok i w _ h (λ m e. execute_command-ok i m w h e)
act-ok (candidate_updated now i) w h q =
    on_model-ok i w _ h (λ m e. do_update_candidate-ok now i m w h e)
act-ok (plan_timer_fired now i) w h q =
    on_model-ok i w _ h (λ m e. on_plan_timer-IsSafe now i m w h e)
act-ok (gpu_timer_fired id) w h q = fire-IsSafe id w (find_gpu id w.rank.gpus) h refl
act-ok (candidate_posted i c) w h q = posted-ok i c w h (model_of i w) refl q
act-ok (grant_taken i) w h q = on_model-ok i w _ h (λ m e. take-ok i m w h e (w.phase i) refl)
act-ok (command_queued i t) w h q =
    on_model-ok i w _ h (λ m e. queue_command-ok i t m w h e (w.phase i) refl)
act-ok (resume_posted i) w h q =
    on_model-ok i w _ h (λ m e. post_resume-ok i m w h e (w.phase i) refl)

start-IsSafe : (config : Config) → IsSafe (start config)
unfolding start size
start-IsSafe config = record {
  planned = record {
    valid = no_entries;
    backed = λ i k. absurd (cc);
    in_turn = λ i m e. absurd (cc);
  };
  pooled = (no_entries, tt, (λ id. refl), refl);
  owners = λ i m e. absurd (cc);
}
  where
    no_entries : IsValid by_time (record { root = leaf; map = [] })
    no_entries = record {
      distinct = tt;
      sorted = tt;
      sized = tt;
      keyed = λ k. refl;
      map_distinct = tt;
      counted = refl;
    }

run-ok : (es : List Event) (w : System) → IsSafe w → all_allowed es w ≡ true → Succeeds (run es w)
run-ok [] w h q = (w, refl, h)
run-ok (e ∷ es) w h q =
    let first = act-ok e w h (now (allowed e w) (if_ok (all_allowed es) (act e w)) q) in
    let after : all_allowed es first.0 ≡ true =
      sym (ap (if_ok (all_allowed es)) first.1)
      ∙ later (allowed e w) (if_ok (all_allowed es) (act e w)) q in
    let rest = run-ok es first.0 first.2 after in
    (rest.0, ap (λ o. o >>= run es) first.1 ∙ rest.1, rest.2)
  where
    later : (a b : Bool) → (a && b) ≡ true → b ≡ true
    later a b q = ground arith

    now : (a b : Bool) → (a && b) ≡ true → a ≡ true
    now a b q = ground arith

-- Started with no models and backends, the rank thread and the model threads run through any
-- sequence of events: additions of models and of backends, posted candidates, polls, timers, grants,
-- commands and resumptions, in any order that the threads allow, if GPUs come with new ids, model
-- indices are below the capacity, and a candidate is posted only for a model that the rank thread has
-- added. No check of these operations fails, no look-up of a GPU, model or candidate misses, and at the
-- end the plan pool is backed by candidates, pool and GPUs agree, and each model has one token, for
-- known GPUs.
pub run-IsSafe :
    (config : Config) (es : List Event)
    → all_allowed es (start config) ≡ true
    → (w : System) × (run es (start config) ≡ ok w) × IsSafe w
run-IsSafe config es q = run-ok es (start config) (start-IsSafe config) q
