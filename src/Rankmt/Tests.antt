-- ===== src/Rankmt/Tests.antt =====
-- The model thread and the rank thread on one model and two GPUs.
use nexuslb.Prelude.{some, none, ℕ, ◌+◌, false, [], ◌∷◌, ok}
use nexuslb.BatchPolicy.Tests.{forward, four_sizes, waiting}
use nexuslb.Rankmt.{time_max}
use nexuslb.Rankmt.ModelThread.{ModelThread, Reading}
use nexuslb.Splay.Map.{upsert}
use nexuslb.Rankmt.RankThread.State.{ModelData, RankThread, by_time}
use nexuslb.Rankmt.RankThread.Tests.{latencies, candidate, planned_model, two_gpus}

abbrev elapse : ℕ → ℕ
elapse n = forward n + 20

abbrev model : ModelThread
model = record {
  config = latencies;
  latency_sla_ms = 50;
  model_index = 0;
  profile = four_sizes;
  stop_flag = false;
  frontends = 1 ∷ [];
  backends = (0, 3 ∷ 4 ∷ []) ∷ [];
  gpus = 3 ∷ 4 ∷ [];
  batch_policy = waiting;
  target_batch_size = 2;
  candidate = record { exec_at = time_max; invalid_after = 0 };
  drop_timer = none;
  invalidate_timer = none;
}

abbrev first : Reading
first = record { now = 5000; target = ok 2 }

abbrev again : Reading
again = record { now = 5010; target = ok 3 }

-- The model before its timer is set.
abbrev candidate_taken : ModelData
candidate_taken = record planned_model { send_timer = none }

abbrev before_plan : RankThread
before_plan = record two_gpus { model_threads = some candidate_taken ∷ [] }

abbrev after_plan : RankThread
after_plan = record two_gpus { plan_pool = upsert by_time 0 5000 two_gpus.plan_pool }
