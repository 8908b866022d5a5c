-- ===== src/Rankmt/ModelThread/TargetSize.antt =====
-- `UpdateTargetBatchSize` of model_thread.cpp. `milli`, `micro` and `nano` are the doubles 1e-3, 1e-6
-- and 1e-9; the estimator has the multipliers 1.0 and 0.0.
use nexuslb.Prelude.{ℕ, Option, none, some, Outcome}
use nexuslb.ModelProfile.{Doubles, ModelProfile, get_max_batch_with_full_budget}
use nexuslb.BatchSize.{estimate}
use nexuslb.Rankmt.{Config}

module _ {D : Type 0} (d : Doubles D) (milli micro nano : D) where
  -- The budget in seconds, once there is a rate.
  unfoldable pub time_budget_sec : ℕ → Config → D
  time_budget_sec latency_sla_ms config =
      d.minus
        (d.minus
          (d.minus (d.times (d.of_nat latency_sla_ms) milli)
            (d.times (d.of_nat config.ctrl_latency) nano))
          (d.times (d.of_nat config.data_latency) nano))
        (d.times (d.of_nat config.resp_latency) nano)

  -- `UpdateTargetBatchSize`, on the rate's mean and deviation.
  unfoldable pub target_batch_size : ℕ → Config → ModelProfile D → Option (D × D) → Outcome ℕ
  unfolding time_budget_sec
  target_batch_size latency_sla_ms config p (some (avg, std)) =
      estimate d micro (d.of_nat 1) (d.of_nat 0) p (time_budget_sec latency_sla_ms config) avg std
  target_batch_size latency_sla_ms config p none =
      get_max_batch_with_full_budget d (d.over (d.of_nat latency_sla_ms) (d.of_nat 2)) p
