-- ===== src/Profile.antt =====
-- What the schedulers use of a ModelProfile (src/nexus/common/model_db.h): latencies in
-- nanoseconds. `forward_ns n` is `static_cast<long>(profile.GetForwardLatency(n) * 1e3)`, with the
-- process aborted outside of the profile's table. `exec_ns n` is `EstimateExecElapse(profile, n)` of
-- rankmt/common.cpp, which rounds the sum of the three latencies.
use nexuslb.Prelude.{ℕ, ◌≤◌, ◌<◌, ◌≡◌, Outcome, ok}

pub record ExecProfile : Type 0 where
  pub forward_ns : ℕ → Outcome ℕ
  pub preprocess_ns : ℕ
  pub postprocess_ns : ℕ
  pub exec_ns : ℕ → Outcome ℕ

-- A profile whose table goes up to `limit`, with latencies that do not fall as batches grow.
pub record IsTable (limit : ℕ) (lat : ℕ → ℕ) (p : ExecProfile) : Type 0 where
  pub covered : (n : ℕ) → 0 < n → n ≤ limit → p.forward_ns n ≡ ok (lat n)
  pub monotone : (m n : ℕ) → m ≤ n → n ≤ limit → lat m ≤ lat n
