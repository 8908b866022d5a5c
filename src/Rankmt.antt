-- ===== src/Rankmt.antt =====
-- src/nexus/dispatcher/rankmt/: the multi-threaded rank scheduler, and its common.h and common.cpp.
pub mod RankThread
pub mod ModelThread
pub mod Handover
pub mod Protocol
pub mod Scheduler
mod Tests
use nexuslb.Prelude.{ℕ, ◌^◌, ◌-◌, List, Option, Bool}

-- `TimePoint::max()`. `TimePoint::min()` is 0, and the epoch is half way.
abbrev pub time_max : ℕ
time_max = 2 ^ 64 - 1

abbrev pub epoch : ℕ
epoch = 2 ^ 63

-- The latencies of RankmtConfig, in nanoseconds.
pub record Config : Type 0 where
  pub ctrl_latency : ℕ
  pub data_latency : ℕ
  pub resp_latency : ℕ

pub record ExecutionCandidate : Type 0 where
  pub exec_at : ℕ
  pub invalid_after : ℕ

-- RankThread -> ModelThread.
pub record GrantedGpuMessage : Type 0 where
  pub gpu_id : ℕ
  pub plan_id : ℕ
  pub debug_free_at : ℕ

-- ModelThread -> RankThread.
pub record UpdateGpuCommand : Type 0 where
  pub gpu_id : ℕ
  pub free_at : ℕ

-- What the rank thread shares with one model thread: `rank_msg_` of the model thread, its command
-- queue, and `model_msg` of PerModelThreadData.
pub record Link : Type 0 where
  pub granted_gpu : Option GrantedGpuMessage
  pub commands : List UpdateGpuCommand
  pub new_candidate : Option ExecutionCandidate
  pub resume_candidate_update : Bool
