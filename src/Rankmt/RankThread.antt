-- ===== src/Rankmt/RankThread.antt =====
-- src/nexus/dispatcher/rankmt/rank_thread.cpp: the thread that matches batches with GPUs.
-- A pointer to PerModelThreadData is the model's index. The clock is read once in a handler, as
-- `now`. A timer is the time that it is set to, while a callback waits for it.
pub mod State
pub mod Handlers
pub mod Control
pub mod GpuPool
pub mod GpuChanges
pub mod Plans
pub mod PlanTimer
pub mod Removal
pub mod Resumption
pub mod GpuTimer
pub mod Grants
pub mod Tests
