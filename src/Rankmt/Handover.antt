-- ===== src/Rankmt/Handover.antt =====
-- A GPU on its way from the rank thread's `OnPlanTimer` to the model thread's `DoGrantedGpuMessage`
-- (src/nexus/dispatcher/rankmt/).
use nexuslb.Prelude.{ok, ℕ, ◌+◌, ◌≤◌, ◌<◌, ◌≡◌, ◌⊎◌, true, some, get_elem?}
use nexuslb.Profile.{ExecProfile, IsTable}
use nexuslb.Rankmt.{ExecutionCandidate, GrantedGpuMessage}
use nexuslb.Rankmt.ModelThread.{ModelThread, Reading, Granted, do_granted_gpu_message}
use nexuslb.Rankmt.ModelThread.Candidate.{IsExecTable}
use nexuslb.Rankmt.ModelThread.Grant.{Keeps, Ready}
use nexuslb.Rankmt.RankThread.State.{GpuContext, find_gpu, ModelData, RankThread}
use nexuslb.Rankmt.RankThread.Handlers.{setup_active_plan}
use nexuslb.Rankmt.RankThread.PlanTimer.{NoneFree, Plans}

-- The plan timer of a model fires: SetupActivePlan has set it for the candidate that the model still
-- has, and its time has come.
pub record Fires (fired i : ℕ) (m : ModelData) (s : RankThread) : Type 0 where
  pub set_at : ℕ
  pub at : ℕ
  pub old : ModelData
  pub planned : ModelData
  pub before : RankThread
  pub after : RankThread
  pub set_up : setup_active_plan set_at i old before ≡ ok after
  pub there : get_elem? after.model_threads i ≡ some (some planned)
  pub same_config : before.config ≡ s.config
  pub same_candidate : m.candidate ≡ planned.candidate
  pub same_timer : m.send_timer ≡ planned.send_timer
  pub timed : m.send_timer ≡ some at
  pub come : at ≤ fired

module _ (limit : ℕ) (lat elat : ℕ → ℕ) (p : ExecProfile) (table : IsTable limit lat p)
    (execs : IsExecTable limit lat elat p) where
  -- No GPU is granted: after a stop, too late for the candidate, or if none is free by its start.
  abbrev pub Ungranted : ℕ → ExecutionCandidate → RankThread → RankThread → Type 0
  Ungranted fired c s s' =
      (s'.model_threads ≡ s.model_threads)
      × ((s.stop_flag ≡ true)
          ⊎ (c.invalid_after < fired + s.config.data_latency + s.config.ctrl_latency)
          ⊎ NoneFree s c)

  -- The message in the model's link, and the model thread's answer to it.
  abbrev pub Answered : ℕ → ℕ → Reading → Reading → ModelThread → RankThread → RankThread → Type 0
  Answered i now first again t s s' =
      (n : ModelData) × (msg : GrantedGpuMessage) × (h : GpuContext) × (g : Granted) × (get_elem?
          s'.model_threads i
        ≡ some (some n))
      × (n.link.granted_gpu ≡ some msg)
      × (msg.plan_id ≡ s.next_plan_id)
      × (find_gpu msg.gpu_id s.gpus ≡ some h)
      × (msg.debug_free_at ≡ h.free_at)
      × (do_granted_gpu_message now first again msg t ≡ ok g)
      × Keeps limit lat elat p table execs now msg g g.plan
      × Ready limit lat elat p table execs g.thread
