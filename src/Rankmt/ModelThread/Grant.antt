-- ===== src/Rankmt/ModelThread/Grant.antt =====
-- `DoGrantedGpuMessage` of model_thread.cpp: the answer to a granted GPU.
use nexuslb.Prelude.{
  ℕ, suc, ◌+◌, ◌≤◌, ◌<◌, ◌≡◌, refl, ap, ◌∙◌, true, Option, none, some, List, [], ◌∷◌, ◌++◌, length,
  contains, All, ok, arith, le→leb,
}
use nexuslb.Profile.{ExecProfile, IsTable}
use nexuslb.BatchPolicy.{Queries}
use nexuslb.BatchPolicy.Feasible.{IsSorted}
use nexuslb.Rankmt.{GrantedGpuMessage, time_max}
use nexuslb.Rankmt.ModelThread.{
  ModelThread, Reply, Reading, BatchPlan, Granted, send_plan, do_granted_gpu_message,
}
use nexuslb.Rankmt.ModelThread.Candidate.{IsExecTable, IsGood, IsReady, update_candidate-ok}

module _ (limit : ℕ) (lat elat : ℕ → ℕ) (p : ExecProfile) (table : IsTable limit lat p)
    (execs : IsExecTable limit lat elat p) where
  -- The plan is for the granted GPU under the granted id, starts when the GPU is free, and is done
  -- by the deadline of each of its queries, up to 2 ns of rounding. The GPU is free again when it
  -- is done. With no plan the GPU is free at once.
  abbrev pub Keeps : ℕ → GrantedGpuMessage → Granted → Option BatchPlan → Type 0
  Keeps now msg g none = g.finish_at ≡ now
  Keeps now msg g (some b) =
      (b.plan_id ≡ msg.plan_id)
      × (b.gpu_id ≡ msg.gpu_id)
      × (msg.debug_free_at ≤ b.exec_time)
      × All (λ q. b.expected_finish_time ≤ q.deadline + 2) b.queries
      × (0 < length b.queries)
      × (g.finish_at ≡ b.expected_finish_time)

  abbrev pub Ready : ModelThread → Type 0
  Ready = IsReady limit lat elat p table execs

  abbrev pub earliest : ℕ → ModelThread → ℕ
  earliest now t = now + t.config.data_latency + t.config.ctrl_latency

  All-later :
      (f d : ℕ) (qs : Queries)
      → f ≤ d + 2
      → All (λ q. d ≤ q.deadline) qs
      → All (λ q. f ≤ q.deadline + 2) qs
  All-later f d [] h a = tt
  All-later f d (q ∷ qs) h a = (omega arith, All-later f d qs h a.1)

  send_plan-ok :
      (now e target : ℕ) (again : Reading) (msg : GrantedGpuMessage) (inputs : Queries)
      (t : ModelThread) (replies : List Reply)
      → Ready t
      → 2 ≤ again.now
      → t.batch_policy.last_exec_time ≤ earliest again.now t
      → again.target ≡ ok target
      → 0 < target
      → length inputs ≤ limit
      → IsSorted inputs
      → IsGood limit lat elat p table execs e inputs t.candidate
      → msg.debug_free_at ≤ t.candidate.exec_at
      → (g : Granted) × (send_plan now again msg inputs t replies ≡ ok g)
        × Keeps now msg g g.plan
        × Ready g.thread
  unfolding send_plan
  send_plan-ok now e target again msg [] t replies r h c sized pos l s good free =
      (record { thread = t; replies = replies; plan = none; finish_at = now }, refl, refl, r)
  send_plan-ok now e target again msg (q ∷ inputs) t replies r h c sized pos l s good free =
      let n = suc (length inputs) in
      let known : t.profile.exec_ns n ≡ ok (elat n) =
        ap (λ f. f.exec_ns n) r.profiled ∙ execs.known n (omega arith) (omega arith) in
      let u =
        update_candidate-ok limit lat elat p table execs again.now again.target target t r h c sized
          pos in
      let plan : BatchPlan = record {
        plan_id = msg.plan_id;
        gpu_id = msg.gpu_id;
        model_index = t.model_index;
        exec_time = t.candidate.exec_at;
        deadline = q.deadline;
        expected_finish_time = t.candidate.exec_at + elat n;
        queries = q ∷ inputs;
      } in
      (
        record {
          thread = u.0;
          replies = replies ++ u.1;
          plan = some plan;
          finish_at = t.candidate.exec_at + elat n;
        },
        rw (known, u.2),
        (
          refl,
          refl,
          free,
          (good.1, All-later (t.candidate.exec_at + elat n) q.deadline inputs good.1 s.0),
          omega arith,
          refl,
        ),
        u.5,
      )

  exec_at_free :
      (free_at : ℕ) (t : ModelThread) (inputs : Queries) (e : ℕ)
      → free_at ≤ e
      → free_at ≤ time_max
      → IsGood limit lat elat p table execs e inputs t.candidate
      → free_at ≤ t.candidate.exec_at
  exec_at_free free_at t [] e h m good = omega arith
  exec_at_free free_at t (q ∷ inputs) e h m good = omega arith

  -- The two calls of UpdateCandidate: the clock goes on between them, and UpdateTargetBatchSize returns
  -- positive sizes.
  pub record Goes (first again : Reading) (t : ModelThread) : Type 0 where
    pub size : ℕ
    pub size_again : ℕ
    pub started : 2 ≤ first.now
    pub in_order : first.now ≤ again.now
    pub not_back : t.batch_policy.last_exec_time ≤ earliest first.now t
    pub sized : first.target ≡ ok size
    pub positive : 0 < size
    pub sized_again : again.target ≡ ok size_again
    pub positive_again : 0 < size_again

  -- On a grant of one of its GPUs, which is free by the time when a batch can start, the model
  -- thread answers with a plan that keeps every deadline, or with the GPU if no query is left.
  pub do_granted_gpu_message-ok :
      (now : ℕ) (first again : Reading) (msg : GrantedGpuMessage) (t : ModelThread)
      → Ready t
      → Goes first again t
      → contains msg.gpu_id t.gpus ≡ true
      → msg.debug_free_at ≤ earliest first.now t
      → msg.debug_free_at ≤ time_max
      → (g : Granted) × (do_granted_gpu_message now first again msg t ≡ ok g)
        × Keeps now msg g g.plan
        × Ready g.thread
  unfolding do_granted_gpu_message
  do_granted_gpu_message-ok now first again msg t r goes has free top =
      let e = earliest first.now t in
      let u =
        update_candidate-ok limit lat elat p table execs first.now first.target goes.size t r
          goes.started goes.not_back goes.sized goes.positive in
      let exec = exec_at_free msg.debug_free_at u.0 u.0.batch_policy.inputs e free top u.3 in
      let popped : ModelThread = record u.0 {
        batch_policy = record u.0.batch_policy { inputs = [] };
      } in
      let same : earliest again.now u.0 ≡ earliest again.now t =
        ap (λ k. again.now + k.data_latency + k.ctrl_latency) u.7 in
      let ready : Ready popped = record {
        profiled = u.5.profiled;
        policy_profiled = u.5.policy_profiled;
        covered = omega (arith, u.5.covered);
        ordered = tt;
      } in
      let s =
        send_plan-ok now e goes.size_again again msg u.0.batch_policy.inputs popped u.1 ready
          (omega (arith, goes.started, goes.in_order)) (omega (arith, u.8, same, goes.in_order))
          goes.sized_again goes.positive_again (omega (arith, u.5.covered)) u.5.ordered u.3 exec in
      (s.0, rw (u.2, le→leb _ _ exec, has) s.1, s.2, s.3)
