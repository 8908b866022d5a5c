-- ===== src/Rankmt/ModelThread.antt =====
-- src/nexus/dispatcher/rankmt/model_thread.cpp: the thread that batches the queries of one model.
-- What UpdateTargetBatchSize returns, which TargetSize models on doubles, or the abort of the process
-- in it, and each reading of the clock are arguments. Replies to frontends and batch plans for backends
-- are results. A set or vector that was moved from is empty.
pub mod Candidate
pub mod Grant
pub mod Control
pub mod TargetSize
use nexuslb.Prelude.{
  ℕ, suc, ◌+◌, ◌-◌, ◌*◌, Bool, true, false, ◌||◌, Option, none, some, List, [], ◌∷◌, ◌++◌, ◌==◌,
  ltb, leb, max, length, contains, if◌then◌else◌, is_empty, Outcome, ok, fault, out_of_range,
  check_failed, check, or_fault, ◌>>=◌, ◌>>◌,
}
use nexuslb.Profile.{ExecProfile}
use nexuslb.Query.{QueryContext, insert}
use nexuslb.BatchPolicy.{Queries, IncrementalBatchPolicy, update, pop_inputs, pop_drops}
use nexuslb.Rankmt.{
  Config, ExecutionCandidate, GrantedGpuMessage, UpdateGpuCommand, Link, time_max, epoch,
}

-- `DispatchReply` for dropped queries: the frontend, and the ids of its queries.
abbrev pub Reply : Type 0
Reply = ℕ × List ℕ

pub record ModelThread : Type 0 where
  pub config : Config
  pub latency_sla_ms : ℕ
  pub model_index : ℕ
  pub profile : ExecProfile
  pub stop_flag : Bool
  pub frontends : List ℕ
  pub backends : List (ℕ × List ℕ)
  pub gpus : List ℕ
  pub batch_policy : IncrementalBatchPolicy
  pub target_batch_size : ℕ
  pub candidate : ExecutionCandidate
  pub drop_timer : Option ℕ
  pub invalidate_timer : Option ℕ

-- The first loop of `SendDroppedQueries`: the replies, by frontend.
unfoldable pub add_to_reply : QueryContext → List Reply → List Reply
add_to_reply q [] = (q.frontend_id, q.query_id ∷ []) ∷ []
add_to_reply q ((f, ids) ∷ rs) =
    if f == q.frontend_id then (f, ids ++ q.query_id ∷ []) ∷ rs else (f, ids) ∷ add_to_reply q rs

unfoldable pub collect_replies : Queries → List Reply → List Reply
unfolding add_to_reply
collect_replies [] rs = rs
collect_replies (q ∷ qs) rs = collect_replies qs (add_to_reply q rs)

-- The second loop: a reply to an unknown frontend is only logged.
unfoldable pub known_replies : List ℕ → List Reply → List Reply
known_replies frontends [] = []
known_replies frontends ((f, ids) ∷ rs) =
    if contains f frontends
    then (f, ids) ∷ known_replies frontends rs
    else known_replies frontends rs

-- `SendDroppedQueries`.
unfoldable pub send_dropped_queries : ModelThread → Queries → List Reply
unfolding collect_replies known_replies
send_dropped_queries t drops = known_replies t.frontends (collect_replies drops [])

-- When the batch is to start: as soon as it can if it is full, and else late enough for one more
-- query.
unfoldable pub start_time : ℕ → ℕ → ℕ → ℕ → ℕ → ℕ
start_time earliest target size deadline frontrun_elapse =
    if leb target size then earliest else max earliest (deadline - frontrun_elapse)

-- The candidate of a batch, with the timeouts of the drop timer and of the invalidate timer.
unfoldable pub with_candidate : ℕ → ℕ → ℕ → ModelThread → ModelThread
with_candidate deadline elapse exec_at t = record t {
  candidate = record { exec_at = exec_at; invalid_after = deadline - elapse };
  drop_timer = some deadline;
  invalidate_timer = some (deadline - elapse - t.config.data_latency - t.config.ctrl_latency);
}

unfoldable pub without_candidate : ModelThread → ModelThread
without_candidate t = record t {
  candidate = record { exec_at = time_max; invalid_after = 0 };
  drop_timer = none;
  invalidate_timer = none;
}

unfoldable pub set_candidate : ℕ → Queries → ModelThread → Outcome ModelThread
unfolding start_time with_candidate without_candidate
set_candidate earliest [] t = ok (without_candidate t)
set_candidate earliest (h ∷ inputs) t = do
  let size = length (h ∷ inputs)
  frontrun_elapse ← t.profile.exec_ns (size + 1)
  elapse ← t.profile.exec_ns size
  let exec_at = start_time earliest t.target_batch_size size h.deadline frontrun_elapse
  ok (with_candidate h.deadline elapse exec_at t)

-- The end of `UpdateCandidate`: the dropped queries are taken out and answered.
unfoldable pub flush_drops : ModelThread → ModelThread × List Reply
unfolding send_dropped_queries pop_drops
flush_drops t = if is_empty t.batch_policy.drops then (t, []) else (
  record t { batch_policy = (pop_drops t.batch_policy).1 },
  send_dropped_queries t t.batch_policy.drops,
)

-- `UpdateCandidate`, on the clock's reading and the outcome of UpdateTargetBatchSize, with the replies
-- for the dropped queries.
unfoldable pub update_candidate : ℕ → Outcome ℕ → ModelThread → Outcome (ModelThread × List Reply)
update_candidate now target t = do
  let earliest = now + t.config.data_latency + t.config.ctrl_latency
  n ← target
  b ← update earliest n t.batch_policy
  t' ← set_candidate earliest b.inputs (record t { target_batch_size = n; batch_policy = b })
  ok (flush_drops t')

pub data CtrlStatus : Type 0 where
  ctrl_ok service_unavailable model_session_not_loaded : CtrlStatus

-- The deadline of a query, from `frontend_recv_ns` of its clock.
unfoldable pub query_deadline : ModelThread → ℕ → ℕ
query_deadline t frontend_recv_ns =
    epoch + frontend_recv_ns + t.latency_sla_ms * 1_000_000 - t.config.resp_latency - 2_000_000

pub record Request : Type 0 where
  pub model_index : ℕ
  pub frontend_id : ℕ
  pub query_id : ℕ
  pub global_id : ℕ
  pub frontend_recv_ns : ℕ

unfoldable pub query_context : ModelThread → Request → QueryContext
unfolding query_deadline
query_context t r = record {
  frontend_id = r.frontend_id;
  query_id = r.query_id;
  global_id = r.global_id;
  deadline = query_deadline t r.frontend_recv_ns;
}

unfoldable pub add_query : QueryContext → ModelThread → ModelThread
unfolding insert
add_query q t = record t {
  batch_policy = record t.batch_policy { queries = insert q t.batch_policy.queries };
}

-- `EnqueueQuery`: the status, the replies, and the candidate for the rank thread if there is one.
unfoldable pub enqueue_query :
    ℕ
    → Outcome ℕ
    → Request
    → ModelThread
    → Outcome (CtrlStatus × ModelThread × List Reply × Option ExecutionCandidate)
unfolding add_query query_context
enqueue_query now target r t =
    if t.stop_flag
    then ok (service_unavailable, t, [], none)
    else if r.model_index == t.model_index
    then (update_candidate now target (add_query (query_context t r) t) >>= λ u.
        ok (ctrl_ok, u.0, u.1, some u.0.candidate))
    else ok (model_session_not_loaded, t, [], none)

-- `OnDropTimer`, the callback of both timers.
unfoldable pub on_drop_timer :
    ℕ → Outcome ℕ → ModelThread → Outcome (ModelThread × List Reply × Option ExecutionCandidate)
on_drop_timer now target t =
    if t.stop_flag || is_empty t.batch_policy.inputs
    then ok (t, [], none)
    else (update_candidate now target t >>= λ u. ok (u.0, u.1, some u.0.candidate))

-- `BatchPlanProto`, as far as the scheduler fills it.
pub record BatchPlan : Type 0 where
  pub plan_id : ℕ
  pub gpu_id : ℕ
  pub model_index : ℕ
  pub exec_time : ℕ
  pub deadline : ℕ
  pub expected_finish_time : ℕ
  pub queries : Queries

-- What `DoGrantedGpuMessage` returns and sends.
pub record Granted : Type 0 where
  pub thread : ModelThread
  pub replies : List Reply
  pub plan : Option BatchPlan
  pub finish_at : ℕ

-- What a call of UpdateCandidate starts from: the clock, and what UpdateTargetBatchSize returns.
pub record Reading : Type 0 where
  pub now : ℕ
  pub target : Outcome ℕ

-- The rest of `DoGrantedGpuMessage`, on the inputs that were popped.
unfoldable pub send_plan :
    ℕ → Reading → GrantedGpuMessage → Queries → ModelThread → List Reply → Outcome Granted
send_plan now again msg [] t replies =
    ok (record { thread = t; replies = replies; plan = none; finish_at = now })
send_plan now again msg (h ∷ inputs) t replies = do
  exec_elapse ← t.profile.exec_ns (length (h ∷ inputs))
  let finish_at = t.candidate.exec_at + exec_elapse
  u ← update_candidate again.now again.target t
  ok (record {
    thread = u.0;
    replies = replies ++ u.1;
    plan = some (record {
      plan_id = msg.plan_id;
      gpu_id = msg.gpu_id;
      model_index = t.model_index;
      exec_time = t.candidate.exec_at;
      deadline = h.deadline;
      expected_finish_time = finish_at;
      queries = h ∷ inputs;
    });
    finish_at = finish_at;
  })

-- `DoGrantedGpuMessage`, on its own reading of the clock and what its two calls of UpdateCandidate
-- start from. The early return leaves the candidate as it was updated.
unfoldable pub do_granted_gpu_message :
    ℕ → Reading → Reading → GrantedGpuMessage → ModelThread → Outcome Granted
unfolding send_plan pop_inputs
do_granted_gpu_message now first again msg t = do
  u ← update_candidate first.now first.target t
  check (leb msg.debug_free_at u.0.candidate.exec_at)
  let popped = pop_inputs u.0.batch_policy
  if contains msg.gpu_id t.gpus
      then send_plan now again msg popped.0 (record u.0 { batch_policy = popped.1 }) u.1
      else fault out_of_range

-- What `Poll` hands to the rank thread: the command, then the resumption, then the candidate.
pub record Update : Type 0 where
  pub command : UpdateGpuCommand
  pub candidate : ExecutionCandidate

-- `Poll`, on the message of the link, which a stopped thread leaves there.
unfoldable pub poll :
    ℕ
    → Reading
    → Reading
    → Option GrantedGpuMessage
    → ModelThread
    → Outcome (ModelThread × List Reply × Option BatchPlan × Option Update)
unfolding do_granted_gpu_message
poll now first again none t = ok (t, [], none, none)
poll now first again (some msg) t =
    if t.stop_flag
    then ok (t, [], none, none)
    else (do_granted_gpu_message now first again msg t >>= λ g. ok (
      g.thread,
      g.replies,
      g.plan,
      some (record {
        command = record { gpu_id = msg.gpu_id; free_at = g.finish_at };
        candidate = g.thread.candidate;
      }),
    ))
