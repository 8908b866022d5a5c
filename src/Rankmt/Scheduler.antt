-- ===== src/Rankmt/Scheduler.antt =====
-- src/nexus/dispatcher/rankmt/scheduler.cpp: the scheduler that owns the threads. What it posts to a
-- thread is run at once here, after what the caller does itself. A model session's name is a number.
use nexuslb.Prelude.{
  ℕ, Option, none, some, List, [], ◌∷◌, ◌++◌, ◌==◌, length, map, contains, is_empty, get_elem?, set,
  if◌then◌else◌, Outcome, ok, fault, check_failed, log_fatal, check, or_fault, ◌>>=◌, ◌>>◌,
}
use nexuslb.Profile.{ExecProfile}
use nexuslb.Rankmt.{Config, ExecutionCandidate}
use nexuslb.Rankmt.ModelThread.{ModelThread, Reply, Request, CtrlStatus, enqueue_query}
use nexuslb.Rankmt.ModelThread.Control as Model
use nexuslb.Rankmt.RankThread.State.{RankThread}
use nexuslb.Rankmt.RankThread.Control as Rank

-- MultiThreadRankScheduler.
pub record Scheduler : Type 0 where
  pub config : Config
  pub rank_thread : RankThread
  pub model_index_table : List (ℕ × ℕ)
  pub model_threads : List ModelThread
  pub frontends : List ℕ
  pub backends : List (ℕ × List ℕ)

-- `EnqueueQuery` of a RequestEntrance, which is the index of a model thread, if it has one.
unfoldable pub enqueue :
    ℕ
    → Outcome ℕ
    → Option ℕ
    → Request
    → Scheduler
    → Outcome (CtrlStatus × Scheduler × List Reply × Option ExecutionCandidate)
enqueue now target entrance r s = do
  i ← or_fault entrance check_failed
  t ← or_fault (get_elem? s.model_threads i) check_failed
  u ← enqueue_query now target r t
  ok (u.0, record s { model_threads = set s.model_threads i u.1 }, u.2, u.3)

-- `Stop`: all threads stop, and the model threads are gone.
unfoldable pub stop : Scheduler → Scheduler
stop s = record s { rank_thread = Rank.stop s.rank_thread; model_threads = [] }

unfoldable pub find_session : ℕ → List (ℕ × ℕ) → Option ℕ
find_session name [] = none
find_session name ((n, i) ∷ rest) = if n == name then some i else find_session name rest

-- `AddModelSession`, with what the constructor of the model thread takes: the scheduler and the index
-- of the new thread.
unfoldable pub add_model_session : ℕ → ℕ → ExecProfile → ℕ → Scheduler → Outcome (Scheduler × ℕ)
unfolding find_session
add_model_session name latency_sla_ms profile target s =
    if is_empty s.backends then fault log_fatal else elim (find_session name s.model_index_table) [
      | some i ↦ fault log_fatal
      | none ↦ do
        check (length s.model_threads == length s.model_index_table)
        let i = length s.model_index_table
        t ← Model.new_model_thread s.config latency_sla_ms i profile target s.frontends s.backends
        r ← Rank.add_model_thread i s.rank_thread
        ok (
          record s {
            rank_thread = r;
            model_index_table = s.model_index_table ++ (name, i) ∷ [];
            model_threads = s.model_threads ++ t ∷ [];
          },
          i,
        )
    ]

-- `backends_[id] = delegate`.
unfoldable pub put_backend : ℕ → List ℕ → List (ℕ × List ℕ) → List (ℕ × List ℕ)
put_backend id gpus [] = (id, gpus) ∷ []
put_backend id gpus ((j, old) ∷ bs) =
    if j == id then (id, gpus) ∷ bs else (j, old) ∷ put_backend id gpus bs

-- A call on each model thread.
unfoldable pub for_each :
    (ModelThread → Outcome ModelThread) → List ModelThread → Outcome (List ModelThread)
for_each f [] = ok []
for_each f (t ∷ ts) = f t >>= λ u. (for_each f ts >>= λ us. ok (u ∷ us))

-- `AddBackend`. A model thread takes it in the caller, the rank thread when its callback runs.
unfoldable pub add_backend : ℕ → List ℕ → Scheduler → Outcome Scheduler
unfolding put_backend for_each
add_backend id gpus s = do
  ts ← for_each (Model.add_backend id) s.model_threads
  r ← Rank.add_backend id gpus s.rank_thread
  ok (record s { backends = put_backend id gpus s.backends; rank_thread = r; model_threads = ts })

-- `AddFrontend`.
unfoldable pub add_frontend : ℕ → Scheduler → Scheduler
add_frontend id s = record s {
  frontends = if contains id s.frontends then s.frontends else id ∷ s.frontends;
  model_threads = map (Model.add_frontend id) s.model_threads;
}

-- `RemoveBackend`.
unfoldable pub remove_backend : ℕ → Scheduler → Outcome Scheduler
unfolding for_each
remove_backend id s = do
  r ← Rank.remove_backend id s.rank_thread
  ts ← for_each (Model.remove_backend id) s.model_threads
  ok (record s { backends = Rank.erase_backend id s.backends; rank_thread = r; model_threads = ts })

-- `RemoveFrontend`.
unfoldable pub remove_frontend : ℕ → Scheduler → Scheduler
remove_frontend id s = record s {
  frontends = Model.erase_number id s.frontends;
  model_threads = map (Model.remove_frontend id) s.model_threads;
}
