-- ===== src/BatchPolicy/Tests.antt =====
-- batch_policy.cpp on a profile with a table of four batch sizes.
use nexuslb.Prelude.{
  ℕ, ◌+◌, ◌*◌, ◌≤◌, ◌≡◌, refl, ◌⊎◌, some, [], ◌∷◌, leb, length, if◌then◌else◌, ok, fault, log_fatal,
  arith,
}
use nexuslb.Profile.{ExecProfile, IsTable}
use nexuslb.Query.{QueryContext, insert, before}
use nexuslb.BatchPolicy.{
  IncrementalBatchPolicy, finish_time, drop_timeouts, drop_head, free_lunch, round, expand,
  sanity_check, get_batch_by_expanded_window, update,
}
use nexuslb.BatchPolicy.Feasible.{IsSorted, Meets, finish_at}
use nexuslb.BatchPolicy.Update.{update-ok, update_backlog}
use nexuslb.BatchPolicy.Conserved.{held, update-held}

abbrev pub forward : ℕ → ℕ
forward n = 1000 + 100 * n

abbrev pub four_sizes : ExecProfile
four_sizes = record {
  forward_ns = λ n. if leb n 4 then ok (forward n) else fault log_fatal;
  preprocess_ns = 10;
  postprocess_ns = 10;
  exec_ns = λ n. if leb n 5 then ok (forward n + 20) else fault log_fatal;
}

pub four_sizes-IsTable : IsTable 4 forward four_sizes
four_sizes-IsTable = record { covered = λ n pos h. ground arith; monotone = λ m n h l. omega arith }

abbrev pub query : ℕ → ℕ → QueryContext
query id deadline = record { frontend_id = 1; query_id = id; global_id = id; deadline = deadline }

-- One input that is late by now, and two queries that wait.
abbrev pub waiting : IncrementalBatchPolicy
waiting = record {
  queries = query 2 9000 ∷ query 3 9500 ∷ [];
  profile = some four_sizes;
  last_exec_time = 100;
  inputs = query 1 6000 ∷ [];
  drops = [];
}

update_example :
    (b' : IncrementalBatchPolicy) × (update 5000 2 waiting ≡ ok b')
    × IsSorted b'.inputs
    × Meets (finish_at 4 forward four_sizes four_sizes-IsTable 5000 (length b'.inputs)) b'.inputs
    × ((b'.queries ≡ []) ⊎ (2 ≤ length b'.inputs))
    × (length b'.inputs + length b'.queries ≤ 4)
    × (b'.profile ≡ some four_sizes)
    × (b'.last_exec_time ≡ 5000)
update_example =
    update-ok 4 forward four_sizes four_sizes-IsTable 5000 2 waiting refl (omega arith)
      (omega arith) (omega arith) (tt, tt)

abbrev late_dropped : IncrementalBatchPolicy
late_dropped = record {
  queries = [];
  profile = some four_sizes;
  last_exec_time = 5000;
  inputs = query 2 9000 ∷ query 3 9500 ∷ [];
  drops = query 1 6000 ∷ [];
}

waiting_updated : update 5000 2 waiting ≡ ok late_dropped
unfolding finish_time drop_timeouts drop_head free_lunch round expand sanity_check
    get_batch_by_expanded_window update insert before
waiting_updated = refl

waiting_once : (g : ℕ) → held g waiting ≤ 1
waiting_once g = ground arith

update-held_example : held 2 late_dropped ≡ held 2 waiting
update-held_example = update-held 5000 2 waiting late_dropped waiting_once waiting_updated 2

-- A full batch on time, with a query behind it.
abbrev full : IncrementalBatchPolicy
full = record waiting {
  queries = query 5 9900 ∷ [];
  inputs = query 1 9000 ∷ query 2 9100 ∷ query 3 9200 ∷ query 4 9300 ∷ [];
}

update_backlog_example : update 5000 2 full ≡ fault log_fatal
update_backlog_example =
    update_backlog 4 forward four_sizes four_sizes-IsTable 5000 2 full (query 1 9000) (query 5 9900)
      (query 2 9100 ∷ query 3 9200 ∷ query 4 9300 ∷ []) [] refl (omega arith) refl refl refl
      (omega arith) (omega arith) refl
