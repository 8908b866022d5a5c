-- ===== src/BatchPolicy.antt =====
-- src/nexus/dispatcher/batch_policy.cpp: the batch of one model session, grown and trimmed as
-- queries come and time goes on. `queries_` refers to the owner's set of unprocessed queries, so it
-- is a field here, which the owner changes too.
pub mod Feasible
pub mod Update
pub mod Conserved
pub mod Tests
use nexuslb.Prelude.{
  ℕ, ◌+◌, Bool, Option, none, some, List, [], ◌∷◌, ◌++◌, ltb, leb, min, length, if◌then◌else◌,
  Outcome, ok, fault, null_pointer, check_failed, check, or_fault, ◌>>=◌, ◌>>◌,
}
use nexuslb.Profile.{ExecProfile}
use nexuslb.Query.{QueryContext, insert}

abbrev pub Queries : Type 0
Queries = List QueryContext

-- `finish_time` of a batch of the given size.
unfoldable pub finish_time : ExecProfile → ℕ → ℕ → Outcome ℕ
finish_time p exec_time size = do
  fwd ← p.forward_ns size
  ok (exec_time + fwd + (p.preprocess_ns + p.postprocess_ns))

-- The first loop: from the front, inputs that the current batch would miss.
unfoldable pub drop_timeouts : ExecProfile → ℕ → Queries → Queries → Outcome (Queries × Queries)
unfolding finish_time
drop_timeouts p exec_time [] drops = ok ([], drops)
drop_timeouts p exec_time (q ∷ inputs) drops = do
  finish ← finish_time p exec_time (length (q ∷ inputs))
  let rest = drop_timeouts p exec_time inputs (drops ++ q ∷ [])
  if leb finish q.deadline then ok (q ∷ inputs, drops) else rest

-- The new inputs and drops, after a query went in and the head may have gone out.
unfoldable pub drop_head : ℕ → Queries → Queries → Outcome (Option (Queries × Queries))
drop_head finish [] drops = fault null_pointer
drop_head finish (h ∷ inputs) drops =
    if ltb h.deadline finish
    then ok (some (inputs, drops ++ h ∷ []))
    else ok (some (h ∷ inputs, drops))

-- The last branch: the batch is full, and grows only if that costs nothing. `none` is the break.
-- `*inputs.begin()` of an empty set is undefined behaviour, a null pointer here.
unfoldable pub free_lunch :
    ExecProfile → ℕ → QueryContext → Queries → Queries → Outcome (Option (Queries × Queries))
unfolding finish_time
free_lunch p exec_time q [] drops = fault null_pointer
free_lunch p exec_time q (h ∷ inputs) drops = do
  finish ← finish_time p exec_time (length (h ∷ inputs) + 1)
  if ltb finish (min h.deadline q.deadline)
      then ok (some (insert q (h ∷ inputs), drops))
      else ok none

-- One round of the second loop, with `q` the head of the `remaining` queries.
unfoldable pub round :
    ExecProfile
    → ℕ
    → ℕ
    → ℕ
    → QueryContext
    → Queries
    → Queries
    → Outcome (Option (Queries × Queries))
unfolding drop_head free_lunch finish_time
round p exec_time target remaining q inputs drops =
    if ltb (length inputs) target
    then (finish_time p exec_time (min target (length inputs + remaining)) >>= λ finish.
        drop_head finish (insert q inputs) drops)
    else free_lunch p exec_time q inputs drops

-- The second loop, the sliding window. Each round that goes on takes one query.
unfoldable pub expand :
    ExecProfile → ℕ → ℕ → Queries → Queries → Queries → Outcome (Queries × Queries × Queries)
unfolding round
expand p exec_time target [] inputs drops = ok ([], inputs, drops)
expand p exec_time target (q ∷ queries) inputs drops =
    round p exec_time target (length (q ∷ queries)) q inputs drops >>= λ r. elim r [
      | none ↦ ok (q ∷ queries, inputs, drops)
      | some (inputs', drops') ↦ expand p exec_time target queries inputs' drops'
    ]

-- The sanity check at the end.
unfoldable pub sanity_check : ExecProfile → ℕ → Queries → Outcome (Unit {0})
unfolding finish_time
sanity_check p exec_time [] = ok tt
sanity_check p exec_time (h ∷ inputs) = do
  finish ← finish_time p exec_time (length (h ∷ inputs))
  check (leb finish h.deadline)

unfoldable pub get_batch_by_expanded_window :
    ExecProfile → ℕ → ℕ → Queries → Queries → Queries → Outcome (Queries × Queries × Queries)
unfolding drop_timeouts expand sanity_check
get_batch_by_expanded_window p exec_time target queries inputs drops = do
  kept ← drop_timeouts p exec_time inputs drops
  window ← expand p exec_time target queries kept.0 kept.1
  sanity_check p exec_time window.1
  ok window

pub record IncrementalBatchPolicy : Type 0 where
  pub queries : Queries
  pub profile : Option ExecProfile
  pub last_exec_time : ℕ
  pub inputs : Queries
  pub drops : Queries

-- `Update`.
unfoldable pub update : ℕ → ℕ → IncrementalBatchPolicy → Outcome IncrementalBatchPolicy
unfolding get_batch_by_expanded_window
update exec_time target b = do
  p ← or_fault b.profile check_failed
  check (leb b.last_exec_time exec_time)
  window ← get_batch_by_expanded_window p exec_time target b.queries b.inputs b.drops
  ok (record b {
    last_exec_time = exec_time;
    queries = window.0;
    inputs = window.1;
    drops = window.2;
  })

-- `SetProfile`, `PopInputs` and `PopDrops`.
unfoldable pub set_profile : ExecProfile → IncrementalBatchPolicy → IncrementalBatchPolicy
set_profile p b = record b { profile = some p }

unfoldable pub pop_inputs : IncrementalBatchPolicy → Queries × IncrementalBatchPolicy
pop_inputs b = (b.inputs, record b { inputs = [] })

unfoldable pub pop_drops : IncrementalBatchPolicy → Queries × IncrementalBatchPolicy
pop_drops b = (b.drops, record b { drops = [] })
