-- ===== src/BlockQueue.antt =====
-- src/nexus/common/block_queue.h: the queues that threads wait on. A call is one step under the
-- mutex. For a call without a time limit `none` is that it waits. A call with a time limit is the step
-- with which it ends: it returns false or a null pointer if its predicate does not hold by then.
pub mod Bounded
mod Tests
use nexuslb.Prelude.{
  ℕ, ◌+◌, Bool, true, false, ◌||◌, Option, none, some, List, [], ◌∷◌, ◌++◌, ◌==◌, ltb, leb, length,
  if◌then◌else◌,
}

pub record BlockQueue {ℓ} (A : Type ℓ) : Type ℓ where
  pub max_size : ℕ
  pub queue : List A

module _ {ℓ} {A : Type ℓ} where
  -- The constructors, with 0 for a queue without bound.
  unfoldable pub new_queue : ℕ → BlockQueue A
  new_queue max = record { max_size = max; queue = [] }

  unfoldable pub size : BlockQueue A → ℕ
  size q = length q.queue

  -- The predicate of `not_full_`, as it is written.
  unfoldable pub may_push : BlockQueue A → Bool
  may_push q = q.max_size == 0 || leb q.max_size (length q.queue)

  -- `push` of BlockQueue.
  unfoldable pub push : A → BlockQueue A → Option (BlockQueue A)
  unfolding may_push
  push a q = if may_push q then some (record q { queue = q.queue ++ a ∷ [] }) else none

  -- `push` with a time limit.
  unfoldable pub push_for : A → BlockQueue A → Bool × BlockQueue A
  unfolding may_push
  push_for a q = if may_push q then (true, record q { queue = q.queue ++ a ∷ [] }) else (false, q)

  -- `pop` of BlockQueue.
  unfoldable pub pop : BlockQueue A → Option (A × BlockQueue A)
  pop q = elim q.queue [ [] ↦ none | a ∷ rest ↦ some (a, record q { queue = rest }) ]

-- `pop` with a time limit. `none` is the null pointer.
unfoldable pub pop_for {ℓ} : {A : Type ℓ} → BlockQueue A → Option A × BlockQueue A
pop_for q = elim q.queue [ [] ↦ (none, q) | a ∷ rest ↦ (some a, record q { queue = rest }) ]

-- `DeadlineItem`.
pub record DeadlineItem : Type 0 where
  pub item : ℕ
  pub begin : ℕ
  pub deadline : ℕ

-- `SetDeadline`.
unfoldable pub set_deadline : ℕ → DeadlineItem → DeadlineItem
set_deadline time_budget i = record i { deadline = i.begin + time_budget }

-- `CompareDeadlineItem`.
unfoldable pub is_later : DeadlineItem → DeadlineItem → Bool
is_later a b = ltb b.deadline a.deadline

-- `std::priority_queue` under that order, as a list whose head is its top. Of items with the same
-- deadline the older one is on top, one of the orders that the standard allows.
unfoldable pub place : DeadlineItem → List DeadlineItem → List DeadlineItem
unfolding is_later
place i [] = i ∷ []
place i (j ∷ js) = if is_later j i then i ∷ j ∷ js else j ∷ place i js

-- `push` of BlockPriorityQueue.
unfoldable pub push_by_deadline :
    DeadlineItem → BlockQueue DeadlineItem → Option (BlockQueue DeadlineItem)
unfolding may_push place
push_by_deadline i q = if may_push q then some (record q { queue = place i q.queue }) else none

-- The same with a time limit.
unfoldable pub push_by_deadline_for :
    DeadlineItem → BlockQueue DeadlineItem → Bool × BlockQueue DeadlineItem
unfolding may_push place
push_by_deadline_for i q =
    if may_push q then (true, record q { queue = place i q.queue }) else (false, q)

unfoldable pub place_all : List DeadlineItem → List DeadlineItem → List DeadlineItem
unfolding place
place_all [] js = js
place_all (i ∷ is) js = place_all is (place i js)

-- `batch_push`: `none` is the exception on a bounded queue.
unfoldable pub batch_push :
    List DeadlineItem → BlockQueue DeadlineItem → Option (BlockQueue DeadlineItem)
unfolding place_all
batch_push is q = if q.max_size == 0 then some (record q { queue = place_all is q.queue }) else none

-- `pop` of BlockPriorityQueue: the top.
unfoldable pub pop_by_deadline :
    BlockQueue DeadlineItem → Option (DeadlineItem × BlockQueue DeadlineItem)
pop_by_deadline q = elim q.queue [ [] ↦ none | i ∷ rest ↦ some (i, record q { queue = rest }) ]

-- The same with a time limit.
unfoldable pub pop_by_deadline_for :
    BlockQueue DeadlineItem → Option DeadlineItem × BlockQueue DeadlineItem
unfolding pop_for
pop_by_deadline_for q = pop_for q
