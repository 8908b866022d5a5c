-- ===== src/Ario/Timers.antt =====
-- src/ario/timerfd.cpp: the binary heap of the timers that wait, and the data of each timer, which
-- knows its place in the heap. A pointer to TimerData is its index in `timers`, the timers that are
-- alive; a callback is a number. `CallbackQueue& out` is the field `out`. Access past the end of the
-- heap, or through a pointer to no timer, is `undefined`.
pub mod Order
pub mod Links
pub mod Moves
pub mod Back
pub mod Removal
pub mod Operations
pub mod Ready
mod Tests
use nexuslb.Prelude.{
  ℕ, zero, suc, ◌+◌, ◌-◌, ◌*◌, ◌/◌, Bool, true, false, ◌&&◌, ◌||◌, Option, none, some, List, [],
  ◌∷◌, ◌++◌, map, ◌==◌, ltb, leb, length, get_elem?, set, if◌then◌else◌, Outcome, ok, undefined,
  or_fault, ◌>>=◌,
}

pub data ErrorCode : Type 0 where
  k_ok k_cancelled : ErrorCode

-- HeapElement.
pub record HeapElement : Type 0 where
  pub timeout : ℕ
  pub data_at : ℕ

-- TimerData. `none` is kInvalidHeapIndex.
pub record TimerData : Type 0 where
  pub callbacks : List ℕ
  pub heap_index : Option ℕ

pub record TimerFd : Type 0 where
  pub heap : List HeapElement
  pub timers : List TimerData
  pub out : List (ℕ × ErrorCode)

unfoldable pub pop_back : List HeapElement → List HeapElement
pop_back [] = []
pop_back (x ∷ []) = []
pop_back (x ∷ y ∷ xs) = x ∷ pop_back (y ∷ xs)

-- `data->heap_index = index`.
unfoldable pub put_index : ℕ → Option ℕ → TimerFd → Outcome TimerFd
put_index k index q = do
  d ← or_fault (get_elem? q.timers k) undefined
  ok (record q { timers = set q.timers k (record d { heap_index = index }) })

-- `HeapSwap`.
unfoldable pub heap_swap : ℕ → ℕ → TimerFd → Outcome TimerFd
unfolding put_index
heap_swap lhs rhs q = do
  a ← or_fault (get_elem? q.heap lhs) undefined
  b ← or_fault (get_elem? q.heap rhs) undefined
  q' ← put_index b.data_at (some lhs) (record q { heap = set (set q.heap lhs b) rhs a })
  put_index a.data_at (some rhs) q'

-- `HeapUp`, on fuel.
unfoldable pub heap_up : ℕ → ℕ → TimerFd → Outcome TimerFd
heap_up zero index q = ok q
heap_up (suc fuel) index q = elim (index == 0) [
  | true ↦ ok q
  | false ↦ do
    let parent = (index - 1) / 2
    e ← or_fault (get_elem? q.heap index) undefined
    p ← or_fault (get_elem? q.heap parent) undefined
    let next = heap_swap index parent q >>= heap_up fuel parent
    if leb p.timeout e.timeout then ok q else next
]

-- The smaller child in `HeapDown`, of an index whose left child is in the heap.
unfoldable pub smaller_child : ℕ → TimerFd → Outcome ℕ
smaller_child left q = elim (left + 1 == length q.heap) [
  | true ↦ ok left
  | false ↦ do
    l ← or_fault (get_elem? q.heap left) undefined
    r ← or_fault (get_elem? q.heap (left + 1)) undefined
    ok (if ltb l.timeout r.timeout then left else left + 1)
]

-- `HeapDown`, on fuel.
unfoldable pub heap_down : ℕ → ℕ → TimerFd → Outcome TimerFd
heap_down zero index q = ok q
heap_down (suc fuel) index q = elim (ltb (index * 2 + 1) (length q.heap)) [
  | false ↦ ok q
  | true ↦ do
    child ← smaller_child (index * 2 + 1) q
    e ← or_fault (get_elem? q.heap index) undefined
    c ← or_fault (get_elem? q.heap child) undefined
    let next = heap_swap index child q >>= heap_down fuel child
    if ltb e.timeout c.timeout then ok q else next
]

-- `heap_.back().data->heap_index = kInvalidHeapIndex; heap_.pop_back()`.
unfoldable pub drop_back : TimerFd → Outcome TimerFd
unfolding put_index
drop_back q = do
  e ← or_fault (get_elem? q.heap (length q.heap - 1)) undefined
  q' ← put_index e.data_at none q
  ok (record q' { heap = pop_back q'.heap })

-- Whether the element at an index is earlier than its parent.
unfoldable pub goes_up : ℕ → TimerFd → Outcome Bool
goes_up index q = elim (index == 0) [
  | true ↦ ok false
  | false ↦ do
    e ← or_fault (get_elem? q.heap index) undefined
    p ← or_fault (get_elem? q.heap ((index - 1) / 2)) undefined
    ok (ltb e.timeout p.timeout)
]

-- `HeapRemove`.
unfoldable pub heap_remove : ℕ → TimerFd → Outcome TimerFd
heap_remove index q =
    if index == length q.heap - 1
    then drop_back q
    else (heap_swap index (length q.heap - 1) q >>= λ q1.
        (drop_back q1 >>= λ q2.
        (goes_up index q2 >>= λ up.
        if up then heap_up index index q2 else heap_down (length q2.heap) index q2)))

-- `PopCallbacks`, with the number of callbacks.
unfoldable pub pop_callbacks : ℕ → ErrorCode → TimerFd → Outcome (ℕ × TimerFd)
pop_callbacks k error q = do
  d ← or_fault (get_elem? q.timers k) undefined
  ok (
    length d.callbacks,
    record q {
      timers = set q.timers k (record d { callbacks = [] });
      out = q.out ++ map (λ cb. (cb, error)) d.callbacks;
    },
  )

-- The element of `EnqueueTimer` for data that is not in the heap.
unfoldable pub enter_heap : ℕ → ℕ → TimerData → TimerFd → Outcome TimerFd
enter_heap k timeout d q =
    let index = length q.heap in
    put_index k (some index)
      (record q { heap = q.heap ++ record { timeout = timeout; data_at = k } ∷ [] })
    >>= heap_up index index

abbrev pub is_front : TimerData → Bool
is_front d = elim d.heap_index [ none ↦ false | some i ↦ i == 0 && length d.callbacks == 1 ]

unfoldable pub enter_if_new : ℕ → ℕ → TimerData → Option ℕ → TimerFd → Outcome TimerFd
enter_if_new k timeout d none q = enter_heap k timeout d q
enter_if_new k timeout d (some i) q = ok q

-- `data.callbacks.emplace_back(callback)`, and whether the timer is the earliest, and new.
unfoldable pub add_callback : ℕ → ℕ → TimerFd → Outcome (Bool × TimerFd)
add_callback k callback q = do
  d ← or_fault (get_elem? q.timers k) undefined
  let d' = record d { callbacks = d.callbacks ++ callback ∷ [] }
  ok (is_front d', record q { timers = set q.timers k d' })

-- `EnqueueTimer`.
unfoldable pub enqueue_timer : ℕ → ℕ → ℕ → TimerFd → Outcome (Bool × TimerFd)
enqueue_timer k timeout callback q = do
  d ← or_fault (get_elem? q.timers k) undefined
  q' ← enter_if_new k timeout d d.heap_index q
  add_callback k callback q'

unfoldable pub cancel_at : ℕ → Option ℕ → TimerFd → Outcome (ℕ × TimerFd)
cancel_at k none q = ok (0, q)
cancel_at k (some i) q = do p ← pop_callbacks k k_cancelled q; q' ← heap_remove i p.1; ok (p.0, q')

-- `CancelTimer`.
unfoldable pub cancel_timer : ℕ → TimerFd → Outcome (ℕ × TimerFd)
cancel_timer k q = do d ← or_fault (get_elem? q.timers k) undefined; cancel_at k d.heap_index q

-- `EarliestTimeout`.
unfoldable pub earliest_timeout : TimerFd → Option ℕ
earliest_timeout q = elim q.heap [ [] ↦ none | e ∷ es ↦ some e.timeout ]

-- The loop of `PopReadyTimerItems`, on fuel, with the count so far.
unfoldable pub pop_ready : ℕ → ℕ → ℕ → TimerFd → Outcome (ℕ × TimerFd)
pop_ready zero now cnt q = ok (cnt, q)
pop_ready (suc fuel) now cnt q = elim (get_elem? q.heap 0) [
  | none ↦ ok (cnt, q)
  | some e ↦
      let next = pop_callbacks e.data_at k_ok q >>= λ p.
      (heap_remove 0 p.1 >>= pop_ready fuel now (cnt + p.0)) in
      if ltb now e.timeout then ok (cnt, q) else next
]

-- `PopReadyTimerItems`.
unfoldable pub pop_ready_timer_items : ℕ → TimerFd → Outcome (ℕ × TimerFd)
pop_ready_timer_items now q = pop_ready (length q.heap) now 0 q

-- `heap_[index].data = &dst`, if there is an index.
unfoldable pub move_element : ℕ → Option ℕ → TimerFd → Outcome TimerFd
move_element dst none q = ok q
move_element dst (some i) q = do
  e ← or_fault (get_elem? q.heap i) undefined
  ok (record q { heap = set q.heap i (record e { data_at = dst }) })

-- `MoveTimer`.
unfoldable pub move_timer : ℕ → ℕ → TimerFd → Outcome TimerFd
move_timer dst src q = do
  d ← or_fault (get_elem? q.timers dst) undefined
  s ← or_fault (get_elem? q.timers src) undefined
  let moved : TimerData = record {
    callbacks = d.callbacks ++ s.callbacks;
    heap_index = s.heap_index;
  }
  let left : TimerData = record { callbacks = []; heap_index = none }
  move_element dst s.heap_index (record q { timers = set (set q.timers dst moved) src left })
