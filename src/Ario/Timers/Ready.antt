-- ===== src/Ario/Timers/Ready.antt =====
-- `PopReadyTimerItems` of timerfd.cpp, and the operations of the timers in any order.
use nexuslb.Prelude.{
  ℕ, zero, suc, ◌+◌, ◌<◌, ◌≤◌, ◌≡◌, refl, sym, ap, ◌∙◌, inl, inr, Option, none, some, List, [], ◌∷◌,
  length, get_elem?, if◌then◌else◌, ltb, ltb→lt, Outcome, ok, ◌>>=◌, Bool-cases, arith,
}
use nexuslb.Ario.Timers.{
  HeapElement, TimerData, TimerFd, k_ok, heap_remove, pop_callbacks, enqueue_timer, cancel_timer,
  pop_ready, pop_ready_timer_items, earliest_timeout,
}
use nexuslb.Ario.Timers.Order.{Sorted, front_least}
use nexuslb.Ario.Timers.Links.{IsLinked, index-in}
use nexuslb.Ario.Timers.Removal.{heap_remove-ok}
use nexuslb.Ario.Timers.Operations.{
  same_heap, Stays, pop_callbacks-ok, enqueue_timer-ok, cancel_timer-ok,
}

-- The front of the heap is later.
abbrev pub FrontAfter : ℕ → List HeapElement → Type 0
FrontAfter now h = (e : HeapElement) → get_elem? h 0 ≡ some e → now < e.timeout

-- What is left once the items that are ready have been popped.
abbrev Popped : ℕ → Outcome (ℕ × TimerFd) → TimerFd → Type 0
Popped now o q =
    (n : ℕ) × (q' : TimerFd) × (o ≡ ok (n, q'))
    × Stays q q'
    × FrontAfter now q'.heap
    × (Sorted q → Sorted q')

pop_ready-ok :
    (fuel now cnt : ℕ) (q : TimerFd)
    → IsLinked q.heap q.timers
    → length q.heap ≤ fuel
    → Popped now (pop_ready fuel now cnt q) q
unfolding pop_ready
pop_ready-ok zero now cnt q l b = (
  cnt,
  q,
  refl,
  (l, refl),
  (λ e f. let past = index-in q.heap 0 e f in absurd (omega arith)),
  λ so. so,
)
pop_ready-ok (suc fuel) now cnt q l b =
    by_front (λ cnt' q' l' b'. pop_ready-ok fuel now cnt' q' l' b') (get_elem? q.heap 0) refl
  where
    turn : HeapElement → Outcome (ℕ × TimerFd)
    turn e =
        if ltb now e.timeout
        then ok (cnt, q)
        else (pop_callbacks e.data_at k_ok q >>= λ p.
            (heap_remove 0 p.1 >>= pop_ready fuel now (cnt + p.0)))

    by_front :
        ((cnt' : ℕ) (q' : TimerFd)
          → IsLinked q'.heap q'.timers
          → length q'.heap ≤ fuel
          → Popped now (pop_ready fuel now cnt' q') q')
        → (o : Option HeapElement) → get_elem? q.heap 0 ≡ o
        → Popped now (pop_ready (suc fuel) now cnt q) q
    by_front again none e = (cnt, q, rw (pop_ready, e), (l, refl), (λ f g. absurd (cc)), λ so. so)
    by_front again (some e) f =
        let d = l.0 0 e f in
        let inside = index-in q.heap 0 e f in
        let p = pop_callbacks-ok e.data_at k_ok d.0 q l d.1 in
        let r = heap_remove-ok 0 p.1 p.3 (rw p.4 inside) in
        let fewer : length r.0.heap ≤ fuel = omega (arith, r.2.1, ap length p.4) in
        let rest = again (cnt + p.0) r.0 r.2.0 fewer in
        let step : pop_ready (suc fuel) now cnt q ≡ turn e = rw (pop_ready, f) in
        elim (Bool-cases (ltb now e.timeout)) [
          | inl z ↦ (
            cnt,
            q,
            step ∙ rw z,
            (l, refl),
            (λ g h. let same : e ≡ g = cc in rw (sym same) (ltb→lt now e.timeout z)),
            λ so. so,
          )
          | inr z ↦ (
            rest.0,
            rest.1,
            step
                ∙ rw z (
                    ap (λ o. o >>= λ x. (heap_remove 0 x.1 >>= pop_ready fuel now (cnt + x.0))) p.2
                    ∙ ap (λ o. o >>= pop_ready fuel now (cnt + p.0)) r.1
                    ∙ rest.2),
            (rest.3.0, rest.3.1 ∙ r.2.2 ∙ p.5),
            rest.4,
            λ so. rest.5 (r.3 (same_heap p.1 q p.4 so)),
          )
        ]

-- A call of a member function, on a timer that is alive.
pub data TimerCall : Type 0 where
  enqueue : ℕ → ℕ → ℕ → TimerCall
  cancel : ℕ → TimerCall
  pop_items : ℕ → TimerCall

abbrev pub call : TimerCall → TimerFd → Outcome TimerFd
call (enqueue k timeout callback) q =
    if ltb k (length q.timers) then (enqueue_timer k timeout callback q >>= λ r. ok r.1) else ok q
call (cancel k) q = if ltb k (length q.timers) then (cancel_timer k q >>= λ r. ok r.1) else ok q
call (pop_items now) q = pop_ready_timer_items now q >>= λ r. ok r.1

abbrev pub calls : List TimerCall → TimerFd → Outcome TimerFd
calls [] q = ok q
calls (c ∷ cs) q = call c q >>= calls cs

call-ok :
    (c : TimerCall) (q : TimerFd)
    → IsLinked q.heap q.timers
    → (q' : TimerFd) × (call c q ≡ ok q') × Stays q q' × (Sorted q → Sorted q')
unfolding pop_ready_timer_items
call-ok (enqueue k timeout callback) q l = elim (Bool-cases (ltb k (length q.timers))) [
  | inl z ↦
      let r = enqueue_timer-ok k timeout callback q l (ltb→lt k (length q.timers) z) in
      (r.1, rw z (ap (λ o. o >>= λ x. ok x.1) r.2), r.3, r.4)
  | inr z ↦ (q, rw z, (l, refl), λ so. so)
]
call-ok (cancel k) q l = elim (Bool-cases (ltb k (length q.timers))) [
  | inl z ↦
      let r = cancel_timer-ok k q l (ltb→lt k (length q.timers) z) in
      (r.1, rw z (ap (λ o. o >>= λ x. ok x.1) r.2), r.3, r.4)
  | inr z ↦ (q, rw z, (l, refl), λ so. so)
]
call-ok (pop_items now) q l =
    let r = pop_ready-ok (length q.heap) now 0 q l (omega arith) in
    (r.1, ap (λ o. o >>= λ x. ok x.1) r.2, r.3, r.5)

calls-ok :
    (cs : List TimerCall) (q : TimerFd)
    → IsLinked q.heap q.timers
    → (q' : TimerFd) × (calls cs q ≡ ok q') × Stays q q' × (Sorted q → Sorted q')
calls-ok [] q l = (q, refl, (l, refl), λ so. so)
calls-ok (c ∷ cs) q l =
    let first = call-ok c q l in
    let rest = calls-ok cs first.0 first.2.0 in
    (
      rest.0,
      ap (λ o. o >>= calls cs) first.1 ∙ rest.1,
      (rest.2.0, rest.2.1 ∙ first.2.1),
      λ so. rest.3 (first.3 so),
    )

-- TimerFD's constructor, with timers that wait for nothing.
unfoldable pub new_timers : ℕ → List TimerData
new_timers zero = []
new_timers (suc n) = record { callbacks = []; heap_index = none } ∷ new_timers n

unfoldable pub new_timer_fd : ℕ → TimerFd
new_timer_fd n = record { heap = []; timers = new_timers n; out = [] }

new_timers-idle :
    (n k : ℕ) (d : TimerData) → get_elem? (new_timers n) k ≡ some d → d.heap_index ≡ none
unfolding new_timers
new_timers-idle zero k d e = absurd (cc)
new_timers-idle (suc n) zero d e = cc
new_timers-idle (suc n) (suc k) d e = new_timers-idle n k d e

-- Every element is later.
abbrev pub AllAfter : ℕ → List HeapElement → Type 0
AllAfter now h = (i : ℕ) (e : HeapElement) → get_elem? h i ≡ some e → now < e.timeout

-- `EarliestTimeout` is there if anything waits, and nothing that waits is earlier.
abbrev pub IsEarliest : TimerFd → Type 0
IsEarliest q =
    (i : ℕ) (e : HeapElement)
    → get_elem? q.heap i ≡ some e
    → (t : ℕ) × (earliest_timeout q ≡ some t) × (t ≤ e.timeout)

first_of :
    (h : List HeapElement) (i : ℕ) (e : HeapElement)
    → get_elem? h i ≡ some e
    → (f : HeapElement) × (get_elem? h 0 ≡ some f)
first_of [] i e at = absurd (cc)
first_of (x ∷ h) i e at = (x, refl)

earliest-front :
    (q : TimerFd) (f : HeapElement)
    → get_elem? q.heap 0 ≡ some f
    → earliest_timeout q ≡ some f.timeout
unfolding earliest_timeout
earliest-front q f e = of_heap q.heap f e
  where
    of_heap :
        (h : List HeapElement) (f : HeapElement)
        → get_elem? h 0 ≡ some f
        → elim h as (λ x. Option ℕ) [ [] ↦ none | g ∷ gs ↦ some g.timeout ] ≡ some f.timeout
    of_heap [] f e = absurd (cc)
    of_heap (g ∷ gs) f e = let same : g ≡ f = cc in ap (λ x. some x.timeout) same

-- After any sequence of calls on a new TimerFD and its timers, in whatever order timers are set,
-- cancelled and popped, all calls have returned without an access outside of the heap, each element of
-- the heap belongs to a timer that knows its place, each place that a timer knows holds its element,
-- EarliestTimeout is the earliest of the elements, and a pop leaves no element whose time has come.
pub calls-IsLinked :
    (n now : ℕ) (cs : List TimerCall)
    → (q : TimerFd) × (k : ℕ) × (q' : TimerFd) × (calls cs (new_timer_fd n) ≡ ok q)
      × IsLinked q.heap q.timers
      × IsEarliest q
      × (pop_ready_timer_items now q ≡ ok (k, q'))
      × IsLinked q'.heap q'.timers
      × AllAfter now q'.heap
unfolding pop_ready_timer_items new_timer_fd
calls-IsLinked n now cs =
    let q =
      calls-ok cs (new_timer_fd n)
        ((λ i e f. absurd (cc)), λ k d i e f. absurd (cc (new_timers-idle n k d e, f))) in
    let so = q.3 (λ i pos b. absurd (omega arith)) in
    let r = pop_ready-ok (length q.0.heap) now 0 q.0 q.2.0 (omega arith) in
    (
      q.0,
      r.0,
      r.1,
      q.1,
      q.2.0,
      (λ i e at.
          let f = first_of q.0.heap i e at in
          (f.0.timeout, earliest-front q.0 f.0 f.1, front_least q.0 i e f.0 so f.1 at)),
      r.2,
      r.3.0,
      (λ i e at.
          let f = first_of r.1.heap i e at in
          omega (arith, r.4 f.0 f.1, front_least r.1 i e f.0 (r.5 so) f.1 at)),
    )
