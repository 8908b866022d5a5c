-- ===== src/Ario/Timers/Moves.antt =====
-- `HeapUp` and `HeapDown` of timerfd.cpp on linked timers.
use nexuslb.Prelude.{
  ==_iff, ◌≢◌, ℕ, zero, suc, ◌+◌, ◌-◌, ◌*◌, ◌/◌, ◌<◌, ◌≤◌, ◌≡◌, refl, ap, ◌∙◌, inl, inr, ◌==◌,
  length, get_elem?-some, ltb, leb, ok, ◌>>=◌, Bool-cases, arith,
}
use nexuslb.Ario.Timers.{TimerFd, heap_up, smaller_child, heap_down}
use nexuslb.Ario.Timers.Order.{
  IsOrdered, UpAt, DownAt, up_done, up_step, down_done, down_step, timeout_of, time_at,
  Swapped-SwapAt,
}
use nexuslb.Ario.Timers.Links.{IsLinked, Kept, heap_swap-ok}

pub heap_up-ok :
    (fuel i : ℕ) (q : TimerFd)
    → IsLinked q.heap q.timers
    → i < length q.heap
    → (q' : TimerFd) × (heap_up fuel i q ≡ ok q')
      × Kept q q'
      × ((n : ℕ)
          → length q.heap ≡ n
          → i ≤ fuel
          → UpAt n i (time_at q.heap)
          → IsOrdered n (time_at q'.heap))
unfolding heap_up
heap_up-ok zero i q k b = (
  q,
  refl,
  (k, refl, refl),
  λ n e f u.
      up_done n i (time_at q.heap) (time_at q.heap) u (omega arith) (λ p. absurd (omega arith)),
)
heap_up-ok (suc fuel) i q k b = elim (Bool-cases (i == 0)) [
  | inl z ↦ (
    q,
    rw (heap_up, z),
    (k, refl, refl),
    λ n e f u.
        up_done n i (time_at q.heap) (time_at q.heap) u (omega arith) (λ p. absurd (ground arith)),
  )
  | inr z ↦
      let parent = (i - 1) / 2 in
      let below : parent < i = ground arith in
      let e = get_elem?-some q.heap i b in
      let p = get_elem?-some q.heap parent (omega (arith, below)) in
      let s = heap_swap-ok i parent q k b (omega (arith, below)) (ground (arith, below)) in
      let rest = heap_up-ok fuel parent s.0 s.2.0 (omega (arith, below, s.2.1)) in
      elim (Bool-cases (leb p.0.timeout e.0.timeout)) [
        | inl c ↦ (
          q,
          rw (heap_up, z, e.1, p.1, c),
          (k, refl, refl),
          λ n g f u.
              up_done n i (time_at q.heap) (time_at q.heap) u (omega arith)
                (λ pos. ground (arith, ap timeout_of e.1, ap timeout_of p.1)),
        )
        | inr c ↦ (
          rest.0,
          (rw (heap_up, z, e.1, p.1, c) (ap (λ o. o >>= heap_up fuel parent) s.1 ∙ rest.1)),
          (rest.2.0, rest.2.1 ∙ s.2.1, rest.2.2 ∙ s.2.2),
          (λ n g f u. rest.3 n (s.2.1 ∙ g) (omega (arith, below)) (
              up_step n i (time_at q.heap) (time_at s.0.heap) u (ground arith) (omega arith)
                (ground (arith, ap timeout_of e.1, ap timeout_of p.1))
                (Swapped-SwapAt i parent q.heap s.0.heap s.3))),
        )
      ]
]

smaller_child-ok :
    (left : ℕ) (q : TimerFd)
    → left < length q.heap
    → (c : ℕ) × (smaller_child left q ≡ ok c)
      × (left ≤ c)
      × (c < length q.heap)
      × (c ≤ left + 1)
      × (time_at q.heap c ≤ time_at q.heap left)
      × (left + 1 < length q.heap → time_at q.heap c ≤ time_at q.heap (left + 1))
unfolding smaller_child
smaller_child-ok left q b = elim (Bool-cases (left + 1 == length q.heap)) [
  | inl z ↦ (
    left,
    rw (smaller_child, z),
    omega arith,
    b,
    omega arith,
    omega arith,
    λ x. absurd (ground arith),
  )
  | inr z ↦
      let l = get_elem?-some q.heap left b in
      let r = get_elem?-some q.heap (left + 1) (ground arith) in
      elim (Bool-cases (ltb l.0.timeout r.0.timeout)) [
        | inl c ↦ (
          left,
          rw (smaller_child, z, l.1, r.1, c),
          omega arith,
          b,
          omega arith,
          omega arith,
          λ x. ground (arith, ap timeout_of l.1, ap timeout_of r.1),
        )
        | inr c ↦ (
          left + 1,
          rw (smaller_child, z, l.1, r.1, c),
          omega arith,
          ground arith,
          omega arith,
          ground (arith, ap timeout_of l.1, ap timeout_of r.1),
          λ x. omega arith,
        )
      ]
]

-- The smaller child is not later than any child.
least_child :
    (i c j : ℕ) (q : TimerFd)
    → (j - 1) / 2 ≡ i
    → 0 < j
    → j < length q.heap
    → time_at q.heap c ≤ time_at q.heap (i * 2 + 1)
    → (i * 2 + 1 + 1 < length q.heap → time_at q.heap c ≤ time_at q.heap (i * 2 + 1 + 1))
    → time_at q.heap c ≤ time_at q.heap j
least_child i c j q child pos bound first second = elim (Bool-cases (j == i * 2 + 1)) [
  | inl e ↦
      let here : j ≡ i * 2 + 1 = (==_iff j (i * 2 + 1)).0 e in
      omega (arith, ap (time_at q.heap) here, first)
  | inr e ↦
      let there : j ≢ i * 2 + 1 = ground arith in
      let here : j ≡ i * 2 + 1 + 1 = omega arith in
      omega (arith, ap (time_at q.heap) here, second (omega arith))
]

pub heap_down-ok :
    (fuel i : ℕ) (q : TimerFd)
    → IsLinked q.heap q.timers
    → i < length q.heap
    → (q' : TimerFd) × (heap_down fuel i q ≡ ok q')
      × Kept q q'
      × ((n : ℕ)
          → length q.heap ≡ n
          → n ≤ i + fuel
          → DownAt n i (time_at q.heap)
          → IsOrdered n (time_at q'.heap))
unfolding heap_down
heap_down-ok zero i q k b = (q, refl, (k, refl, refl), λ n e f u. absurd (omega arith))
heap_down-ok (suc fuel) i q k b = elim (Bool-cases (ltb (i * 2 + 1) (length q.heap))) [
  | inr z ↦ (
    q,
    rw (heap_down, z),
    (k, refl, refl),
    λ n e f u.
        down_done n i (time_at q.heap) (time_at q.heap) u (omega arith)
          (λ j pos bound child. absurd (ground arith)),
  )
  | inl z ↦
      let c = smaller_child-ok (i * 2 + 1) q (ground arith) in
      let e = get_elem?-some q.heap i b in
      let f = get_elem?-some q.heap c.0 c.3 in
      let s = heap_swap-ok i c.0 q k b c.3 (ground (arith, c.2)) in
      let rest = heap_down-ok fuel c.0 s.0 s.2.0 (omega (arith, c.3, s.2.1)) in
      elim (Bool-cases (ltb e.0.timeout f.0.timeout)) [
        | inl g ↦ (
          q,
          rw (heap_down, z, c.1, e.1, f.1, g),
          (k, refl, refl),
          λ n l m u.
              down_done n i (time_at q.heap) (time_at q.heap) u (omega arith) (λ j pos bound child.
                ground (
                  arith,
                  least_child i c.0 j q child pos (omega arith) c.5 c.6,
                  ap timeout_of e.1,
                  ap timeout_of f.1,
                )),
        )
        | inr g ↦ (
          rest.0,
          (rw (heap_down, z, c.1, e.1, f.1, g) (ap (λ o. o >>= heap_down fuel c.0) s.1 ∙ rest.1)),
          (rest.2.0, rest.2.1 ∙ s.2.1, rest.2.2 ∙ s.2.2),
          (λ n l m u. rest.3 n (s.2.1 ∙ l) (omega (arith, c.2)) (
              down_step n i (time_at q.heap) (time_at s.0.heap) c.0 u (omega (arith, c.2))
                (omega (arith, c.3)) (omega (arith, c.2, c.4))
                (ground (arith, ap timeout_of e.1, ap timeout_of f.1))
                (λ j pos bound child. least_child i c.0 j q child pos (omega arith) c.5 c.6)
                (Swapped-SwapAt i c.0 q.heap s.0.heap s.3))),
        )
      ]
]
