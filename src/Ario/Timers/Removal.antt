-- ===== src/Ario/Timers/Removal.antt =====
-- `HeapRemove` of timerfd.cpp on linked timers.
use nexuslb.Prelude.{
  ◌≤◌, subst, ℕ, ◌+◌, ◌-◌, ◌<◌, ◌≡◌, refl, sym, ap, ◌∙◌, inl, inr, Bool, true, false, List, ◌==◌,
  length, ◌/◌, get_elem?, get_elem?-some, if◌then◌else◌, ltb, Outcome, ok, ◌>>=◌, Bool-cases, arith,
}
use nexuslb.Ario.Timers.{
  pop_back, HeapElement, TimerFd, heap_swap, heap_up, heap_down, drop_back, goes_up, heap_remove,
}
use nexuslb.Ario.Timers.Links.{IsLinked, Kept, heap_swap-ok}
use nexuslb.Ario.Timers.Order.{
  IsOrdered, UpAt, DownAt, Sorted, removed-UpAt, removed-DownAt, timeout_of, time_at,
  Swapped-SwapAt,
}
use nexuslb.Ario.Timers.Moves.{heap_up-ok, heap_down-ok}
use nexuslb.Ario.Timers.Back.{get-pop_back, drop_back-ok}

-- What the test says of the times of a place and of its parent.
abbrev Tells : ℕ → TimerFd → Bool → Type 0
Tells i q true = (0 < i) × (time_at q.heap i < time_at q.heap ((i - 1) / 2))
Tells i q false = 0 < i → time_at q.heap ((i - 1) / 2) ≤ time_at q.heap i

goes_up-ok :
    (i : ℕ) (q : TimerFd) → i < length q.heap → (b : Bool) × (goes_up i q ≡ ok b) × Tells i q b
unfolding goes_up
goes_up-ok i q h = elim (Bool-cases (i == 0)) [
  | inl z ↦ (false, rw (goes_up, z), λ pos. absurd (ground arith))
  | inr z ↦
      let e = get_elem?-some q.heap i h in
      let p = get_elem?-some q.heap ((i - 1) / 2) (ground arith) in
      elim (Bool-cases (ltb e.0.timeout p.0.timeout)) [
        | inl c ↦ (
          true,
          rw (goes_up, z, e.1, p.1, c),
          (ground arith, ground (arith, ap timeout_of e.1, ap timeout_of p.1)),
        )
        | inr c ↦ (
          false,
          rw (goes_up, z, e.1, p.1, c),
          λ pos. ground (arith, ap timeout_of e.1, ap timeout_of p.1),
        )
      ]
]

-- One element less.
abbrev pub Removed : TimerFd → TimerFd → Type 0
Removed q q' =
    IsLinked q'.heap q'.timers
    × (length q'.heap + 1 ≡ length q.heap)
    × (length q'.timers ≡ length q.timers)

drop-time :
    (h h' : List HeapElement) (k : ℕ)
    → h' ≡ pop_back h
    → length h' + 1 ≡ length h
    → k < length h'
    → time_at h' k ≡ time_at h k
drop-time h h' k e c b =
    let front : (k + 1 == length h) ≡ false = ground (arith, c) in
    ap (λ l. time_at l k) e ∙ ap timeout_of {y = get_elem? h k} (get-pop_back h k ∙ rw front refl)

-- What the place of the element that was moved there needs.
abbrev Placed : ℕ → ℕ → Bool → (ℕ → ℕ) → Type 0
Placed n i true t = UpAt n i t
Placed n i false t = DownAt n i t

placed :
    (n i x : ℕ) (q : TimerFd) (t : ℕ → ℕ) (up : Bool)
    → IsOrdered (n + 1) t
    → ((k : ℕ) → k < n → time_at q.heap k ≡ (if i == k then x else t k))
    → i < n
    → Tells i q up
    → Placed n i up (time_at q.heap)
placed n i x q t true old changed b tells =
    removed-UpAt n i x t (time_at q.heap) old changed tells.0 b tells.1
placed n i x q t false old changed b tells =
    removed-DownAt n i x t (time_at q.heap) old changed tells

pub heap_remove-ok :
    (i : ℕ) (q : TimerFd)
    → IsLinked q.heap q.timers
    → i < length q.heap
    → (q' : TimerFd) × (heap_remove i q ≡ ok q') × Removed q q' × (Sorted q → Sorted q')
unfolding heap_remove
heap_remove-ok i q k b = elim (Bool-cases (i == length q.heap - 1)) [
  | inl z ↦
      let r = drop_back-ok q k (omega arith) in
      (
        r.0,
        ap (λ x. if x then drop_back q else rest) z ∙ r.1,
        (r.2, r.4, r.5),
        λ so j pos bound. omega (
          arith,
          drop-time q.heap r.0.heap j r.3 r.4 bound,
          drop-time q.heap r.0.heap ((j - 1) / 2) r.3 r.4 (omega arith),
          so j pos (omega (arith, r.4)),
        ),
      )
  | inr z ↦
      let s = heap_swap-ok i (length q.heap - 1) q k b (omega arith) z in
      let r = drop_back-ok s.0 s.2.0 (omega (arith, s.2.1)) in
      let inside : i < length r.0.heap = ground (arith, s.2.1, r.4) in
      let g = goes_up-ok i r.0 inside in
      let m = place g.0 r.0 r.2 inside in
      let whole : length r.0.heap + 1 ≡ length q.heap = r.4 ∙ s.2.1 in
      let last = length q.heap - 1 in
      let changed : (j : ℕ)
          → j < length r.0.heap
          → time_at r.0.heap j ≡ (if i == j then time_at q.heap last else time_at q.heap j) =
        λ j c.
          let behind : (last == j) ≡ false = ground (arith, whole) in
          drop-time s.0.heap r.0.heap j r.3 r.4 c
          ∙ Swapped-SwapAt i last q.heap s.0.heap s.3 j
          ∙ rw behind refl in
      (
        m.0,
        ap (λ x. if x then drop_back q else rest) z
            ∙ ap (λ o. o >>= after_swap) s.1
            ∙ ap (λ o. o >>= after_drop) r.1
            ∙ ap (λ o. o >>= λ up. move up r.0) g.1
            ∙ m.1,
        (m.2.0, omega (arith, m.2.1, r.4, s.2.1), m.2.2 ∙ r.5 ∙ s.2.2),
        λ so.
            subst (λ x. IsOrdered x (time_at m.0.heap)) (sym m.2.1)
              (m.3 (length r.0.heap) refl (
                placed (length r.0.heap) i (time_at q.heap last) r.0 (time_at q.heap) g.0
                  (subst (λ x. IsOrdered x (time_at q.heap)) (sym whole) so) changed inside g.2)),
      )
]
  where
    move : Bool → TimerFd → Outcome TimerFd
    move up q2 = if up then heap_up i i q2 else heap_down (length q2.heap) i q2

    after_drop : TimerFd → Outcome TimerFd
    after_drop q2 = goes_up i q2 >>= λ up. move up q2

    after_swap : TimerFd → Outcome TimerFd
    after_swap q1 = drop_back q1 >>= after_drop

    rest : Outcome TimerFd
    rest = heap_swap i (length q.heap - 1) q >>= after_swap

    place :
        (up : Bool) (q2 : TimerFd)
        → IsLinked q2.heap q2.timers
        → i < length q2.heap
        → (q' : TimerFd) × (move up q2 ≡ ok q')
          × Kept q2 q'
          × ((n : ℕ)
              → length q2.heap ≡ n
              → Placed n i up (time_at q2.heap)
              → IsOrdered n (time_at q'.heap))
    place true q2 k2 b2 =
        let h = heap_up-ok i i q2 k2 b2 in (h.0, h.1, h.2, λ n e p. h.3 n e (omega arith) p)
    place false q2 k2 b2 =
        let h = heap_down-ok (length q2.heap) i q2 k2 b2 in
        (h.0, h.1, h.2, λ n e p. h.3 n e (omega (arith, e)) p)
