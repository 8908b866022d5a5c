-- ===== src/Ario/Timers/Back.antt =====
-- The last element of the heap of timerfd.cpp, and its removal.
use nexuslb.Prelude.{
  ℕ, zero, suc, ◌+◌, ◌-◌, ◌<◌, ◌≡◌, refl, ap, ◌∙◌, inl, inr, false, none, some, List, [], ◌∷◌, ◌==◌,
  length, length-set, get_elem?, get_elem?-some, set, set-get, if◌then◌else◌, ok, Bool-cases, arith,
}
use nexuslb.Ario.Timers.{HeapElement, TimerData, TimerFd, put_index, pop_back, drop_back}
use nexuslb.Ario.Timers.Links.{IsLinked, KnowPlaces, HavePlaces, other_timer, self, differ}

pub get-pop_back :
    (h : List HeapElement) (i : ℕ)
    → get_elem? (pop_back h) i ≡ (if i + 1 == length h then none else get_elem? h i)
unfolding pop_back
get-pop_back [] i = ground arith
get-pop_back (x ∷ []) zero = refl
get-pop_back (x ∷ []) (suc i) = ground arith
get-pop_back (x ∷ y ∷ h) zero = ground arith
get-pop_back (x ∷ y ∷ h) (suc i) = get-pop_back (y ∷ h) i ∙ ground arith

pub length-pop_back : (h : List HeapElement) → length (pop_back h) ≡ length h - 1
unfolding pop_back
length-pop_back [] = refl
length-pop_back (x ∷ []) = refl
length-pop_back (x ∷ y ∷ h) = omega (arith, length-pop_back (y ∷ h))

pub drop_back-ok :
    (q : TimerFd)
    → IsLinked q.heap q.timers
    → 0 < length q.heap
    → (q' : TimerFd) × (drop_back q ≡ ok q')
      × IsLinked q'.heap q'.timers
      × (q'.heap ≡ pop_back q.heap)
      × (length q'.heap + 1 ≡ length q.heap)
      × (length q'.timers ≡ length q.timers)
unfolding drop_back put_index
drop_back-ok q k b = (
  record q { heap = pop_back q.heap; timers = ts },
  rw (drop_back, at_last, put_index, d.1),
  (know, have),
  refl,
  omega (arith, length-pop_back q.heap),
  length-set q.timers e.data_at d',
)
  where
    last : ℕ
    last = length q.heap - 1

    e : HeapElement
    e = (get_elem?-some q.heap last (omega arith)).0

    at_last : get_elem? q.heap last ≡ some e
    at_last = (get_elem?-some q.heap last (omega arith)).1

    d : (d : TimerData) × (get_elem? q.timers e.data_at ≡ some d) × (d.heap_index ≡ some last)
    d = k.0 last e at_last

    d' : TimerData
    d' = record d.0 { heap_index = none }

    ts : List TimerData
    ts = set q.timers e.data_at d'

    in_timers :
        (j : ℕ) → get_elem? ts j ≡ (if e.data_at == j then some d' else get_elem? q.timers j)
    in_timers j = set-get q.timers e.data_at j d' d.0 d.1

    know : KnowPlaces (pop_back q.heap) ts
    know i f p = elim (Bool-cases (i + 1 == length q.heap)) [
      | inl z ↦ absurd (cc (get-pop_back q.heap i, z, p))
      | inr z ↦
          let old = k.0 i f (cc (get-pop_back q.heap i, z, p)) in
          let other =
            other_timer q.timers e.data_at f.data_at last i d.0 old.0 d.1 d.2 old.1 old.2
              (ground arith) in
          (old.0, in_timers f.data_at ∙ rw other old.1, old.2)
    ]

    have : HavePlaces (pop_back q.heap) ts
    have j f i p g = elim (Bool-cases (e.data_at == j)) [
      | inl z ↦
          let same : d' ≡ f = cc (in_timers j, z, p) in absurd (cc (ap (λ x. x.heap_index) same, g))
      | inr z ↦
          let old = k.1 j f i (cc (in_timers j, z, p)) g in
          let in_front : (i + 1 == length q.heap) ≡ false = differ (i + 1) (length q.heap) (λ x.
            let here : last ≡ i = omega (arith, x) in
            let same : e ≡ old.0 = cc (at_last, old.1, ap (get_elem? q.heap) here) in
            let hit = ap (λ y. y.data_at == j) same ∙ ap (λ y. y == j) old.2 ∙ self j in
            absurd (cc)) in
          (old.0, get-pop_back q.heap i ∙ rw in_front old.1, old.2)
    ]
