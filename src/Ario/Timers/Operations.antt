-- ===== src/Ario/Timers/Operations.antt =====
-- The operations of timerfd.cpp on linked timers, in any order.
use nexuslb.Prelude.{
  subst, ℕ, zero, suc, ◌+◌, ◌<◌, ◌≡◌, refl, sym, ap, ◌∙◌, ◌⊎◌, inl, inr, Bool, true, false, Option,
  none, some, List, [], ◌∷◌, ◌++◌, map, ◌==◌, ==_iff, length, length-set, length-append, get_elem?,
  get_elem?-some, set, set-get, if◌then◌else◌, ok, undefined, or_fault, ◌>>=◌, Bool-cases, arith,
}
use nexuslb.Ario.Timers.{
  HeapElement, TimerData, TimerFd, ErrorCode, k_cancelled, put_index, heap_up, heap_remove,
  pop_callbacks, enter_heap, enqueue_timer, enter_if_new, add_callback, cancel_at, is_front,
  cancel_timer,
}
use nexuslb.Ario.Timers.Links.{IsLinked, KnowPlaces, HavePlaces, index-in, self, differ}
use nexuslb.Ario.Timers.Order.{IsOrdered, Sorted, pushed-UpAt, timeout_of, time_at}
use nexuslb.Ario.Timers.Moves.{heap_up-ok}
use nexuslb.Ario.Timers.Removal.{heap_remove-ok}

-- New callbacks of a timer change no link.
callbacks-IsLinked :
    (h : List HeapElement) (ts : List TimerData) (k : ℕ) (d : TimerData) (cs : List ℕ)
    → IsLinked h ts
    → get_elem? ts k ≡ some d
    → IsLinked h (set ts k (record d { callbacks = cs }))
callbacks-IsLinked h ts k d cs l e = (know, have)
  where
    d' : TimerData
    d' = record d { callbacks = cs }

    now : (j : ℕ) → get_elem? (set ts k d') j ≡ (if k == j then some d' else get_elem? ts j)
    now j = set-get ts k j d' d e

    know : KnowPlaces h (set ts k d')
    know i f p = let old = l.0 i f p in by_timer i f old (Bool-cases (k == f.data_at))
      where
        by_timer :
            (i : ℕ) (f : HeapElement)
            → (o : TimerData) × (get_elem? ts f.data_at ≡ some o) × (o.heap_index ≡ some i)
            → ((k == f.data_at) ≡ true) ⊎ ((k == f.data_at) ≡ false)
            → (o : TimerData) × (get_elem? (set ts k d') f.data_at ≡ some o)
              × (o.heap_index ≡ some i)
        by_timer i f old (inl z) =
            let same : d ≡ old.0 = cc (e, old.1, ap (get_elem? ts) ((==_iff k f.data_at).0 z)) in
            (d', now f.data_at ∙ rw z refl, ap (λ x. x.heap_index) same ∙ old.2)
        by_timer i f old (inr z) = (old.0, now f.data_at ∙ rw z old.1, old.2)

    have : HavePlaces h (set ts k d')
    have j f i p g = elim (Bool-cases (k == j)) [
      | inl z ↦
          let same : d' ≡ f = cc (now j, z, p) in
          l.1 j d i (ap (get_elem? ts) (sym ((==_iff k j).0 z)) ∙ e)
            (ap (λ x. x.heap_index) same ∙ g)
      | inr z ↦ l.1 j f i (cc (now j, z, p)) g
    ]

pub pop_callbacks-ok :
    (k : ℕ) (error : ErrorCode) (d : TimerData) (q : TimerFd)
    → IsLinked q.heap q.timers
    → get_elem? q.timers k ≡ some d
    → (n : ℕ) × (q' : TimerFd) × (pop_callbacks k error q ≡ ok (n, q'))
      × IsLinked q'.heap q'.timers
      × (q'.heap ≡ q.heap)
      × (length q'.timers ≡ length q.timers)
unfolding pop_callbacks
pop_callbacks-ok k error d q l e = (
  length d.callbacks,
  record q {
    timers = set q.timers k (record d { callbacks = [] });
    out = q.out ++ map (λ cb. (cb, error)) d.callbacks;
  },
  rw (pop_callbacks, e),
  callbacks-IsLinked q.heap q.timers k d [] l e,
  refl,
  length-set q.timers k (record d { callbacks = [] }),
)

-- The order is the heap's.
pub same_heap : (q' q : TimerFd) → q'.heap ≡ q.heap → Sorted q → Sorted q'
same_heap q' q e so = subst (λ h. IsOrdered (length h) (time_at h)) (sym e) so

-- Links are in order, and all timers are there.
abbrev pub Stays : TimerFd → TimerFd → Type 0
Stays q q' = IsLinked q'.heap q'.timers × (length q'.timers ≡ length q.timers)

pub cancel_timer-ok :
    (k : ℕ) (q : TimerFd)
    → IsLinked q.heap q.timers
    → k < length q.timers
    → (n : ℕ) × (q' : TimerFd) × (cancel_timer k q ≡ ok (n, q'))
      × Stays q q'
      × (Sorted q → Sorted q')
unfolding cancel_timer cancel_at
cancel_timer-ok k q l b =
    let d = get_elem?-some q.timers k b in
    let c = cancel_at-ok d.0 d.0.heap_index refl d.1 in
    (
      c.0,
      c.1,
      ap (λ x. or_fault x undefined >>= λ y. cancel_at k y.heap_index q) d.1 ∙ c.2,
      c.3,
      c.4,
    )
  where
    cancel_at-ok :
        (d : TimerData) (o : Option ℕ)
        → d.heap_index ≡ o
        → get_elem? q.timers k ≡ some d
        → (n : ℕ) × (q' : TimerFd) × (cancel_at k o q ≡ ok (n, q'))
          × Stays q q'
          × (Sorted q → Sorted q')
    cancel_at-ok d none e f = (0, q, refl, (l, refl), λ so. so)
    cancel_at-ok d (some i) e f =
        let p = pop_callbacks-ok k k_cancelled d q l f in
        let place = l.1 k d i f e in
        let inside : i < length p.1.heap = rw p.4 (index-in q.heap i place.0 place.1) in
        let r = heap_remove-ok i p.1 p.3 inside in
        (
          p.0,
          r.0,
          ap (λ o. o >>= λ x. (heap_remove i x.1 >>= λ y. ok (x.0, y))) p.2
              ∙ ap (λ o. o >>= λ y. ok (p.0, y)) r.1,
          (r.2.0, r.2.2 ∙ p.5),
          λ so. r.3 (same_heap p.1 q p.4 so),
        )

get-push :
    (h : List HeapElement) (e : HeapElement) (i : ℕ)
    → get_elem? (h ++ e ∷ []) i ≡ (if length h == i then some e else get_elem? h i)
get-push [] e zero = refl
get-push [] e (suc i) = ground arith
get-push (x ∷ h) e zero = ground arith
get-push (x ∷ h) e (suc i) = get-push h e i ∙ ground arith

-- A new element at the end of the heap, whose timer was in no place.
push-IsLinked :
    (k timeout : ℕ) (d : TimerData) (q : TimerFd)
    → IsLinked q.heap q.timers
    → get_elem? q.timers k ≡ some d
    → d.heap_index ≡ none
    → IsLinked
        (q.heap ++ record { timeout = timeout; data_at = k } ∷ [])
        (set q.timers k (record d { heap_index = some (length q.heap) }))
push-IsLinked k timeout d q l e n = (know, have)
  where
    d' : TimerData
    d' = record d { heap_index = some (length q.heap) }

    new : HeapElement
    new = record { timeout = timeout; data_at = k }

    now :
        (j : ℕ)
        → get_elem? (set q.timers k d') j ≡ (if k == j then some d' else get_elem? q.timers j)
    now j = set-get q.timers k j d' d e

    know : KnowPlaces (q.heap ++ new ∷ []) (set q.timers k d')
    know i f p = elim (Bool-cases (length q.heap == i)) [
      | inl z ↦
          let same : new ≡ f = cc (get-push q.heap new i, z, p) in
          (
            d',
            ap (λ x. get_elem? (set q.timers k d') x.data_at) (sym same) ∙ now k ∙ rw (self k) refl,
            ap some ((==_iff (length q.heap) i).0 z),
          )
      | inr z ↦
          let old = l.0 i f (cc (get-push q.heap new i, z, p)) in
          let other =
            differ k f.data_at (λ x. cc (e, old.1, ap (get_elem? q.timers) x, old.2, n)) in
          (old.0, now f.data_at ∙ rw other old.1, old.2)
    ]

    have : HavePlaces (q.heap ++ new ∷ []) (set q.timers k d')
    have j f i p g = elim (Bool-cases (k == j)) [
      | inl z ↦
          let same : d' ≡ f = cc (now j, z, p) in
          let place : length q.heap ≡ i = cc (ap (λ x. x.heap_index) same, g) in
          (new, get-push q.heap new i ∙ rw (ap (λ x. x == i) place ∙ self i) refl, (==_iff k j).0 z)
      | inr z ↦
          let old = l.1 j f i (cc (now j, z, p)) g in
          let inside = index-in q.heap i old.0 old.1 in
          let other : (length q.heap == i) ≡ false = ground (arith, inside) in
          (old.0, get-push q.heap new i ∙ rw other old.1, old.2)
    ]

pub enter_if_new-ok :
    (k timeout : ℕ) (d : TimerData) (q : TimerFd) (o : Option ℕ)
    → IsLinked q.heap q.timers
    → get_elem? q.timers k ≡ some d
    → d.heap_index ≡ o
    → (q' : TimerFd) × (enter_if_new k timeout d o q ≡ ok q') × Stays q q' × (Sorted q → Sorted q')
unfolding enter_if_new enter_heap put_index
enter_if_new-ok k timeout d q (some i) l e f = (q, refl, (l, refl), λ so. so)
enter_if_new-ok k timeout d q none l e f =
    let d' = record d { heap_index = some (length q.heap) } in
    let new : HeapElement = record { timeout = timeout; data_at = k } in
    let q1 = record q { heap = q.heap ++ new ∷ []; timers = set q.timers k d' } in
    let more = length-append q.heap (new ∷ []) in
    let up =
      heap_up-ok (length q.heap) (length q.heap) q1 (push-IsLinked k timeout d q l e f)
        (omega (arith, more)) in
    (
      up.0,
      ap
            (λ x.
              (or_fault x undefined >>= λ y. ok (record q {
                heap = q.heap ++ new ∷ [];
                timers = set q.timers k (record y { heap_index = some (length q.heap) });
              }))
              >>= heap_up (length q.heap) (length q.heap))
            e
          ∙ up.1,
      (up.2.0, up.2.2 ∙ length-set q.timers k d'),
      λ so.
          subst (λ x. IsOrdered x (time_at up.0.heap)) (sym (up.2.1 ∙ more))
            (up.3 (length q.heap + 1) more (omega arith) (
              pushed-UpAt (length q.heap) (time_at q.heap) (time_at q1.heap) so (λ j b.
                ap timeout_of {y = get_elem? q.heap j}
                  (get-push q.heap new j ∙ rw (past j b) refl)))),
    )
  where
    past : (j : ℕ) → j < length q.heap → (length q.heap == j) ≡ false
    past j b = ground arith

pub enqueue_timer-ok :
    (k timeout callback : ℕ) (q : TimerFd)
    → IsLinked q.heap q.timers
    → k < length q.timers
    → (b : Bool) × (q' : TimerFd) × (enqueue_timer k timeout callback q ≡ ok (b, q'))
      × Stays q q'
      × (Sorted q → Sorted q')
unfolding enqueue_timer add_callback
enqueue_timer-ok k timeout callback q l b =
    let d = get_elem?-some q.timers k b in
    let n = enter_if_new-ok k timeout d.0 q d.0.heap_index l d.1 refl in
    let d1 = get_elem?-some n.0.timers k (omega (arith, n.2.1)) in
    let cs = d1.0.callbacks ++ callback ∷ [] in
    let d2 = record d1.0 { callbacks = cs } in
    (
      is_front d2,
      record n.0 { timers = set n.0.timers k d2 },
      ap
            (λ x. or_fault x undefined >>= λ y.
              (enter_if_new k timeout y y.heap_index q >>= add_callback k callback))
            d.1
          ∙ ap (λ o. o >>= add_callback k callback) n.1
          ∙ ap
              (λ x. or_fault x undefined >>= λ y.
                let y' = record y { callbacks = y.callbacks ++ callback ∷ [] } in
                ok (is_front y', record n.0 { timers = set n.0.timers k y' }))
              d1.1,
      (
        callbacks-IsLinked n.0.heap n.0.timers k d1.0 cs n.2.0 d1.1,
        length-set n.0.timers k d2 ∙ n.2.1,
      ),
      n.3,
    )
