-- ===== src/Ario/Timers/Links.antt =====
-- The places of timers in the heap of timerfd.cpp: `heap_index` of TimerData, and the pointers back.
use nexuslb.Prelude.{
  ℕ, zero, suc, ◌<◌, ◌≡◌, ◌≢◌, refl, sym, ap, ◌∙◌, inl, inr, true, false, some, List, [], ◌∷◌, ◌==◌,
  ==_iff, length, length-set, get_elem?, get_elem?-some, set, set-get, if◌then◌else◌, ok,
  Bool-cases, arith,
}
use nexuslb.Ario.Timers.{HeapElement, TimerData, TimerFd, put_index, heap_swap}

-- Each element's timer knows the place of the element.
abbrev pub KnowPlaces : List HeapElement → List TimerData → Type 0
KnowPlaces h ts =
    (i : ℕ) (e : HeapElement)
    → get_elem? h i ≡ some e
    → (d : TimerData) × (get_elem? ts e.data_at ≡ some d) × (d.heap_index ≡ some i)

-- At the place that a timer knows there is the element of the timer.
abbrev pub HavePlaces : List HeapElement → List TimerData → Type 0
HavePlaces h ts =
    (k : ℕ) (d : TimerData) (i : ℕ)
    → get_elem? ts k ≡ some d
    → d.heap_index ≡ some i
    → (e : HeapElement) × (get_elem? h i ≡ some e) × (e.data_at ≡ k)

abbrev pub IsLinked : List HeapElement → List TimerData → Type 0
IsLinked h ts = KnowPlaces h ts × HavePlaces h ts

pub self : (k : ℕ) → (k == k) ≡ true
self k = ground arith

pub differ : (i j : ℕ) → i ≢ j → (i == j) ≡ false
differ i j n = elim (Bool-cases (i == j)) [ inl q ↦ absurd (n ((==_iff i j).0 q)) | inr q ↦ q ]

-- The timer of another place is another timer.
pub other_timer :
    (ts : List TimerData) (k j l i : ℕ) (d d' : TimerData)
    → get_elem? ts k ≡ some d
    → d.heap_index ≡ some l
    → get_elem? ts j ≡ some d'
    → d'.heap_index ≡ some i
    → (l == i) ≡ false
    → (k == j) ≡ false
other_timer ts k j l i d d' e p e' p' n = differ k j (λ same.
    let d≡d' : d ≡ d' = cc (e, e', ap (get_elem? ts) same) in
    let l≡i : l ≡ i = cc (p, p', ap (λ x. x.heap_index) d≡d') in
    let yes : (l == i) ≡ true = ap (λ x. l == x) (sym l≡i) ∙ self l in absurd (cc))

-- Two places after a swap.
module _ (h h' : List HeapElement) (ts ts' : List TimerData) (l r : ℕ) (a b : HeapElement)
    (da db : TimerData) (apart : (l == r) ≡ false) (at_l : get_elem? h l ≡ some a)
    (at_r : get_elem? h r ≡ some b) (of_a : get_elem? ts a.data_at ≡ some da)
    (of_b : get_elem? ts b.data_at ≡ some db) (a_at : da.heap_index ≡ some l)
    (b_at : db.heap_index ≡ some r)
    (in_heap : (k : ℕ)
      → get_elem? h' k ≡ (if r == k then some a else (if l == k then some b else get_elem? h k)))
    (in_timers : (k : ℕ)
      → get_elem? ts' k ≡ (
          if a.data_at == k
          then some (record da { heap_index = some r })
          else (if b.data_at == k
              then some (record db { heap_index = some l })
              else get_elem? ts k))) where
  ab : (a.data_at == b.data_at) ≡ false
  ab = other_timer ts a.data_at b.data_at l r da db of_a a_at of_b b_at apart

  swap-KnowPlaces : IsLinked h ts → KnowPlaces h' ts'
  swap-KnowPlaces k i e f = elim (Bool-cases (r == i)) [
    | inl p ↦
        let same : a ≡ e = cc (in_heap i, f, p) in
        let place : r ≡ i = (==_iff r i).0 p in
        (
          record da { heap_index = some r },
          ap (λ x. get_elem? ts' x.data_at) (sym same)
              ∙ in_timers a.data_at
              ∙ rw (self a.data_at) refl,
          ap some place,
        )
    | inr p ↦ elim (Bool-cases (l == i)) [
      | inl p' ↦
          let same : b ≡ e = cc (in_heap i, f, p, p') in
          let place : l ≡ i = (==_iff l i).0 p' in
          (
            record db { heap_index = some l },
            ap (λ x. get_elem? ts' x.data_at) (sym same)
                ∙ in_timers b.data_at
                ∙ rw (ab, self b.data_at) refl,
            ap some place,
          )
      | inr p' ↦
          let old = k.0 i e (cc (in_heap i, f, p, p')) in
          (
            old.0,
            in_timers e.data_at
                ∙ rw
                    (
                      other_timer ts a.data_at e.data_at l i da old.0 of_a a_at old.1 old.2 p',
                      other_timer ts b.data_at e.data_at r i db old.0 of_b b_at old.1 old.2 p,
                    )
                    old.1,
            old.2,
          )
    ]
  ]

  swap-HavePlaces : IsLinked h ts → HavePlaces h' ts'
  swap-HavePlaces k j d i f g = elim (Bool-cases (a.data_at == j)) [
    | inl p ↦
        let same : record da { heap_index = some r } ≡ d = cc (in_timers j, f, p) in
        let place : r ≡ i = cc (ap (λ x. x.heap_index) same, g) in
        (a, ap (get_elem? h') (sym place) ∙ in_heap r ∙ rw (self r) refl, (==_iff a.data_at j).0 p)
    | inr p ↦ elim (Bool-cases (b.data_at == j)) [
      | inl p' ↦
          let same : record db { heap_index = some l } ≡ d = cc (in_timers j, f, p, p') in
          let place : l ≡ i = cc (ap (λ x. x.heap_index) same, g) in
          (
            b,
            ap (get_elem? h') (sym place)
                ∙ in_heap l
                ∙ rw (differ r l (λ x. cc (apart, self l, ap (λ y. l == y) x)), self l) refl,
            (==_iff b.data_at j).0 p',
          )
      | inr p' ↦
          let before : get_elem? ts j ≡ some d = cc (in_timers j, f, p, p') in
          let old = k.1 j d i before g in
          (
            old.0,
            in_heap i
                ∙ rw
                    (
                      differ r i (λ x.
                          let same : b ≡ old.0 = cc (at_r, old.1, ap (get_elem? h) x) in
                          let hit =
                            ap (λ y. y.data_at == j) same ∙ ap (λ y. y == j) old.2 ∙ self j in
                          absurd (cc)),
                      differ l i (λ x.
                          let same : a ≡ old.0 = cc (at_l, old.1, ap (get_elem? h) x) in
                          let hit =
                            ap (λ y. y.data_at == j) same ∙ ap (λ y. y == j) old.2 ∙ self j in
                          absurd (cc)),
                    )
                    old.1,
            old.2,
          )
    ]
  ]

pub index-in :
    (h : List HeapElement) (i : ℕ) (e : HeapElement) → get_elem? h i ≡ some e → i < length h
index-in [] i e f = absurd (cc)
index-in (x ∷ h) zero e f = omega arith
index-in (x ∷ h) (suc i) e f = omega (arith, index-in h i e f)

-- What a move in the heap leaves: links, and the numbers of elements and timers.
abbrev pub Kept : TimerFd → TimerFd → Type 0
Kept q q' =
    IsLinked q'.heap q'.timers
    × (length q'.heap ≡ length q.heap)
    × (length q'.timers ≡ length q.timers)

-- The elements of two places are swapped.
abbrev pub Swapped : ℕ → ℕ → List HeapElement → List HeapElement → Type 0
Swapped l r h h' =
    (j : ℕ)
    → get_elem? h' j
      ≡ (if r == j then get_elem? h l else (if l == j then get_elem? h r else get_elem? h j))

pub heap_swap-ok :
    (l r : ℕ) (q : TimerFd)
    → IsLinked q.heap q.timers
    → l < length q.heap
    → r < length q.heap
    → (l == r) ≡ false
    → (q' : TimerFd) × (heap_swap l r q ≡ ok q') × Kept q q' × Swapped l r q.heap q'.heap
unfolding heap_swap put_index
heap_swap-ok l r q k in_l in_r apart =
    let a = get_elem?-some q.heap l in_l in
    let b = get_elem?-some q.heap r in_r in
    let da = k.0 l a.0 a.1 in
    let db = k.0 r b.0 b.1 in
    let db' = record db.0 { heap_index = some l } in
    let da' = record da.0 { heap_index = some r } in
    let h1 = set q.heap l b.0 in
    let t1 = set q.timers b.0.data_at db' in
    let differs =
      other_timer q.timers b.0.data_at a.0.data_at r l db.0 da.0 db.1 db.2 da.1 da.2
        (differ r l (λ x. cc (apart, self l, ap (λ y. l == y) x))) in
    let still : get_elem? h1 r ≡ some b.0 = set-get q.heap l r b.0 a.0 a.1 ∙ rw apart b.1 in
    let found : get_elem? t1 a.0.data_at ≡ some da.0 =
      set-get q.timers b.0.data_at a.0.data_at db' db.0 db.1 ∙ rw differs da.1 in
    let in_heap : (j : ℕ)
        → get_elem? (set h1 r a.0) j
          ≡ (if r == j then some a.0 else (if l == j then some b.0 else get_elem? q.heap j)) =
      λ j.
        set-get h1 r j a.0 b.0 still
        ∙ ap (λ x. if r == j then some a.0 else x) (set-get q.heap l j b.0 a.0 a.1) in
    let in_timers : (j : ℕ)
        → get_elem? (set t1 a.0.data_at da') j ≡ (
            if a.0.data_at == j
            then some da'
            else (if b.0.data_at == j then some db' else get_elem? q.timers j)) =
      λ j.
        set-get t1 a.0.data_at j da' da.0 found
        ∙ ap (λ x. if a.0.data_at == j then some da' else x)
            (set-get q.timers b.0.data_at j db' db.0 db.1) in
    (
      record q { heap = set h1 r a.0; timers = set t1 a.0.data_at da' },
      rw (heap_swap, a.1, b.1, put_index, db.1, found),
      (
        (
          swap-KnowPlaces q.heap (set h1 r a.0) q.timers (set t1 a.0.data_at da') l r a.0 b.0 da.0
              db.0 apart a.1 b.1 da.1 db.1 da.2 db.2 in_heap in_timers k,
          swap-HavePlaces q.heap (set h1 r a.0) q.timers (set t1 a.0.data_at da') l r a.0 b.0 da.0
              db.0 apart a.1 b.1 da.1 db.1 da.2 db.2 in_heap in_timers k,
        ),
        length-set h1 r a.0 ∙ length-set q.heap l b.0,
        length-set t1 a.0.data_at da' ∙ length-set q.timers b.0.data_at db',
      ),
      (λ j.
          in_heap j
          ∙ ap (λ x. if r == j then x else (if l == j then some b.0 else get_elem? q.heap j))
              (sym a.1)
          ∙ ap
              (λ x.
                if r == j then get_elem? q.heap l else (if l == j then x else get_elem? q.heap j))
              (sym b.1)),
    )
