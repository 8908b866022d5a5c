-- ===== src/Ario/Timers/Order.antt =====
-- The order of the heap of timerfd.cpp through `HeapUp` and `HeapDown`.
use nexuslb.Prelude.{
  length, Option, none, Bool, get_elem?, ℕ, zero, suc, ◌+◌, ◌-◌, ◌/◌, ◌<◌, ◌≤◌, ◌≡◌, ◌≢◌, refl, ap,
  ◌∙◌, inl, inr, true, false, some, List, ◌==◌, ==_iff, if◌then◌else◌, arith, Bool-cases,
}
use nexuslb.Ario.Timers.{HeapElement, TimerFd}
use nexuslb.Ario.Timers.Links.{Swapped, index-in}

abbrev pub parent : ℕ → ℕ
parent i = (i - 1) / 2

-- No element of the first `n` is earlier than its parent.
abbrev pub IsOrdered : ℕ → (ℕ → ℕ) → Type 0
IsOrdered n t = (i : ℕ) → 0 < i → i < n → t (parent i) ≤ t i

-- In order but for the place `j`: around it, and from its parent to its children.
abbrev pub HoleAt : ℕ → ℕ → (ℕ → ℕ) → Type 0
HoleAt n j t =
    ((i : ℕ) → 0 < i → i < n → i ≢ j → parent i ≢ j → t (parent i) ≤ t i)
    × ((i : ℕ) → 0 < i → i < n → parent i ≡ j → 0 < j → t (parent j) ≤ t i)

-- What `HeapUp` expects at a place: nothing below it is earlier.
abbrev pub UpAt : ℕ → ℕ → (ℕ → ℕ) → Type 0
UpAt n j t = HoleAt n j t × ((i : ℕ) → 0 < i → i < n → parent i ≡ j → t j ≤ t i)

-- What `HeapDown` expects: the parent is not later.
abbrev pub DownAt : ℕ → ℕ → (ℕ → ℕ) → Type 0
DownAt n j t = HoleAt n j t × (0 < j → t (parent j) ≤ t j)

abbrev pub SwapAt : ℕ → ℕ → (ℕ → ℕ) → (ℕ → ℕ) → Type 0
SwapAt l r t t' = (k : ℕ) → t' k ≡ (if r == k then t l else (if l == k then t r else t k))

module _ (n j : ℕ) (t t' : ℕ → ℕ) where
  pub up_done : UpAt n j t → j < n → (0 < j → t (parent j) ≤ t j) → IsOrdered n t
  up_done u b d i pos bound = elim (Bool-cases (i == j)) [
    | inl p ↦ ground (arith, d)
    | inr p ↦ elim (Bool-cases (parent i == j)) [
      | inl q ↦ ground (arith, u.1 i pos bound)
      | inr q ↦ u.0.0 i pos bound (ground arith) (ground arith)
    ]
  ]

  pub up_step :
      UpAt n j t
      → 0 < j
      → j < n
      → t j < t (parent j)
      → SwapAt j (parent j) t t'
      → UpAt n (parent j) t'
  up_step u pos b less sw = ((around, across), below)
    where
      m : ℕ
      m = parent j

      at_m : t' (parent j) ≡ t j
      at_m = ground (arith, sw (parent j))

      at_j : t' j ≡ t (parent j)
      at_j = ground (arith, sw j)

      other : (i : ℕ) → i ≢ j → i ≢ parent j → t' i ≡ t i
      other i p q = ground (arith, sw i)

      top : 0 < parent j → t (parent (parent j)) ≤ t (parent j)
      top y = u.0.0 (parent j) y (omega arith) (omega arith) (omega arith)

      around : (i : ℕ) → 0 < i → i < n → i ≢ parent j → parent i ≢ parent j → t' (parent i) ≤ t' i
      around i p q x y =
          let i≢j : i ≢ j = λ e. y (ap parent e) in
          elim (Bool-cases (parent i == j)) [
            | inl e ↦
                let here : parent i ≡ j = (==_iff (parent i) j).0 e in
                omega (arith, ap t' here, at_j, other i i≢j x, u.0.1 i p q here pos)
            | inr e ↦
                let there : parent i ≢ j = ground arith in
                omega (arith, other (parent i) there y, other i i≢j x, u.0.0 i p q i≢j there)
          ]

      across :
          (i : ℕ)
          → 0 < i
          → i < n
          → parent i ≡ parent j
          → 0 < parent j
          → t' (parent (parent j)) ≤ t' i
      across i p q x y =
          let above = other (parent (parent j)) (omega arith) (omega arith) in
          elim (Bool-cases (i == j)) [
            | inl e ↦
                let here : i ≡ j = (==_iff i j).0 e in omega (arith, ap t' here, at_j, above, top y)
            | inr e ↦
                let there : i ≢ j = ground arith in
                omega (
                  arith,
                  above,
                  top y,
                  ap t x,
                  other i there (omega arith),
                  u.0.0 i p q there (omega arith),
                )
          ]

      below : (i : ℕ) → 0 < i → i < n → parent i ≡ parent j → t' (parent j) ≤ t' i
      below i p q x = elim (Bool-cases (i == j)) [
        | inl e ↦ let here : i ≡ j = (==_iff i j).0 e in omega (arith, ap t' here, at_j, at_m)
        | inr e ↦
            let there : i ≢ j = ground arith in
            omega
              (arith, at_m, ap t x, other i there (omega arith), u.0.0 i p q there (omega arith))
      ]

  pub down_done :
      DownAt n j t → j < n → ((i : ℕ) → 0 < i → i < n → parent i ≡ j → t j ≤ t i) → IsOrdered n t
  down_done u b c i pos bound = elim (Bool-cases (i == j)) [
    | inl p ↦ ground (arith, u.1)
    | inr p ↦ elim (Bool-cases (parent i == j)) [
      | inl q ↦ ground (arith, c i pos bound)
      | inr q ↦ u.0.0 i pos bound (ground arith) (ground arith)
    ]
  ]

  -- The smaller child goes up.
  pub down_step :
      (c : ℕ)
      → DownAt n j t
      → 0 < c
      → c < n
      → parent c ≡ j
      → t c ≤ t j
      → ((i : ℕ) → 0 < i → i < n → parent i ≡ j → t c ≤ t i)
      → SwapAt j c t t'
      → DownAt n c t'
  down_step c u pos b up less least sw = ((around, across), above)
    where
      at_c : t' c ≡ t j
      at_c = ground (arith, sw c)

      at_j : t' j ≡ t c
      at_j = ground (arith, sw j)

      other : (i : ℕ) → i ≢ j → i ≢ c → t' i ≡ t i
      other i p q = ground (arith, sw i)

      above : 0 < c → t' (parent c) ≤ t' c
      above p = omega (arith, ap t' up, at_j, at_c)

      across : (i : ℕ) → 0 < i → i < n → parent i ≡ c → 0 < c → t' (parent c) ≤ t' i
      across i p q x y = omega (
        arith,
        ap t' up,
        at_j,
        ap t x,
        other i (omega arith) (omega arith),
        u.0.0 i p q (omega arith) (omega arith),
      )

      around : (i : ℕ) → 0 < i → i < n → i ≢ c → parent i ≢ c → t' (parent i) ≤ t' i
      around i p q x y = elim (Bool-cases (i == j)) [
        | inl e ↦
            let here : i ≡ j = (==_iff i j).0 e in
            let pos_j : 0 < j = omega arith in
            omega (
              arith,
              ap t' here,
              at_j,
              ap (λ k. t' (parent k)) here,
              other (parent j) (omega arith) (omega arith),
              u.0.1 c pos b up pos_j,
            )
        | inr e ↦
            let there : i ≢ j = ground arith in
            elim (Bool-cases (parent i == j)) [
              | inl f ↦
                  let child : parent i ≡ j = (==_iff (parent i) j).0 f in
                  omega (arith, ap t' child, at_j, other i there x, least i p q child)
              | inr f ↦
                  let apart : parent i ≢ j = ground arith in
                  omega (arith, other (parent i) apart y, other i there x, u.0.0 i p q there apart)
            ]
      ]

abbrev pub timeout_of : Option HeapElement → ℕ
timeout_of none = 0
timeout_of (some e) = e.timeout

-- The time of a place of the heap.
abbrev pub time_at : List HeapElement → ℕ → ℕ
time_at h i = timeout_of (get_elem? h i)

pub Swapped-SwapAt :
    (l r : ℕ) (h h' : List HeapElement) → Swapped l r h h' → SwapAt l r (time_at h) (time_at h')
Swapped-SwapAt l r h h' s k = ap timeout_of (s k) ∙ by_place (r == k) (l == k)
  where
    by_place :
        (x y : Bool)
        → timeout_of (if x then get_elem? h l else (if y then get_elem? h r else get_elem? h k))
          ≡ (if x then time_at h l else (if y then time_at h r else time_at h k))
    by_place true y = refl
    by_place false true = refl
    by_place false false = refl

-- The heap is in order.
abbrev pub Sorted : TimerFd → Type 0
Sorted q = IsOrdered (length q.heap) (time_at q.heap)

-- A heap without its last place, and with another time in one place.
module _ (n i x : ℕ) (t t' : ℕ → ℕ) (old : IsOrdered (n + 1) t)
    (changed : (k : ℕ) → k < n → t' k ≡ (if i == k then x else t k)) where
  same_time : (k : ℕ) → k < n → k ≢ i → t' k ≡ t k
  same_time k b d = ground (arith, changed k b)

  hole_left : HoleAt n i t'
  hole_left = (
    (λ k pos b d e.
        omega
          (arith, same_time k b d, same_time (parent k) (omega arith) e, old k pos (omega arith))),
    (λ k pos b c inner. omega (
      arith,
      same_time k b (omega arith),
      same_time (parent i) (omega arith) (omega arith),
      ap t c,
      old k pos (omega arith),
      old i inner (omega arith),
    )),
  )

  pub removed-UpAt : 0 < i → i < n → t' i < t' (parent i) → UpAt n i t'
  removed-UpAt pos b less = (hole_left, λ k p c d. omega (arith, hole_left.1 k p c d pos))

  pub removed-DownAt : (0 < i → t' (parent i) ≤ t' i) → DownAt n i t'
  removed-DownAt d = (hole_left, d)

-- A heap with one more place at the end.
pub pushed-UpAt :
    (n : ℕ) (t t' : ℕ → ℕ) → IsOrdered n t → ((k : ℕ) → k < n → t' k ≡ t k) → UpAt (n + 1) n t'
pushed-UpAt n t t' old same = (
  (
    (λ k pos b d e.
        omega
          (arith, same k (omega arith), same (parent k) (omega arith), old k pos (omega arith))),
    (λ k pos b c inner. absurd (omega arith)),
  ),
  λ k pos b c. absurd (omega arith),
)

root_least : (fuel n i : ℕ) (t : ℕ → ℕ) → IsOrdered n t → i < n → i ≤ fuel → t 0 ≤ t i
root_least zero n i t o b f = let here : i ≡ 0 = omega arith in omega (arith, ap t here)
root_least (suc fuel) n i t o b f = elim (Bool-cases (i == 0)) [
  | inl e ↦ let here : i ≡ 0 = (==_iff i 0).0 e in omega (arith, ap t here)
  | inr e ↦
      let pos : 0 < i = ground arith in
      omega (arith, o i pos b, root_least fuel n (parent i) t o (omega arith) (omega arith))
]

-- The front of a heap in order is the earliest.
pub front_least :
    (q : TimerFd) (i : ℕ) (e f : HeapElement)
    → Sorted q
    → get_elem? q.heap 0 ≡ some f
    → get_elem? q.heap i ≡ some e
    → f.timeout ≤ e.timeout
front_least q i e f so first at = omega (
  arith,
  root_least i (length q.heap) i (time_at q.heap) so (index-in q.heap i e at) (omega arith),
  ap timeout_of first,
  ap timeout_of at,
)
