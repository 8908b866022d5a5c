-- ===== src/Prelude/Lists.antt =====
-- Lists measured and indexed by the native numbers, under the library's names.
use Prim.Native.Nat.{ℕ, zero, suc, ◌+◌, ◌<◌, ◌≤◌}
use mathlib.Core.Path.{◌≡◌, refl, ap}
use mathlib.Core.Bool.{Bool, true, false, ◌||◌}
use mathlib.Core.List.{List, [], ◌∷◌, ◌++◌}
use mathlib.Core.Option.{Option, none, some}
use native.Mathlib.Omega.{arith}
use nexuslb.Prelude.Tests.{◌==◌, if◌then◌else◌}

module _ {ℓ} {A : Type ℓ} where
  abbrev pub length : List A → ℕ
  length [] = 0
  length (x ∷ xs) = suc (length xs)

  abbrev pub get_elem? : List A → ℕ → Option A
  get_elem? [] i = none
  get_elem? (x ∷ xs) zero = some x
  get_elem? (x ∷ xs) (suc i) = get_elem? xs i

  -- A write out of bounds changes nothing.
  abbrev pub set : List A → ℕ → A → List A
  set [] i v = []
  set (x ∷ xs) zero v = v ∷ xs
  set (x ∷ xs) (suc i) v = x ∷ set xs i v

  abbrev pub is_empty : List A → Bool
  is_empty [] = true
  is_empty (x ∷ xs) = false

  pub length-append : (xs ys : List A) → length (xs ++ ys) ≡ length xs + length ys
  length-append [] ys = omega arith
  length-append (x ∷ xs) ys = omega (arith, length-append xs ys)

  pub length-set : (xs : List A) (i : ℕ) (v : A) → length (set xs i v) ≡ length xs
  length-set [] i v = refl
  length-set (x ∷ xs) zero v = refl
  length-set (x ∷ xs) (suc i) v = ap suc (length-set xs i v)

  pub get_elem?-some : (xs : List A) (i : ℕ) → i < length xs → (x : A) × (get_elem? xs i ≡ some x)
  get_elem?-some [] i h = elim h [ ]
  get_elem?-some (x ∷ xs) zero h = (x, refl)
  get_elem?-some (x ∷ xs) (suc i) h = get_elem?-some xs i (omega arith)

  -- How many entries pass a test.
  abbrev pub count : (A → Bool) → List A → ℕ
  count p [] = 0
  count p (x ∷ xs) = if p x then suc (count p xs) else count p xs

  pub count-append : (p : A → Bool) (xs ys : List A) → count p (xs ++ ys) ≡ count p xs + count p ys
  count-append p [] ys = omega arith
  count-append p (x ∷ xs) ys = ground (arith, count-append p xs ys)

  -- Every entry has the property.
  abbrev pub All {μ} : (A → Type μ) → List A → Type μ
  All Good [] = Unit
  All Good (first ∷ others) = Good first × All Good others

  pub All-append {μ} :
      (Good : A → Type μ) (front back : List A)
      → All Good front
      → All Good back
      → All Good (front ++ back)
  All-append Good (x ∷ front) back begins ends =
      (begins.0, All-append Good front back begins.1 ends)
  All-append Good [] back begins ends = ends

  pub All-split {μ} :
      (Good : A → Type μ) (front back : List A)
      → All Good (front ++ back)
      → All Good front × All Good back
  All-split Good (x ∷ front) back all =
      let parts = All-split Good front back all.1 in ((all.0, parts.0), parts.1)
  All-split Good [] back all = (tt, all)

-- Membership of a number, as a test.
abbrev pub contains : ℕ → List ℕ → Bool
contains k [] = false
contains k (j ∷ js) = j == k || contains k js

-- No number stands twice.
abbrev pub IsDistinct : List ℕ → Type 0
IsDistinct [] = Unit
IsDistinct (k ∷ ks) = (contains k ks ≡ false) × IsDistinct ks

module _ {ℓ} {A : Type ℓ} where
  pub set-get :
      (xs : List A) (i j : ℕ) (v w : A)
      → get_elem? xs i ≡ some w
      → get_elem? (set xs i v) j ≡ (if i == j then some v else get_elem? xs j)
  set-get [] i j v w h = cc
  set-get (x ∷ xs) zero zero v w h = refl
  set-get (x ∷ xs) zero (suc j) v w h = ground arith
  set-get (x ∷ xs) (suc i) zero v w h = ground arith
  set-get (x ∷ xs) (suc i) (suc j) v w h = ground (arith, set-get xs i j v w h)

  pub get_elem?-past : (xs : List A) (n : ℕ) → length xs ≤ n → get_elem? xs n ≡ none
  get_elem?-past [] n h = refl
  get_elem?-past (x ∷ xs) zero h = absurd (omega arith)
  get_elem?-past (x ∷ xs) (suc n) h = get_elem?-past xs n (omega arith)

  pub set-set_back :
      (xs : List A) (i : ℕ) (v w : A) → get_elem? xs i ≡ some w → set (set xs i v) i w ≡ xs
  set-set_back [] i v w h = cc
  set-set_back (x ∷ xs) zero v w h = cc
  set-set_back (x ∷ xs) (suc i) v w h = cc (set-set_back xs i v w h)
