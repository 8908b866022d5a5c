-- ===== src/Splay/Contents.antt =====
-- Lists of entries: what a ranked map stands for, and the operations on it that the trees refine.
pub use nexuslb.Prelude.{IsDistinct}
use nexuslb.Prelude.{
  ℕ, suc, ◌+◌, ◌-◌, ◌≤◌, ◌<◌, ◌≡◌, refl, ap, true, false, ◌||◌, Option, none, some, List, [], ◌∷◌,
  ◌++◌, ◌==◌, arith, ltb, leb, contains, if◌then◌else◌, All, All-split, length,
}

module _ {ℓ} {V : Type ℓ} where
  abbrev pub keys : List (ℕ × V) → List ℕ
  keys [] = []
  keys ((k, v) ∷ xs) = k ∷ keys xs

  pub contains-keys-append :
      (q : ℕ) (xs ys : List (ℕ × V))
      → contains q (keys (xs ++ ys)) ≡ (contains q (keys xs) || contains q (keys ys))
  contains-keys-append q [] ys = refl
  contains-keys-append q ((k, v) ∷ xs) ys = ground (arith, contains-keys-append q xs ys)

  -- The entries without the first one of the key.
  abbrev pub erase : ℕ → List (ℕ × V) → List (ℕ × V)
  erase q [] = []
  erase q ((k, v) ∷ xs) = if k == q then xs else (k, v) ∷ erase q xs

  abbrev pub lookup : ℕ → List (ℕ × V) → Option V
  lookup q [] = none
  lookup q ((k, v) ∷ xs) = if k == q then some v else lookup q xs

module _ {ℓ} {V : Type ℓ} where
  pub erase_middle :
      (xs : List (ℕ × V)) (q : ℕ) (v : V) (ys : List (ℕ × V))
      → IsDistinct (keys (xs ++ (q, v) ∷ ys))
      → erase q (xs ++ (q, v) ∷ ys) ≡ xs ++ ys
  erase_middle [] q v ys d = ground arith
  erase_middle ((k, w) ∷ xs) q v ys d =
      ground (arith, erase_middle xs q v ys d.1, contains-keys-append k xs ((q, v) ∷ ys))

  pub contains-middle :
      (xs : List (ℕ × V)) (k : ℕ) (v : V) (ys : List (ℕ × V))
      → contains k (keys (xs ++ (k, v) ∷ ys)) ≡ true
  contains-middle [] k v ys = ground arith
  contains-middle ((j, w) ∷ xs) k v ys = ground (arith, contains-middle xs k v ys)

  -- A distinct key stands in one place.
  pub split_unique :
      (xs xs' : List (ℕ × V)) (k : ℕ) (v v' : V) (ys ys' : List (ℕ × V))
      → IsDistinct (keys (xs ++ (k, v) ∷ ys))
      → xs ++ (k, v) ∷ ys ≡ xs' ++ (k, v') ∷ ys'
      → (xs ≡ xs') × (v ≡ v') × (ys ≡ ys')
  split_unique [] [] k v v' ys ys' d e = (refl, cc, cc)
  split_unique [] ((j, w) ∷ xs') k v v' ys ys' d e =
      let q : ys ≡ xs' ++ (k, v') ∷ ys' = cc in
      cc (d.0, ap (λ l. contains k (keys l)) q, contains-middle xs' k v' ys')
  split_unique ((j, w) ∷ xs) [] k v v' ys ys' d e =
      let q : j ≡ k = cc in
      cc (d.0, ap (λ i. contains i (keys (xs ++ (k, v) ∷ ys))) q, contains-middle xs k v ys)
  split_unique ((j, w) ∷ xs) ((j', w') ∷ xs') k v v' ys ys' d e =
      let rest = split_unique xs xs' k v v' ys ys' d.1 cc in (cc (rest.0), rest.1, rest.2)

  pub contains-erase :
      (k q : ℕ) (xs : List (ℕ × V))
      → IsDistinct (keys xs)
      → contains k (keys (erase q xs)) ≡ (if q == k then false else contains k (keys xs))
  contains-erase k q [] d = ground arith
  contains-erase k q ((j, w) ∷ xs) d = ground (arith, contains-erase k q xs d.1)

  pub IsDistinct-erase :
      (q : ℕ) (xs : List (ℕ × V)) → IsDistinct (keys xs) → IsDistinct (keys (erase q xs))
  IsDistinct-erase q [] d = tt
  IsDistinct-erase q ((k, v) ∷ xs) d =
      ground (arith, IsDistinct-erase q xs d.1, contains-erase k q xs d.1)

  pub length-erase :
      (q : ℕ) (xs : List (ℕ × V))
      → length (erase q xs) ≡ (if contains q (keys xs) then length xs - 1 else length xs)
  length-erase q [] = refl
  length-erase q ((k, v) ∷ xs) = ground (arith, length-erase q xs, contains-pos q xs)
    where
      contains-pos : (q : ℕ) (xs : List (ℕ × V)) → contains q (keys xs) ≡ true → 0 < length xs
      contains-pos q [] h = cc
      contains-pos q ((k, v) ∷ xs) h = omega arith

module _ {ℓ} {V : Type ℓ} (rank_of : V → ℕ) where
  abbrev pub Above : V → List (ℕ × V) → Type 0
  Above v = All (λ e. rank_of v ≤ rank_of e.1)

  abbrev pub Below : V → List (ℕ × V) → Type 0
  Below v = All (λ e. rank_of e.1 ≤ rank_of v)

  -- By value, smallest first.
  abbrev pub IsSorted : List (ℕ × V) → Type 0
  IsSorted [] = Unit
  IsSorted ((k, v) ∷ xs) = Above v xs × IsSorted xs

  -- In front of the first entry with a value at least as large.
  abbrev pub insert_sorted : ℕ → V → List (ℕ × V) → List (ℕ × V)
  insert_sorted k v [] = (k, v) ∷ []
  insert_sorted k v ((j, w) ∷ xs) =
      if ltb (rank_of w) (rank_of v) then (j, w) ∷ insert_sorted k v xs else (k, v) ∷ (j, w) ∷ xs

  pub IsSorted-split :
      (xs : List (ℕ × V)) (k : ℕ) (v : V) (ys : List (ℕ × V))
      → IsSorted (xs ++ (k, v) ∷ ys)
      → IsSorted xs × Below v xs × Above v ys × IsSorted ys
  IsSorted-split [] k v ys h = (tt, tt, h.0, h.1)
  IsSorted-split ((j, w) ∷ xs) k v ys h =
      let s = All-split (λ e. rank_of w ≤ rank_of e.1) xs ((k, v) ∷ ys) h.0 in
      let rest = IsSorted-split xs k v ys h.1 in ((s.0, rest.0), (s.1.0, rest.1), rest.2, rest.3)

  pub insert_sorted-right :
      (k : ℕ) (v : V) (xs : List (ℕ × V)) (j : ℕ) (w : V) (ys : List (ℕ × V))
      → Below w xs
      → rank_of w < rank_of v
      → insert_sorted k v (xs ++ (j, w) ∷ ys) ≡ xs ++ (j, w) ∷ insert_sorted k v ys
  insert_sorted-right k v [] j w ys b h = ground arith
  insert_sorted-right k v ((i, u) ∷ xs) j w ys b h =
      ground (arith, insert_sorted-right k v xs j w ys b.1 h)

  pub insert_sorted-left :
      (k : ℕ) (v : V) (xs : List (ℕ × V)) (j : ℕ) (w : V) (ys : List (ℕ × V))
      → rank_of v ≤ rank_of w
      → insert_sorted k v (xs ++ (j, w) ∷ ys) ≡ insert_sorted k v xs ++ (j, w) ∷ ys
  insert_sorted-left k v [] j w ys h = ground arith
  insert_sorted-left k v ((i, u) ∷ xs) j w ys h = ground (arith, insert_sorted-left k v xs j w ys h)

  pub Above-insert :
      (u : V) (k : ℕ) (v : V) (xs : List (ℕ × V))
      → rank_of u ≤ rank_of v
      → Above u xs
      → Above u (insert_sorted k v xs)
  Above-insert u k v [] h a = (h, tt)
  Above-insert u k v ((j, w) ∷ xs) h a = ground (arith, Above-insert u k v xs h a.1)

  pub Above-mono : (u v : V) (xs : List (ℕ × V)) → rank_of u ≤ rank_of v → Above v xs → Above u xs
  Above-mono u v [] h a = tt
  Above-mono u v ((j, w) ∷ xs) h a = (omega arith, Above-mono u v xs h a.1)

  pub IsSorted-insert :
      (k : ℕ) (v : V) (xs : List (ℕ × V)) → IsSorted xs → IsSorted (insert_sorted k v xs)
  IsSorted-insert k v [] h = (tt, tt)
  IsSorted-insert k v ((j, w) ∷ xs) h =
      ground (arith, IsSorted-insert k v xs h.1, Above-insert w k v xs, Above-mono v w xs)

  Above-erase : (u : V) (q : ℕ) (xs : List (ℕ × V)) → Above u xs → Above u (erase q xs)
  Above-erase u q [] a = tt
  Above-erase u q ((j, w) ∷ xs) a = ground (arith, Above-erase u q xs a.1)

  pub IsSorted-erase : (q : ℕ) (xs : List (ℕ × V)) → IsSorted xs → IsSorted (erase q xs)
  IsSorted-erase q [] h = tt
  IsSorted-erase q ((j, w) ∷ xs) h = ground (arith, IsSorted-erase q xs h.1, Above-erase w q xs h.0)

  pub contains-insert :
      (q k : ℕ) (v : V) (xs : List (ℕ × V))
      → contains q (keys (insert_sorted k v xs)) ≡ (k == q || contains q (keys xs))
  contains-insert q k v [] = refl
  contains-insert q k v ((j, w) ∷ xs) = ground (arith, contains-insert q k v xs)

  pub IsDistinct-insert :
      (k : ℕ) (v : V) (xs : List (ℕ × V))
      → contains k (keys xs) ≡ false
      → IsDistinct (keys xs)
      → IsDistinct (keys (insert_sorted k v xs))
  IsDistinct-insert k v [] c d = (refl, tt)
  IsDistinct-insert k v ((j, w) ∷ xs) c d =
      ground (arith, IsDistinct-insert k v xs, contains-insert j k v xs)

  pub length-insert :
      (k : ℕ) (v : V) (xs : List (ℕ × V)) → length (insert_sorted k v xs) ≡ suc (length xs)
  length-insert k v [] = refl
  length-insert k v ((j, w) ∷ xs) = ground (arith, length-insert k v xs)

  -- How many values are at most `ck`.
  abbrev pub count_le : ℕ → List (ℕ × V) → ℕ
  count_le ck [] = 0
  count_le ck ((k, v) ∷ xs) = if leb (rank_of v) ck then suc (count_le ck xs) else count_le ck xs

  pub count_le-right :
      (ck : ℕ) (xs : List (ℕ × V)) (k : ℕ) (v : V) (ys : List (ℕ × V))
      → Below v xs
      → rank_of v ≤ ck
      → count_le ck (xs ++ (k, v) ∷ ys) ≡ length xs + 1 + count_le ck ys
  count_le-right ck [] k v ys b h = ground arith
  count_le-right ck ((j, w) ∷ xs) k v ys b h = ground (arith, count_le-right ck xs k v ys b.1 h)

  count_le-Above :
      (ck : ℕ) (v : V) (ys : List (ℕ × V)) → Above v ys → ck < rank_of v → count_le ck ys ≡ 0
  count_le-Above ck v [] a h = refl
  count_le-Above ck v ((j, w) ∷ ys) a h = ground (arith, count_le-Above ck v ys a.1 h)

  pub count_le-left :
      (ck : ℕ) (xs : List (ℕ × V)) (k : ℕ) (v : V) (ys : List (ℕ × V))
      → Above v ys
      → ck < rank_of v
      → count_le ck (xs ++ (k, v) ∷ ys) ≡ count_le ck xs
  count_le-left ck [] k v ys a h = ground (arith, count_le-Above ck v ys a h)
  count_le-left ck ((j, w) ∷ xs) k v ys a h = ground (arith, count_le-left ck xs k v ys a h)
