-- ===== src/Splay/Values.antt =====
-- The value of a key of a splay map after an operation, for its clients.
use nexuslb.Prelude.{
  is_some, ℕ, ◌+◌, ◌≤◌, ◌<◌, ◌≡◌, refl, sym, ap, ◌∙◌, true, false, none, some, List, [], ◌∷◌, ◌==◌,
  contains, if◌then◌else◌, get_elem?, length, arith, Bool-cases, inl, inr,
}
use nexuslb.Splay.Contents.{
  keys, lookup, erase, insert_sorted, IsDistinct, IsSorted, Above, contains-erase, length-erase,
  length-insert,
}
use nexuslb.Splay.Map.{SplayMap, size, upsert, remove}
use nexuslb.Splay.Refinement.{view, IsValid, remove_lem, upsert_lem}

module _ {ℓ} {V : Type ℓ} where
  pub lookup-absent :
      (q : ℕ) (xs : List (ℕ × V)) → contains q (keys xs) ≡ false → lookup q xs ≡ none
  lookup-absent q [] h = refl
  lookup-absent q ((k, v) ∷ xs) h = ground (arith, lookup-absent q xs)

  pub contains-lookup : (q : ℕ) (xs : List (ℕ × V)) → contains q (keys xs) ≡ is_some (lookup q xs)
  contains-lookup q [] = refl
  contains-lookup q ((k, w) ∷ xs) = ground (arith, contains-lookup q xs)

  lookup-erase :
      (j q : ℕ) (xs : List (ℕ × V))
      → IsDistinct (keys xs)
      → lookup j (erase q xs) ≡ (if q == j then none else lookup j xs)
  lookup-erase j q [] d = ground arith
  lookup-erase j q ((k, v) ∷ xs) d = ground (arith, lookup-erase j q xs d.1, lookup-absent j xs)

  pub remove-absent : (q : ℕ) (m : SplayMap V) → contains q m.map ≡ false → remove q m ≡ m
  unfolding remove
  remove-absent q m h = rw h

  module _ (rank_of : V → ℕ) where
    lookup-insert :
        (j k : ℕ) (v : V) (xs : List (ℕ × V))
        → contains k (keys xs) ≡ false
        → lookup j (insert_sorted rank_of k v xs) ≡ (if k == j then some v else lookup j xs)
    lookup-insert j k v [] h = refl
    lookup-insert j k v ((i, w) ∷ xs) h = ground (arith, lookup-insert j k v xs)

    pub lookup-remove :
        (j q : ℕ) (m : SplayMap V)
        → IsValid rank_of m
        → lookup j (view (remove q m)) ≡ (if q == j then none else lookup j (view m))
    lookup-remove j q m h =
        ap (lookup j) (remove_lem rank_of q m h).0 ∙ lookup-erase j q (view m) h.distinct

    pub lookup-upsert :
        (j k : ℕ) (v : V) (m : SplayMap V)
        → IsValid rank_of m
        → lookup j (view (upsert rank_of k v m)) ≡ (if k == j then some v else lookup j (view m))
    lookup-upsert j k v m h =
        ap (lookup j) (upsert_lem rank_of k v m h).0
        ∙ lookup-insert j k v (erase k (view m))
            (ground (arith, contains-erase k k (view m) h.distinct))
        ∙ ground (arith, lookup-erase j k (view m) h.distinct)

    pub size-upsert :
        (k : ℕ) (v : V) (m : SplayMap V)
        → IsValid rank_of m
        → size (upsert rank_of k v m) ≡ (if contains k m.map then size m else size m + 1)
    unfolding size
    size-upsert k v m h =
        let u = upsert_lem rank_of k v m h in
        ground (
          arith,
          u.1.counted,
          ap length u.0,
          length-insert rank_of k v (erase k (view m)),
          length-erase k (view m),
          h.counted,
          h.keyed k,
          nonempty k m.map,
        )
      where
        nonempty : (q : ℕ) (ks : List ℕ) → contains q ks ≡ true → 0 < length ks
        nonempty q [] e = cc
        nonempty q (j ∷ ks) e = omega arith

    -- The first entry of a sorted list has the smallest value.
    pub first-smallest :
        (xs : List (ℕ × V)) (k j : ℕ) (v w : V)
        → IsSorted rank_of xs
        → get_elem? xs 0 ≡ some (k, v)
        → lookup j xs ≡ some w
        → rank_of v ≤ rank_of w
    first-smallest [] k j v w s e f = absurd (cc)
    first-smallest ((i, u) ∷ xs) k j v w s e f =
        let same : u ≡ v = cc in rw (sym same) (among i u xs j w s.0 f)
      where
        above :
            (u : V) (xs : List (ℕ × V)) (j : ℕ) (w : V)
            → Above rank_of u xs
            → lookup j xs ≡ some w
            → rank_of u ≤ rank_of w
        above u [] j w a f = absurd (cc)
        above u ((i, z) ∷ xs) j w a f = elim (Bool-cases (i == j)) [
          | inl q ↦ let same : z ≡ w = cc in rw (sym same) a.0
          | inr q ↦ above u xs j w a.1 (cc (q, f))
        ]

        among :
            (i : ℕ) (u : V) (xs : List (ℕ × V)) (j : ℕ) (w : V)
            → Above rank_of u xs
            → lookup j ((i, u) ∷ xs) ≡ some w
            → rank_of u ≤ rank_of w
        among i u xs j w a f = elim (Bool-cases (i == j)) [
          | inl q ↦ let here : u ≡ w = cc in rw here (omega arith)
          | inr q ↦ above u xs j w a (cc (q, f))
        ]

    pub first-lookup :
        (xs : List (ℕ × V)) (k : ℕ) (v : V) → get_elem? xs 0 ≡ some (k, v) → lookup k xs ≡ some v
    first-lookup [] k v e = absurd (cc)
    first-lookup ((i, u) ∷ xs) k v e = let same : i ≡ k = cc in ground arith
