-- ===== src/Splay/Search.antt =====
-- The searches of the splay map by position and by value: `GetNthNode` and `CountLessEqual`, and
-- the way down of `InsertNode`.
use nexuslb.Prelude.{
  ℕ, zero, suc, ◌+◌, ◌-◌, ◌≤◌, ◌<◌, ◌≡◌, refl, sym, ap, ◌∙◌, Option, none, some, List, [], ◌∷◌,
  ◌++◌, arith, append_assoc, append-nil, length, length-append, get_elem?, ltb, leb, ◌==◌,
  Bool-cases, inl, inr, ltb→lt, ltb→le, leb→le, All, All-append,
}
use nexuslb.Splay.Tree.{
  Tree, leaf, node, Loc, Frame, attach, node_size, plug, down_left, down_right,
}
use nexuslb.Splay.Order.{to_list, surround}
use nexuslb.Splay.Contents.{
  IsSorted, Below, Above, IsSorted-split, insert_sorted, insert_sorted-left, insert_sorted-right,
  count_le,
}
use nexuslb.Splay.Size.{IsSizedBelow, IsSizedAround, IsSized-below, node_size-length}
use nexuslb.Splay.Map.{nth, descend, last_le}

module _ {ℓ} {A : Type ℓ} where
  pub get_elem?-append_left :
      (xs ys : List A) (n : ℕ) → n < length xs → get_elem? (xs ++ ys) n ≡ get_elem? xs n
  get_elem?-append_left [] ys n h = elim h [ ]
  get_elem?-append_left (x ∷ xs) ys zero h = refl
  get_elem?-append_left (x ∷ xs) ys (suc n) h = get_elem?-append_left xs ys n (omega arith)

  pub get_elem?-middle :
      (xs : List A) (x : A) (ys : List A) → get_elem? (xs ++ x ∷ ys) (length xs) ≡ some x
  get_elem?-middle [] x ys = refl
  get_elem?-middle (y ∷ xs) x ys = get_elem?-middle xs x ys

  pub get_elem?-append_right :
      (xs : List A) (x : A) (ys : List A) (n : ℕ)
      → length xs < n
      → get_elem? (xs ++ x ∷ ys) n ≡ get_elem? ys (n - (length xs + 1))
  get_elem?-append_right [] x ys zero h = elim h [ ]
  get_elem?-append_right [] x ys (suc n) h = ap (get_elem? ys) (omega arith)
  get_elem?-append_right (y ∷ xs) x ys zero h = absurd (omega arith)
  get_elem?-append_right (y ∷ xs) x ys (suc n) h =
      get_elem?-append_right xs x ys n (omega arith) ∙ ap (get_elem? ys) (omega arith)

module _ {ℓ} {V : Type ℓ} where
  -- A pointer to a node of the whole tree, with sizes that are right off the way to the root.
  abbrev pub Points : Tree V → ℕ → V → Option (Loc V) → Type ℓ
  Points whole k v none = (whole ≡ whole) × ⊥
  Points whole k v (some (leaf, p)) = (plug leaf p ≡ whole) × ⊥
  Points whole k v (some (node s l j w r, p)) =
      (plug (node s l j w r) p ≡ whole)
      × ((j ≡ k) × (w ≡ v))
      × (IsSizedBelow (node s l j w r) × IsSizedAround p)

  -- The loop of `GetNthNode` finds the entry at a position, within the tree's size.
  pub nth-Points :
      (t : Tree V) (n : ℕ) (p : List (Frame V))
      → IsSizedBelow t
      → IsSizedAround p
      → n < length (to_list t)
      → (k : ℕ) × (v : V) × (get_elem? (to_list t) n ≡ some (k, v))
        × Points (plug t p) k v (nth t n p)
  unfolding nth plug attach
  nth-Points leaf n p z a h = elim h [ ]
  nth-Points (node s l k v r) n p z a h = elim (Bool-cases (node_size l == n)) [
    | inl here ↦ (
      k,
      v,
      ap (get_elem? (to_list l ++ (k, v) ∷ to_list r)) (ground (arith, sl))
          ∙ get_elem?-middle (to_list l) (k, v) (to_list r),
      rw (here, nth) (refl, (refl, refl), (z, a)),
    )
    | inr elsewhere ↦ elim (Bool-cases (ltb n (node_size l))) [
      | inl lt ↦
          let rest =
            nth-Points l n (down_left s k v r ∷ p) (IsSized-below l z.0) (z.1, a)
              (omega (arith, ltb→lt, sl)) in
          (
            rest.0,
            rest.1,
            get_elem?-append_left (to_list l) ((k, v) ∷ to_list r) n (omega (arith, ltb→lt, sl))
                ∙ rest.2,
            rw (elsewhere, lt, nth) (rest.3),
          )
      | inr ge ↦
          let big : length (to_list l) < n = ground (arith, sl) in
          let rest =
            nth-Points r (n - (node_size l + 1)) (down_right s l k v ∷ p) (IsSized-below r z.1)
              (z.0, a) (omega (arith, sl, length-append (to_list l) ((k, v) ∷ to_list r))) in
          (
            rest.0,
            rest.1,
            get_elem?-append_right (to_list l) (k, v) (to_list r) n big
                ∙ ap (λ i. get_elem? (to_list r) (n - (i + 1))) (sym sl)
                ∙ rest.2,
            rw (elsewhere, ge, nth) (rest.3),
          )
    ]
  ]
    where
      sl : node_size l ≡ length (to_list l)
      sl = node_size-length l z.0

module _ {ℓ} {V : Type ℓ} (rank_of : V → ℕ) where
  -- `InsertNode` hangs the new node where the sorted list has its place.
  pub surround-descend :
      (k : ℕ) (v : V) (t : Tree V) (p : List (Frame V))
      → IsSorted rank_of (to_list t)
      → surround ((k, v) ∷ []) (descend rank_of (rank_of v) t p)
        ≡ surround (insert_sorted rank_of k v (to_list t)) p
  unfolding descend
  surround-descend k v leaf p s = refl
  surround-descend k v (node c l j w r) p s = elim (Bool-cases (ltb (rank_of w) (rank_of v))) [
    | inl lt ↦
        rw (lt, descend)
          (surround-descend k v r (down_right c l j w ∷ p) parts.3
            ∙ ap (λ xs. surround xs p)
                (sym (
                  insert_sorted-right rank_of k v (to_list l) j w (to_list r) parts.1
                    (ltb→lt _ _ lt))))
    | inr ge ↦
        rw (ge, descend)
          (surround-descend k v l (down_left c j w r ∷ p) parts.0
            ∙ ap (λ xs. surround xs p)
                (sym (insert_sorted-left rank_of k v (to_list l) j w (to_list r) (ltb→le _ _ ge))))
  ]
    where
      parts :
          IsSorted rank_of (to_list l)
          × Below rank_of w (to_list l)
          × Above rank_of w (to_list r)
          × IsSorted rank_of (to_list r)
      parts = IsSorted-split rank_of (to_list l) j w (to_list r) s

  pub descend-IsSizedAround :
      (n : ℕ) (t : Tree V) (p : List (Frame V))
      → IsSizedBelow t
      → IsSizedAround p
      → IsSizedAround (descend rank_of n t p)
  unfolding descend
  descend-IsSizedAround n leaf p z a = a
  descend-IsSizedAround n (node c l j w r) p z a = elim (Bool-cases (ltb (rank_of w) n)) [
    | inl lt ↦
        rw (lt, descend)
          (descend-IsSizedAround n r (down_right c l j w ∷ p) (IsSized-below r z.1) (z.0, a))
    | inr ge ↦
        rw (ge, descend)
          (descend-IsSizedAround n l (down_left c j w r ∷ p) (IsSized-below l z.0) (z.1, a))
  ]

  Below-le :
      (ck : ℕ) (v : V) (xs : List (ℕ × V))
      → rank_of v ≤ ck
      → Below rank_of v xs
      → All (λ e. rank_of e.1 ≤ ck) xs
  Below-le ck v [] h b = tt
  Below-le ck v (x ∷ xs) h b = (omega arith, Below-le ck v xs h b.1)

  Above-lt :
      (ck : ℕ) (v : V) (xs : List (ℕ × V))
      → ck < rank_of v
      → Above rank_of v xs
      → All (λ e. ck < rank_of e.1) xs
  Above-lt ck v [] h a = tt
  Above-lt ck v (x ∷ xs) h a = (omega arith, Above-lt ck v xs h a.1)

  -- The last of the entries seen so far, as a pointer.
  abbrev pub LastOf : Tree V → List (ℕ × V) → Option (Loc V) → Type ℓ
  LastOf whole seen none = seen ≡ []
  LastOf whole seen (some (leaf, p)) = (plug leaf p ≡ whole) × ⊥
  LastOf whole seen (some (node s l k v r, p)) =
      (plug (node s l k v r) p ≡ whole)
      × ((xs : List (ℕ × V)) × (seen ≡ xs ++ (k, v) ∷ []))
      × (IsSizedBelow (node s l k v r) × IsSizedAround p)

  -- `CountLessEqual` walks along the border between the values up to `ck` and the larger ones.
  pub last_le-LastOf :
      (ck : ℕ) (t : Tree V) (p : List (Frame V)) (y : Option (Loc V)) (pre post : List (ℕ × V))
      → IsSizedBelow t
      → IsSizedAround p
      → IsSorted rank_of (to_list t)
      → LastOf (plug t p) pre y
      → to_list (plug t p) ≡ pre ++ to_list t ++ post
      → All (λ e. rank_of e.1 ≤ ck) pre
      → All (λ e. ck < rank_of e.1) post
      → (seen : List (ℕ × V)) × (rest : List (ℕ × V)) × LastOf
          (plug t p)
          seen
          (last_le rank_of ck t p y)
        × (to_list (plug t p) ≡ seen ++ rest)
        × All (λ e. rank_of e.1 ≤ ck) seen
        × All (λ e. ck < rank_of e.1) rest
  unfolding last_le plug attach
  last_le-LastOf ck leaf p y pre post z a s h e low high =
      (pre, post, h, e ∙ ap (λ l. l ++ post) (append-nil pre), low, high)
  last_le-LastOf ck (node c l k v r) p y pre post z a s h e low high =
      elim (Bool-cases (leb (rank_of v) ck)) [
        | inl le ↦
            rw (le, last_le)
              (last_le-LastOf ck r (down_right c l k v ∷ p) (some (node c l k v r, p))
                (pre ++ to_list l ++ (k, v) ∷ []) post (IsSized-below r z.1) (z.0, a) parts.3
                (refl, (pre ++ to_list l, refl), (z, a)) (e ∙ simp append_assoc)
                (All-append (λ e. rank_of e.1 ≤ ck) (pre ++ to_list l) ((k, v) ∷ [])
                  (All-append (λ e. rank_of e.1 ≤ ck) pre (to_list l) low
                    (Below-le ck v (to_list l) (leb→le _ _ le) parts.1))
                  (leb→le _ _ le, tt))
                high)
        | inr gt ↦
            let gtb : ck < rank_of v = ground arith in
            rw (gt, last_le)
              (last_le-LastOf ck l (down_left c k v r ∷ p) y pre ((k, v) ∷ to_list r ++ post)
                (IsSized-below l z.0) (z.1, a) parts.0 h (e ∙ simp append_assoc) low
                (
                  gtb,
                  All-append (λ e. ck < rank_of e.1) (to_list r) post
                      (Above-lt ck v (to_list r) gtb parts.2) high,
                ))
      ]
    where
      parts :
          IsSorted rank_of (to_list l)
          × Below rank_of v (to_list l)
          × Above rank_of v (to_list r)
          × IsSorted rank_of (to_list r)
      parts = IsSorted-split rank_of (to_list l) k v (to_list r) s

  -- A list that is split at `ck` has as many values up to `ck` as its first part is long.
  pub count_le-split :
      (ck : ℕ) (xs ys : List (ℕ × V))
      → All (λ e. rank_of e.1 ≤ ck) xs
      → All (λ e. ck < rank_of e.1) ys
      → count_le rank_of ck (xs ++ ys) ≡ length xs
  count_le-split ck [] [] low high = refl
  count_le-split ck [] ((k, v) ∷ ys) low high = ground (arith, count_le-split ck [] ys tt high.1)
  count_le-split ck ((k, v) ∷ xs) ys low high = ground (arith, count_le-split ck xs ys low.1 high)
