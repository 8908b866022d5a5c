-- ===== src/Splay/Removal.antt =====
-- `RemoveNode`: the entries and sizes that it leaves. With a successor and no predecessor the code
-- leaves the root's own size one too large; nothing reads it before it is updated.
use nexuslb.Prelude.{
  ℕ, ◌≡◌, ◌≢◌, refl, sym, ap, subst, ◌∙◌, true, Option, none, some, List, [], ◌∷◌, ◌++◌, contains,
  append_assoc, append-nil,
}
use nexuslb.Splay.Tree.{Tree, leaf, node, splay_key, get_min_node, get_max_node}
use nexuslb.Splay.Order.{to_list}
use nexuslb.Splay.Contents.{keys, IsDistinct, contains-middle}
use nexuslb.Splay.Locate.{to_list-splay_key}
use nexuslb.Splay.Size.{IsSized, IsSizedBelow, IsSized-below}
use nexuslb.Splay.Cut.{
  splay_key-IsSized, IsDistinct-front, IsCut, splay_key-IsCut, to_list-cut_right, cut_right-IsSized,
}
use nexuslb.Splay.Map.{
  splay_below_root, splay_succ, splay_prev, cut_right, cut_node, remove_root, remove_node,
}

module _ {ℓ} {V : Type ℓ} where
  -- What `GetMinNode` and `GetMaxNode` find.
  abbrev pub IsFirst : Option ℕ → List (ℕ × V) → Type ℓ
  IsFirst none xs = xs ≡ []
  IsFirst (some j) xs = (w : V) × (rest : List (ℕ × V)) × (xs ≡ (j, w) ∷ rest)

  abbrev pub IsLast : Option ℕ → List (ℕ × V) → Type ℓ
  IsLast none xs = xs ≡ []
  IsLast (some i) xs = (u : V) × (rest : List (ℕ × V)) × (xs ≡ rest ++ (i, u) ∷ [])

  middle-ne-nil : (xs : List (ℕ × V)) (x : ℕ × V) (ys : List (ℕ × V)) → xs ++ x ∷ ys ≢ []
  middle-ne-nil [] x ys e = cc
  middle-ne-nil (y ∷ xs) x ys e = cc

  pub get_min_node-IsFirst : (t : Tree V) → IsFirst (get_min_node t) (to_list t)
  unfolding get_min_node
  get_min_node-IsFirst leaf = refl
  get_min_node-IsFirst (node s leaf k v r) = (v, to_list r, refl)
  get_min_node-IsFirst (node s (node sl ll kl vl rl) k v r) =
      front (get_min_node (node sl ll kl vl rl)) (to_list (node sl ll kl vl rl))
        (get_min_node-IsFirst (node sl ll kl vl rl))
        (middle-ne-nil (to_list ll) (kl, vl) (to_list rl))
    where
      front :
          (o : Option ℕ) (xs : List (ℕ × V))
          → IsFirst o xs
          → xs ≢ []
          → IsFirst o (xs ++ (k, v) ∷ to_list r)
      front none xs h n = absurd (n h)
      front (some j) xs (w, rest, e) n =
          (w, rest ++ (k, v) ∷ to_list r, ap (λ l. l ++ (k, v) ∷ to_list r) e)

  pub get_max_node-IsLast : (t : Tree V) → IsLast (get_max_node t) (to_list t)
  unfolding get_max_node
  get_max_node-IsLast leaf = refl
  get_max_node-IsLast (node s l k v leaf) = (v, to_list l, refl)
  get_max_node-IsLast (node s l k v (node sr lr kr vr rr)) =
      back (get_max_node (node sr lr kr vr rr)) (to_list (node sr lr kr vr rr))
        (get_max_node-IsLast (node sr lr kr vr rr))
        (middle-ne-nil (to_list lr) (kr, vr) (to_list rr))
    where
      back :
          (o : Option ℕ) (xs : List (ℕ × V))
          → IsLast o xs
          → xs ≢ []
          → IsLast o (to_list l ++ (k, v) ∷ xs)
      back none xs h n = absurd (n h)
      back (some i) xs (u, rest, e) n = (
        u,
        to_list l ++ (k, v) ∷ rest,
        ap (λ y. to_list l ++ (k, v) ∷ y) e
            ∙ sym (append_assoc (to_list l) ((k, v) ∷ rest) ((i, u) ∷ [])),
      )

  -- What is left below the root after the cut, and which entries.
  abbrev Leaves : Tree V → List (ℕ × V) → Type ℓ
  Leaves t xs = (to_list t ≡ xs) × IsSizedBelow t

  cut_none-succ :
      (t : Tree V) (j : ℕ) (w : V) (xs rest : List (ℕ × V))
      → IsCut t xs j w rest
      → IsSized t
      → Leaves (cut_node none (some j) t) ((j, w) ∷ rest)
  unfolding cut_node IsCut
  cut_none-succ leaf j w xs rest h z = absurd h.1
  cut_none-succ (node s l k v r) j w xs rest h z = (cc (h.0, h.2, h.3), (tt, z.2))

  cut_prev-none :
      (t : Tree V) (i : ℕ) (u : V) (xs : List (ℕ × V)) (x : ℕ × V)
      → IsCut t xs i u (x ∷ [])
      → IsSized t
      → Leaves (cut_node (some i) none t) (xs ++ (i, u) ∷ [])
  unfolding cut_node cut_right IsCut
  cut_prev-none leaf i u xs x h z = absurd h.1
  cut_prev-none (node s l k v r) i u xs x h z = (cc (h.0, h.1, h.2), (z.1, tt))

  cut_prev-succ :
      (t : Tree V) (i j : ℕ) (u w : V) (xs : List (ℕ × V)) (x : ℕ × V) (rest : List (ℕ × V))
      → IsDistinct (keys (to_list t))
      → IsCut t (xs ++ (i, u) ∷ x ∷ []) j w rest
      → IsSized t
      → Leaves
          (cut_node (some i) (some j) (splay_below_root i t))
          ((xs ++ (i, u) ∷ []) ++ (j, w) ∷ rest)
  unfolding cut_node splay_below_root IsCut
  cut_prev-succ leaf i j u w xs x rest d h z = absurd h.1
  cut_prev-succ (node s l k v r) i j u w xs x rest d h z =
      let dl = IsDistinct-front (to_list l) ((k, v) ∷ to_list r) d in
      let cut = splay_key-IsCut l i u xs (x ∷ []) dl h.1 in
      let c : contains i (keys (to_list l)) ≡ true =
        ap (λ y. contains i (keys y)) h.1 ∙ contains-middle xs i u (x ∷ []) in
      let zl = splay_key-IsSized i l (IsSized-below l z.1) c in
      (
        cc (to_list-cut_right (splay_key i l) i u xs (x ∷ []) cut, h.0, h.2, h.3),
        (cut_right-IsSized (splay_key i l) i u xs x cut zl, z.2),
      )

  splayed-IsSized :
      (t : Tree V) (j : ℕ) (w : V) (xs ys : List (ℕ × V))
      → IsSized t
      → to_list t ≡ xs ++ (j, w) ∷ ys
      → IsSized (splay_key j t)
  splayed-IsSized t j w xs ys z e =
      splay_key-IsSized j t (IsSized-below t z)
        (ap (λ l. contains j (keys l)) e ∙ contains-middle xs j w ys)

  by_ends :
      (prev succ : Option ℕ) (t : Tree V) (k : ℕ) (v : V) (xs ys : List (ℕ × V))
      → IsDistinct (keys (to_list t))
      → to_list t ≡ xs ++ (k, v) ∷ ys
      → IsSized t
      → IsLast prev xs
      → IsFirst succ ys
      → Leaves (cut_node prev succ (splay_prev prev succ (splay_succ succ t))) (xs ++ ys)
  unfolding splay_prev splay_succ cut_node
  by_ends none none t k v xs ys d e z p q = rw (p, q) (cut_all t)
    where
      cut_all : (t : Tree V) → Leaves (cut_node none none t) []
      cut_all leaf = (refl, tt)
      cut_all (node s l k v r) = (refl, tt)
  by_ends none (some j) t k v xs ys d e z p (w, rest, q) =
      let e' : to_list t ≡ ((k, v) ∷ []) ++ (j, w) ∷ rest = rw (p, q) at e in
      rw (p, q)
        (cut_none-succ (splay_key j t) j w ((k, v) ∷ []) rest
          (splay_key-IsCut t j w ((k, v) ∷ []) rest d e')
          (splayed-IsSized t j w ((k, v) ∷ []) rest z e'))
  by_ends (some i) none t k v xs ys d e z (u, front, p) q =
      let e' : to_list t ≡ front ++ (i, u) ∷ (k, v) ∷ [] =
        (rw (p, q) at e) ∙ append_assoc front ((i, u) ∷ []) ((k, v) ∷ []) in
      rw (p, q, append-nil)
        (cut_prev-none (splay_key i t) i u front (k, v)
          (splay_key-IsCut t i u front ((k, v) ∷ []) d e')
          (splayed-IsSized t i u front ((k, v) ∷ []) z e'))
  by_ends (some i) (some j) t k v xs ys d e z (u, front, p) (w, rest, q) =
      let e' : to_list t ≡ (front ++ (i, u) ∷ (k, v) ∷ []) ++ (j, w) ∷ rest =
        (rw (p, q) at e)
        ∙ sym (append_assoc (front ++ (i, u) ∷ []) ((k, v) ∷ []) ((j, w) ∷ rest))
        ∙ ap (λ l. l ++ (j, w) ∷ rest) (append_assoc front ((i, u) ∷ []) ((k, v) ∷ [])) in
      rw (p, q)
        (cut_prev-succ (splay_key j t) i j u w front (k, v) rest
          (subst (λ l. IsDistinct (keys l)) (sym (to_list-splay_key j t)) d)
          (splay_key-IsCut t j w (front ++ (i, u) ∷ (k, v) ∷ []) rest d e')
          (splayed-IsSized t j w (front ++ (i, u) ∷ (k, v) ∷ []) rest z e'))

  remove_root-Leaves :
      (t : Tree V) (q : ℕ) (w v : V) (xs ys : List (ℕ × V))
      → IsDistinct (keys (to_list t))
      → IsSized t
      → IsCut t xs q v ys
      → Leaves (remove_root t) (xs ++ ys)
  unfolding remove_root IsCut
  remove_root-Leaves leaf q w v xs ys d z h = absurd h.1
  remove_root-Leaves (node s l k u r) q w v xs ys d z h =
      rw (← h.1, ← h.3)
        (by_ends (get_max_node l) (get_min_node r) (node s l k u r) k u (to_list l) (to_list r) d
          refl z (get_max_node-IsLast l) (get_min_node-IsFirst r))

  -- Removing a key takes out its entry and keeps the others in order.
  pub remove_node-Leaves :
      (q : ℕ) (v : V) (xs ys : List (ℕ × V)) (t : Tree V)
      → IsDistinct (keys (to_list t))
      → IsSizedBelow t
      → to_list t ≡ xs ++ (q, v) ∷ ys
      → (to_list (remove_node q t) ≡ xs ++ ys) × IsSizedBelow (remove_node q t)
  unfolding remove_node
  remove_node-Leaves q v xs ys t d z e =
      remove_root-Leaves (splay_key q t) q v v xs ys
        (subst (λ l. IsDistinct (keys l)) (sym (to_list-splay_key q t)) d)
        (splay_key-IsSized q t z (ap (λ l. contains q (keys l)) e ∙ contains-middle xs q v ys))
        (splay_key-IsCut t q v xs ys d e)
