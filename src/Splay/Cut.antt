-- ===== src/Splay/Cut.antt =====
-- What `RemoveNode` relies on: the neighbours of a splayed node, and the sizes after a cut.
use nexuslb.Prelude.{
  ℕ, ◌≡◌, sym, ap, subst, ◌∙◌, true, Option, none, some, List, [], ◌∷◌, ◌++◌, arith, contains,
  length,
}
use nexuslb.Splay.Tree.{Tree, leaf, node, Loc, node_size, plug, splay_node, locate, splay_key}
use nexuslb.Splay.Order.{to_list}
use nexuslb.Splay.Contents.{keys, IsDistinct, contains-middle, contains-keys-append, split_unique}
use nexuslb.Splay.Locate.{
  Located, locate-Located, is_some, is_some-locate, to_list-splay_key, root_entry,
  root_entry-splay_key,
}
use nexuslb.Splay.Size.{
  IsSized, IsSizedBelow, IsSizedLoc, locate-IsSizedLoc, splay_node-IsSized, node_size-length,
}
use nexuslb.Splay.Map.{cut_right}

module _ {ℓ} {V : Type ℓ} where
  -- `SplayNode` of a node makes every size exact, the root's included.
  pub splay_key-IsSized :
      (q : ℕ) (t : Tree V)
      → IsSizedBelow t
      → contains q (keys (to_list t)) ≡ true
      → IsSized (splay_key q t)
  unfolding splay_key
  splay_key-IsSized q t h c =
      by_loc (locate q t []) (locate-Located q t []) (locate-IsSizedLoc q t [] h tt)
        (is_some-locate q t [] ∙ c)
    where
      by_loc :
          (o : Option (Loc V))
          → Located q (plug t []) o
          → IsSizedLoc o
          → is_some o ≡ true
          → IsSized (elim o [ none ↦ t | some (x, p) ↦ splay_node x p ])
      by_loc none a b e = cc
      by_loc (some (leaf, p)) a b e = absurd a.1
      by_loc (some (node s l k v r, p)) a b e = splay_node-IsSized (node s l k v r) p tt b.0 b.1

  pub IsDistinct-front :
      (xs ys : List (ℕ × V)) → IsDistinct (keys (xs ++ ys)) → IsDistinct (keys xs)
  IsDistinct-front [] ys d = tt
  IsDistinct-front ((k, v) ∷ xs) ys d =
      ground (arith, contains-keys-append k xs ys, IsDistinct-front xs ys d.1)

  -- The tree of a root, once its entries are known around the root's key.
  unfoldable pub IsCut : Tree V → List (ℕ × V) → ℕ → V → List (ℕ × V) → Type ℓ
  IsCut leaf xs i u ys = (xs ≡ ys) × ⊥
  IsCut (node s l k v r) xs i u ys = (k ≡ i) × (to_list l ≡ xs) × (v ≡ u) × (to_list r ≡ ys)

  pub at_root :
      (t : Tree V) (i : ℕ) (w u : V) (xs ys : List (ℕ × V))
      → IsDistinct (keys (to_list t))
      → root_entry t ≡ some (i, w)
      → to_list t ≡ xs ++ (i, u) ∷ ys
      → IsCut t xs i u ys
  unfolding IsCut
  at_root leaf i w u xs ys d e h = absurd (cc)
  at_root (node s l k v r) i w u xs ys d e h =
      let q : k ≡ i = cc in
      let rest =
        split_unique (to_list l) xs k v u (to_list r) ys d
          (h ∙ ap (λ j. xs ++ (j, u) ∷ ys) (sym q)) in
      (q, rest.0, rest.1, rest.2)

  -- After `SplayNode` of the key of one entry, the entries before it and after it.
  pub splay_key-IsCut :
      (t : Tree V) (i : ℕ) (u : V) (xs ys : List (ℕ × V))
      → IsDistinct (keys (to_list t))
      → to_list t ≡ xs ++ (i, u) ∷ ys
      → IsCut (splay_key i t) xs i u ys
  splay_key-IsCut t i u xs ys d h =
      let c : contains i (keys (to_list t)) ≡ true =
        ap (λ l. contains i (keys l)) h ∙ contains-middle xs i u ys in
      let root = root_entry-splay_key i t c in
      at_root (splay_key i t) i root.0 u xs ys
        (subst (λ l. IsDistinct (keys l)) (sym (to_list-splay_key i t)) d) root.1
        (to_list-splay_key i t ∙ h)

  -- Cutting `x` off the right of `prev`.
  pub to_list-cut_right :
      (t : Tree V) (i : ℕ) (u : V) (xs ys : List (ℕ × V))
      → IsCut t xs i u ys
      → to_list (cut_right t) ≡ xs ++ (i, u) ∷ []
  unfolding cut_right IsCut
  to_list-cut_right leaf i u xs ys h = absurd h.1
  to_list-cut_right (node s l k v r) i u xs ys h = cc (h.0, h.1, h.2)

  pub cut_right-IsSized :
      (t : Tree V) (i : ℕ) (u : V) (xs : List (ℕ × V)) (x : ℕ × V)
      → IsCut t xs i u (x ∷ [])
      → IsSized t
      → IsSized (cut_right t)
  unfolding cut_right IsCut node_size
  cut_right-IsSized leaf i u xs x h z = tt
  cut_right-IsSized (node s l k v r) i u xs x h z =
      (omega (arith, node_size-length r z.2, ap length h.3), z.1, tt)
