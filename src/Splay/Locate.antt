-- ===== src/Splay/Locate.antt =====
-- Pointers into a splay tree: the node of a key, and where `SplayNode` puts it.
use nexuslb.Prelude.{
  ℕ, ◌≡◌, refl, ap, ◌∙◌, Bool, true, false, ◌||◌, Option, none, some, List, [], ◌∷◌, ◌==◌, ==_iff,
  arith, contains, if◌then◌else◌,
}
use nexuslb.Splay.Tree.{
  Tree, leaf, node, left, right, Side, Frame, Loc, attach, plug, rotate_at, rotate_node,
  rotate_parent, splay_step, splay_loop, splay_node, update_node_size, locate, splay_key, or_else,
  down_left, down_right,
}
use nexuslb.Splay.Contents.{keys, contains-keys-append}
use nexuslb.Splay.Order.{
  to_list, IsNode, IsNode-splay_step, to_list-rotate_node, to_list-splay_node,
}

module _ {ℓ} {V : Type ℓ} where
  -- What a pointer leads to stands in the tree, with that key.
  abbrev pub Located : ℕ → Tree V → Option (Loc V) → Type ℓ
  Located q whole none = Unit
  Located q whole (some (leaf, p)) = (plug leaf p ≡ whole) × ⊥
  Located q whole (some (node s l k v r, p)) = (k ≡ q) × (plug (node s l k v r) p ≡ whole)

  or_else-Located :
      (q : ℕ) (whole : Tree V) (a b : Option (Loc V))
      → Located q whole a
      → Located q whole b
      → Located q whole (or_else a b)
  or_else-Located q whole none b ha hb = hb
  or_else-Located q whole (some (leaf, p)) b ha hb = ha
  or_else-Located q whole (some (node s l k v r, p)) b ha hb = ha

  pub locate-Located :
      (q : ℕ) (t : Tree V) (p : List (Frame V)) → Located q (plug t p) (locate q t p)
  unfolding locate plug attach
  locate-Located q leaf p = tt
  locate-Located q (node s l k v r) p =
      or_else-Located q (plug (node s l k v r) p) _ _ (locate-Located q l (down_left s k v r ∷ p))
        (here (k == q) refl (locate-Located q r (down_right s l k v ∷ p)))
    where
      here :
          (b : Bool)
          → (k == q) ≡ b
          → Located q (plug (node s l k v r) p) (locate q r (down_right s l k v ∷ p))
          → Located q
              (plug (node s l k v r) p)
              (if b then some (node s l k v r, p) else locate q r (down_right s l k v ∷ p))
      here true e h = ((==_iff k q).0 e, refl)
      here false e h = h

  abbrev pub is_some : Option (Loc V) → Bool
  is_some none = false
  is_some (some x) = true

  is_some-or_else : (a b : Option (Loc V)) → is_some (or_else a b) ≡ (is_some a || is_some b)
  is_some-or_else none b = refl
  is_some-or_else (some x) b = refl

  -- A pointer to every key of the tree, and to no other.
  pub is_some-locate :
      (q : ℕ) (t : Tree V) (p : List (Frame V))
      → is_some (locate q t p) ≡ contains q (keys (to_list t))
  unfolding locate
  is_some-locate q leaf p = refl
  is_some-locate q (node s l k v r) p = ground (
    arith,
    is_some-or_else (locate q l (down_left s k v r ∷ p))
        (if k == q then some (node s l k v r, p) else locate q r (down_right s l k v ∷ p)),
    is_some-locate q l (down_left s k v r ∷ p),
    is_some-locate q r (down_right s l k v ∷ p),
    contains-keys-append q (to_list l) ((k, v) ∷ to_list r),
  )

  -- `SplayNode` of a pointer: the same entries, with the node at the root.
  pub to_list-splay_key : (q : ℕ) (t : Tree V) → to_list (splay_key q t) ≡ to_list t
  unfolding splay_key plug
  to_list-splay_key q t = by_loc (locate q t []) (locate-Located q t [])
    where
      by_loc :
          (o : Option (Loc V))
          → Located q t o
          → to_list (elim o [ none ↦ t | some (x, p) ↦ splay_node x p ]) ≡ to_list t
      by_loc none h = refl
      by_loc (some (leaf, p)) h = absurd h.1
      by_loc (some (node s l k v r, p)) h = to_list-splay_node (node s l k v r) p ∙ ap to_list h.1

  -- The entry at the root.
  abbrev pub root_entry : Tree V → Option (ℕ × V)
  root_entry leaf = none
  root_entry (node s l k v r) = some (k, v)

  root_entry-rotate_node :
      (x : Tree V) (f : Frame V) → IsNode x → root_entry (rotate_node x f) ≡ root_entry x
  unfolding rotate_node
  root_entry-rotate_node leaf f h = absurd h
  root_entry-rotate_node (node s l k v r) f h = by_side f.side
    where
      by_side :
          (d : Side) → root_entry (rotate_at d f.key f.value (node s l k v r) f.other) ≡ some (k, v)
      by_side left = refl
      by_side right = refl

  root_entry-splay_step :
      (d e : Side) (x : Tree V) (f g : Frame V)
      → IsNode x
      → root_entry (splay_step d e x f g) ≡ root_entry x
  unfolding splay_step
  root_entry-splay_step left left x f g h = root_entry-rotate_node x (rotate_parent f g) h
  root_entry-splay_step right right x f g h = root_entry-rotate_node x (rotate_parent f g) h
  root_entry-splay_step left right x f g h =
      root_entry-rotate_node (rotate_node x f) g (to_list-rotate_node x f h).0
      ∙ root_entry-rotate_node x f h
  root_entry-splay_step right left x f g h =
      root_entry-rotate_node (rotate_node x f) g (to_list-rotate_node x f h).0
      ∙ root_entry-rotate_node x f h

  root_entry-splay_loop :
      (x : Tree V) (p : List (Frame V)) → IsNode x → root_entry (splay_loop x p) ≡ root_entry x
  unfolding splay_loop
  root_entry-splay_loop x [] h = refl
  root_entry-splay_loop x (f ∷ []) h = root_entry-rotate_node x f h
  root_entry-splay_loop x (f ∷ g ∷ p) h =
      root_entry-splay_loop (splay_step f.side g.side x f g) p
        (IsNode-splay_step f.side g.side x f g h)
      ∙ root_entry-splay_step f.side g.side x f g h

  root_entry-update_node_size : (t : Tree V) → root_entry (update_node_size t) ≡ root_entry t
  unfolding update_node_size
  root_entry-update_node_size leaf = refl
  root_entry-update_node_size (node s l k v r) = refl

  -- The node that is splayed becomes the root.
  pub root_entry-splay_node :
      (x : Tree V) (p : List (Frame V)) → IsNode x → root_entry (splay_node x p) ≡ root_entry x
  unfolding splay_node
  root_entry-splay_node leaf p h = absurd h
  root_entry-splay_node (node s l k v r) p h =
      root_entry-update_node_size (splay_loop (node s l k v r) p)
      ∙ root_entry-splay_loop (node s l k v r) p tt

  -- A key of the tree stands at the root after `SplayNode`.
  pub root_entry-splay_key :
      (q : ℕ) (t : Tree V)
      → contains q (keys (to_list t)) ≡ true
      → (v : V) × (root_entry (splay_key q t) ≡ some (q, v))
  unfolding splay_key
  root_entry-splay_key q t c =
      by_loc (locate q t []) (locate-Located q t []) (is_some-locate q t [] ∙ c)
    where
      by_loc :
          (o : Option (Loc V))
          → Located q (plug t []) o
          → is_some o ≡ true
          → (v : V) × (root_entry (elim o [ none ↦ t | some (x, p) ↦ splay_node x p ])
              ≡ some (q, v))
      by_loc none h e = cc
      by_loc (some (leaf, p)) h e = absurd h.1
      by_loc (some (node s l k v r, p)) h e =
          (v, root_entry-splay_node (node s l k v r) p tt ∙ ap (λ j. some (j, v)) h.0)
