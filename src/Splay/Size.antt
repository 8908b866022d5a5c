-- ===== src/Splay/Size.antt =====
-- The stored sizes of a splay tree, which `InsertNode` and the rotations leave stale on the way.
use nexuslb.Prelude.{
  ℕ, ◌+◌, ◌≡◌, refl, Option, none, some, List, [], ◌∷◌, arith, length, length-append, if◌then◌else◌,
  ◌==◌, Bool, true, false,
}
use nexuslb.Splay.Tree.{
  Tree, leaf, node, left, right, Side, Frame, Loc, node_size, rotate_at, rotate_node, rotate_other,
  rotate_parent, splay_step, splay_loop, splay_node, update_node_size, locate, or_else, down_left,
  down_right,
}
use nexuslb.Splay.Order.{to_list, IsNode}

module _ {ℓ} {V : Type ℓ} where
  -- Every stored size counts the nodes below.
  abbrev pub IsSized : Tree V → Type 0
  IsSized leaf = Unit
  IsSized (node s l k v r) = (s ≡ 1 + node_size l + node_size r) × IsSized l × IsSized r

  -- The same below the root, whose own size may be stale.
  abbrev pub IsSizedBelow : Tree V → Type 0
  IsSizedBelow leaf = Unit
  IsSizedBelow (node s l k v r) = IsSized l × IsSized r

  -- The subtrees that hang off the way to the root. The sizes on the way may be stale.
  abbrev pub IsSizedAround : List (Frame V) → Type 0
  IsSizedAround [] = Unit
  IsSizedAround (f ∷ p) = IsSized f.other × IsSizedAround p

  pub IsSized-below : (t : Tree V) → IsSized t → IsSizedBelow t
  IsSized-below leaf h = tt
  IsSized-below (node s l k v r) h = (h.1, h.2)

  pub node_size-length : (t : Tree V) → IsSized t → node_size t ≡ length (to_list t)
  unfolding node_size
  node_size-length leaf h = refl
  node_size-length (node s l k v r) h = omega (
    arith,
    node_size-length l h.1,
    node_size-length r h.2,
    length-append (to_list l) ((k, v) ∷ to_list r),
  )

  rotate_at-IsSizedBelow :
      (d : Side) (k : ℕ) (v : V) (x other : Tree V)
      → IsSizedBelow x
      → IsSized other
      → IsSizedBelow (rotate_at d k v x other)
  unfolding rotate_at
  rotate_at-IsSizedBelow d k v leaf other h o = tt
  rotate_at-IsSizedBelow left k v (node s l k' v' r) other h o = (h.0, (refl, h.1, o))
  rotate_at-IsSizedBelow right k v (node s l k' v' r) other h o = ((refl, o, h.0), h.1)

  rotate_node-IsSizedBelow :
      (x : Tree V) (f : Frame V) → IsSizedBelow x → IsSized f.other → IsSizedBelow (rotate_node x f)
  unfolding rotate_node
  rotate_node-IsSizedBelow x f h o = rotate_at-IsSizedBelow f.side f.key f.value x f.other h o

  rotate_other-IsSized :
      (d : Side) (other : Tree V) (g : Frame V)
      → IsSized other
      → IsSized g.other
      → IsSized (rotate_other d other g)
  unfolding rotate_other
  rotate_other-IsSized left other g h o = (refl, h, o)
  rotate_other-IsSized right other g h o = (refl, o, h)

  rotate_parent-IsSized :
      (f g : Frame V) → IsSized f.other → IsSized g.other → IsSized (rotate_parent f g).other
  unfolding rotate_parent
  rotate_parent-IsSized f g h o = rotate_other-IsSized f.side f.other g h o

  splay_step-IsSizedBelow :
      (d e : Side) (x : Tree V) (f g : Frame V)
      → IsSizedBelow x
      → IsSized f.other
      → IsSized g.other
      → IsSizedBelow (splay_step d e x f g)
  unfolding splay_step
  splay_step-IsSizedBelow left left x f g h o u =
      rotate_node-IsSizedBelow x (rotate_parent f g) h (rotate_parent-IsSized f g o u)
  splay_step-IsSizedBelow right right x f g h o u =
      rotate_node-IsSizedBelow x (rotate_parent f g) h (rotate_parent-IsSized f g o u)
  splay_step-IsSizedBelow left right x f g h o u =
      rotate_node-IsSizedBelow (rotate_node x f) g (rotate_node-IsSizedBelow x f h o) u
  splay_step-IsSizedBelow right left x f g h o u =
      rotate_node-IsSizedBelow (rotate_node x f) g (rotate_node-IsSizedBelow x f h o) u

  splay_loop-IsSizedBelow :
      (x : Tree V) (p : List (Frame V))
      → IsSizedBelow x
      → IsSizedAround p
      → IsSizedBelow (splay_loop x p)
  unfolding splay_loop
  splay_loop-IsSizedBelow x [] h a = h
  splay_loop-IsSizedBelow x (f ∷ []) h a = rotate_node-IsSizedBelow x f h a.0
  splay_loop-IsSizedBelow x (f ∷ g ∷ p) h a =
      splay_loop-IsSizedBelow (splay_step f.side g.side x f g) p
        (splay_step-IsSizedBelow f.side g.side x f g h a.0 a.1.0) a.1.1

  update_node_size-IsSized : (t : Tree V) → IsSizedBelow t → IsSized (update_node_size t)
  unfolding update_node_size
  update_node_size-IsSized leaf h = tt
  update_node_size-IsSized (node s l k v r) h = (refl, h.0, h.1)

  -- Sizes that are right off the way to the root are right everywhere after `SplayNode`.
  pub splay_node-IsSized :
      (x : Tree V) (p : List (Frame V))
      → IsNode x
      → IsSizedBelow x
      → IsSizedAround p
      → IsSized (splay_node x p)
  unfolding splay_node
  splay_node-IsSized leaf p n h a = absurd n
  splay_node-IsSized (node s l k v r) p n h a =
      update_node_size-IsSized (splay_loop (node s l k v r) p)
        (splay_loop-IsSizedBelow (node s l k v r) p h a)

  abbrev pub IsSizedLoc : Option (Loc V) → Type 0
  IsSizedLoc none = Unit
  IsSizedLoc (some (x, p)) = IsSizedBelow x × IsSizedAround p

  or_else-IsSizedLoc :
      (a b : Option (Loc V)) → IsSizedLoc a → IsSizedLoc b → IsSizedLoc (or_else a b)
  or_else-IsSizedLoc none b ha hb = hb
  or_else-IsSizedLoc (some x) b ha hb = ha

  pub locate-IsSizedLoc :
      (q : ℕ) (t : Tree V) (p : List (Frame V))
      → IsSizedBelow t
      → IsSizedAround p
      → IsSizedLoc (locate q t p)
  unfolding locate
  locate-IsSizedLoc q leaf p h a = tt
  locate-IsSizedLoc q (node s l k v r) p h a =
      or_else-IsSizedLoc _ _
        (locate-IsSizedLoc q l (down_left s k v r ∷ p) (IsSized-below l h.0) (h.1, a))
        (here (k == q)
          (locate-IsSizedLoc q r (down_right s l k v ∷ p) (IsSized-below r h.1) (h.0, a)))
    where
      here :
          (b : Bool)
          → IsSizedLoc (locate q r (down_right s l k v ∷ p))
          → IsSizedLoc (if b then some (node s l k v r, p) else locate q r (down_right s l k v ∷ p))
      here true u = (h, a)
      here false u = u
