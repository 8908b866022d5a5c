-- ===== src/Splay/Order.antt =====
-- The entries of a splay tree from left to right, under rotations and `SplayNode`.
use nexuslb.Prelude.{ℕ, ◌≡◌, refl, sym, ap, subst, ◌∙◌, List, [], ◌∷◌, ◌++◌, append_assoc}
use nexuslb.Splay.Tree.{
  Tree, leaf, node, left, right, Side, Frame, attach, plug, rotate_at, rotate_node, rotate_other,
  rotate_parent, splay_step, splay_loop, splay_node, update_node_size,
}

module _ {ℓ} {V : Type ℓ} where
  abbrev pub to_list : Tree V → List (ℕ × V)
  to_list leaf = []
  to_list (node s l k v r) = to_list l ++ (k, v) ∷ to_list r

  abbrev pub around : Side → ℕ → V → List (ℕ × V) → List (ℕ × V) → List (ℕ × V)
  around left k v xs other = xs ++ (k, v) ∷ other
  around right k v xs other = other ++ (k, v) ∷ xs

  -- The entries of a whole tree, given those of the subtree in view.
  abbrev pub surround : List (ℕ × V) → List (Frame V) → List (ℕ × V)
  surround xs [] = xs
  surround xs (f ∷ p) = surround (around f.side f.key f.value xs (to_list f.other)) p

  to_list-attach :
      (d : Side) (s k : ℕ) (v : V) (x other : Tree V)
      → to_list (attach d s k v x other) ≡ around d k v (to_list x) (to_list other)
  unfolding attach
  to_list-attach left s k v x other = refl
  to_list-attach right s k v x other = refl

  pub to_list-plug : (x : Tree V) (p : List (Frame V)) → to_list (plug x p) ≡ surround (to_list x) p
  unfolding plug
  to_list-plug x [] = refl
  to_list-plug x (f ∷ p) =
      to_list-plug (attach f.side f.size f.key f.value x f.other) p
      ∙ ap (λ xs. surround xs p) (to_list-attach f.side f.size f.key f.value x f.other)

  to_list-rotate_at :
      (d : Side) (k : ℕ) (v : V) (s : ℕ) (l : Tree V) (k' : ℕ) (v' : V) (r other : Tree V)
      → to_list (rotate_at d k v (node s l k' v' r) other)
        ≡ around d k v (to_list (node s l k' v' r)) (to_list other)
  unfolding rotate_at
  to_list-rotate_at left k v s l k' v' r other = simp append_assoc
  to_list-rotate_at right k v s l k' v' r other = simp append_assoc

  -- Rotations never lose the node in view.
  abbrev pub IsNode : Tree V → Type 0
  IsNode leaf = ⊥
  IsNode (node s l k v r) = Unit

  pub to_list-rotate_node :
      (x : Tree V) (f : Frame V)
      → IsNode x
      → IsNode (rotate_node x f)
        × (to_list (rotate_node x f) ≡ around f.side f.key f.value (to_list x) (to_list f.other))
  unfolding rotate_node
  to_list-rotate_node leaf f h = absurd h
  to_list-rotate_node (node s l k v r) f h = (
    IsNode-rotate_at f.side f.key f.value s l k v r f.other,
    to_list-rotate_at f.side f.key f.value s l k v r f.other,
  )
    where
      IsNode-rotate_at :
          (d : Side) (k : ℕ) (v : V) (s : ℕ) (l : Tree V) (k' : ℕ) (v' : V) (r other : Tree V)
          → IsNode (rotate_at d k v (node s l k' v' r) other)
      IsNode-rotate_at left k v s l k' v' r other = tt
      IsNode-rotate_at right k v s l k' v' r other = tt

  to_list-rotate_other_left :
      (other : Tree V) (g : Frame V)
      → to_list (rotate_other left other g) ≡ to_list other ++ (g.key, g.value) ∷ to_list g.other
  unfolding rotate_other
  to_list-rotate_other_left other g = refl

  to_list-rotate_other_right :
      (other : Tree V) (g : Frame V)
      → to_list (rotate_other right other g) ≡ to_list g.other ++ (g.key, g.value) ∷ to_list other
  unfolding rotate_other
  to_list-rotate_other_right other g = refl

  -- The same at a side that is known by an equation.
  to_list-rotate_side :
      (d : Side) (x : Tree V) (f : Frame V)
      → f.side ≡ d
      → IsNode x
      → to_list (rotate_node x f) ≡ around d f.key f.value (to_list x) (to_list f.other)
  to_list-rotate_side d x f p h =
      subst (λ e. to_list (rotate_node x f) ≡ around e f.key f.value (to_list x) (to_list f.other))
        p (to_list-rotate_node x f h).1

  to_list-rotate_parent :
      (d : Side) (f g : Frame V)
      → f.side ≡ d
      → to_list (rotate_parent f g).other ≡ to_list (rotate_other d f.other g)
  unfolding rotate_parent
  to_list-rotate_parent d f g p = ap (λ e. to_list (rotate_other e f.other g)) p

  abbrev Steps : Side → Side → Tree V → Frame V → Frame V → Type ℓ
  Steps d e x f g =
      to_list (splay_step d e x f g)
      ≡ around e g.key g.value (around d f.key f.value (to_list x) (to_list f.other))
          (to_list g.other)

  to_list-splay_step :
      (d e : Side) (x : Tree V) (f g : Frame V)
      → f.side ≡ d
      → g.side ≡ e
      → IsNode x
      → Steps d e x f g
  unfolding splay_step
  to_list-splay_step left left x f g p q h =
      to_list-rotate_side left x (rotate_parent f g) (unfold rotate_parent in p) h
      ∙ ap (λ o. to_list x ++ (f.key, f.value) ∷ o)
          (to_list-rotate_parent left f g p ∙ to_list-rotate_other_left f.other g)
      ∙ sym (
          append_assoc (to_list x) ((f.key, f.value) ∷ to_list f.other)
            ((g.key, g.value) ∷ to_list g.other))
  to_list-splay_step right right x f g p q h =
      to_list-rotate_side right x (rotate_parent f g) (unfold rotate_parent in p) h
      ∙ ap (λ o. o ++ (f.key, f.value) ∷ to_list x)
          (to_list-rotate_parent right f g p ∙ to_list-rotate_other_right f.other g)
      ∙ append_assoc (to_list g.other) ((g.key, g.value) ∷ to_list f.other)
          ((f.key, f.value) ∷ to_list x)
  to_list-splay_step left right x f g p q h =
      to_list-rotate_side right (rotate_node x f) g q (to_list-rotate_node x f h).0
      ∙ ap (λ o. to_list g.other ++ (g.key, g.value) ∷ o) (to_list-rotate_side left x f p h)
  to_list-splay_step right left x f g p q h =
      to_list-rotate_side left (rotate_node x f) g q (to_list-rotate_node x f h).0
      ∙ ap (λ o. o ++ (g.key, g.value) ∷ to_list g.other) (to_list-rotate_side right x f p h)

  pub IsNode-splay_step :
      (d e : Side) (x : Tree V) (f g : Frame V) → IsNode x → IsNode (splay_step d e x f g)
  unfolding splay_step
  IsNode-splay_step left left x f g h = (to_list-rotate_node x (rotate_parent f g) h).0
  IsNode-splay_step right right x f g h = (to_list-rotate_node x (rotate_parent f g) h).0
  IsNode-splay_step left right x f g h =
      (to_list-rotate_node (rotate_node x f) g (to_list-rotate_node x f h).0).0
  IsNode-splay_step right left x f g h =
      (to_list-rotate_node (rotate_node x f) g (to_list-rotate_node x f h).0).0

  pub to_list-splay_loop :
      (x : Tree V) (p : List (Frame V))
      → IsNode x
      → to_list (splay_loop x p) ≡ surround (to_list x) p
  unfolding splay_loop
  to_list-splay_loop x [] h = refl
  to_list-splay_loop x (f ∷ []) h = (to_list-rotate_node x f h).1
  to_list-splay_loop x (f ∷ g ∷ p) h =
      to_list-splay_loop (splay_step f.side g.side x f g) p
        (IsNode-splay_step f.side g.side x f g h)
      ∙ ap (λ xs. surround xs p) (to_list-splay_step f.side g.side x f g refl refl h)

  to_list-update_node_size : (t : Tree V) → to_list (update_node_size t) ≡ to_list t
  unfolding update_node_size
  to_list-update_node_size leaf = refl
  to_list-update_node_size (node s l k v r) = refl

  -- Splaying keeps the entries and their order.
  pub to_list-splay_node :
      (x : Tree V) (p : List (Frame V)) → to_list (splay_node x p) ≡ to_list (plug x p)
  unfolding splay_node
  to_list-splay_node leaf p = refl
  to_list-splay_node (node s l k v r) p =
      to_list-update_node_size (splay_loop (node s l k v r) p)
      ∙ to_list-splay_loop (node s l k v r) p tt
      ∙ sym (to_list-plug (node s l k v r) p)
