-- ===== src/Splay/Tree.antt =====
-- The splay tree of value_ranked_splay_map.h: nodes, rotations and the splay loop.
-- A node is known by its key. A pointer into the tree is the subtree at the node with the frames
-- that lead up to the root, so a parent pointer is the first frame, and `child[0]`, `child[1]` are
-- the left and right subtrees. The field `size` is stored, and stale where the code leaves it so.
use nexuslb.Prelude.{ℕ, ◌+◌, Option, none, some, List, [], ◌∷◌, ◌==◌, if◌then◌else◌}

pub data Tree {ℓ} (V : Type ℓ) : Type ℓ where
  leaf : Tree V
  node : ℕ → Tree V → ℕ → V → Tree V → Tree V

-- Which child of its parent a node is.
pub data Side : Type 0 where
  left right : Side

-- The parent of the node in view: its own fields, and its other child.
pub record Frame {ℓ} (V : Type ℓ) : Type ℓ where
  pub side : Side
  pub size : ℕ
  pub key : ℕ
  pub value : V
  pub other : Tree V

-- A pointer to a node, as what it leads to.
abbrev pub Loc {ℓ} : Type ℓ → Type ℓ
Loc V = Tree V × List (Frame V)

module _ {ℓ} {V : Type ℓ} where
  unfoldable pub node_size : Tree V → ℕ
  node_size leaf = 0
  node_size (node s l k v r) = s

  -- `UpdateNodeSize`.
  unfoldable pub update_node_size : Tree V → Tree V
  unfolding node_size
  update_node_size leaf = leaf
  update_node_size (node s l k v r) = node (1 + node_size l + node_size r) l k v r

  -- A node at its frame's side, with the stored size.
  unfoldable pub attach : Side → ℕ → ℕ → V → Tree V → Tree V → Tree V
  attach left s k v x other = node s x k v other
  attach right s k v x other = node s other k v x

  -- The whole tree again.
  unfoldable pub plug : Tree V → List (Frame V) → Tree V
  unfolding attach
  plug x [] = x
  plug x (f ∷ p) = plug (attach f.side f.size f.key f.value x f.other) p

  -- `RotateNode(x, c)` with `c` the side opposite to `x`'s, as both calls in `SplayNode` pass it:
  -- `x` takes the place of its parent, which takes over `x`'s inner child and has its size updated.
  unfoldable pub rotate_at : Side → ℕ → V → Tree V → Tree V → Tree V
  unfolding node_size
  rotate_at side ky vy leaf other = leaf
  rotate_at left ky vy (node s l k v r) other =
      node s l k v (node (1 + node_size r + node_size other) r ky vy other)
  rotate_at right ky vy (node s l k v r) other =
      node s (node (1 + node_size other + node_size l) other ky vy l) k v r

  unfoldable pub rotate_node : Tree V → Frame V → Tree V
  unfolding rotate_at
  rotate_node x f = rotate_at f.side f.key f.value x f.other

  -- `RotateNode(y, c)` for the parent `y` of the node in view: its other child, once `y` has taken
  -- the grandparent's place.
  unfoldable pub rotate_other : Side → Tree V → Frame V → Tree V
  unfolding node_size
  rotate_other left other g =
      node (1 + node_size other + node_size g.other) other g.key g.value g.other
  rotate_other right other g =
      node (1 + node_size g.other + node_size other) g.other g.key g.value other

  unfoldable pub rotate_parent : Frame V → Frame V → Frame V
  unfolding rotate_other
  rotate_parent f g = record f { other = rotate_other f.side f.other g }

  -- One round of the loop in `SplayNode` with a grandparent: the two cases of `x == y->child[c]`.
  unfoldable pub splay_step : Side → Side → Tree V → Frame V → Frame V → Tree V
  unfolding rotate_node rotate_parent
  splay_step left left x f g = rotate_node x (rotate_parent f g)
  splay_step right right x f g = rotate_node x (rotate_parent f g)
  splay_step left right x f g = rotate_node (rotate_node x f) g
  splay_step right left x f g = rotate_node (rotate_node x f) g

  unfoldable pub splay_loop : Tree V → List (Frame V) → Tree V
  unfolding splay_step
  splay_loop x [] = x
  splay_loop x (f ∷ []) = rotate_node x f
  splay_loop x (f ∷ g ∷ p) = splay_loop (splay_step f.side g.side x f g) p

  -- `SplayNode(x, goal)`, as the subtree below `goal` afterwards; with no goal it is the new root.
  -- The frames are those between `x` and `goal`. A null `x` changes nothing.
  unfoldable pub splay_node : Tree V → List (Frame V) → Tree V
  unfolding plug update_node_size splay_loop
  splay_node leaf p = plug leaf p
  splay_node (node s l k v r) p = update_node_size (splay_loop (node s l k v r) p)

  -- `GetMinNode` and `GetMaxNode`, as the key of the node that is reached.
  unfoldable pub get_min_node : Tree V → Option ℕ
  get_min_node leaf = none
  get_min_node (node s leaf k v r) = some k
  get_min_node (node s (node sl ll kl vl rl) k v r) = get_min_node (node sl ll kl vl rl)

  unfoldable pub get_max_node : Tree V → Option ℕ
  get_max_node leaf = none
  get_max_node (node s l k v leaf) = some k
  get_max_node (node s l k v (node sr lr kr vr rr)) = get_max_node (node sr lr kr vr rr)

  abbrev pub down_left : ℕ → ℕ → V → Tree V → Frame V
  down_left s k v r = record { side = left; size = s; key = k; value = v; other = r }

  abbrev pub down_right : ℕ → Tree V → ℕ → V → Frame V
  down_right s l k v = record { side = right; size = s; key = k; value = v; other = l }

  abbrev pub or_else : Option (Loc V) → Option (Loc V) → Option (Loc V)
  or_else (some a) b = some a
  or_else none b = b

  -- Where a pointer to the node with this key leads: its subtree, and the frames above it.
  unfoldable pub locate : ℕ → Tree V → List (Frame V) → Option (Loc V)
  locate q leaf p = none
  locate q (node s l k v r) p =
      or_else (locate q l (down_left s k v r ∷ p))
        (if k == q then some (node s l k v r, p) else locate q r (down_right s l k v ∷ p))

  -- `SplayNode` of the node that a non-null pointer leads to.
  unfoldable pub splay_key : ℕ → Tree V → Tree V
  unfolding locate splay_node
  splay_key q t = elim (locate q t []) [ none ↦ t | some (x, p) ↦ splay_node x p ]
