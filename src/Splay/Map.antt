-- ===== src/Splay/Map.antt =====
-- The operations of ValueRankedSplayMap (value_ranked_splay_map.h).
-- `map_` is its list of keys: the node that it holds for a key is the tree's node with that key.
-- `rank_of` is `compare_key_fn_`, into the natural numbers: every instance in the repository
-- compares points in time.
use nexuslb.Prelude.{
  ℕ, ◌+◌, ◌-◌, Bool, true, false, Option, none, some, List, [], ◌∷◌, ◌==◌, ltb, leb, length,
  contains, if◌then◌else◌, Outcome, ok, fault, out_of_range, null_pointer, or_fault, ◌>>=◌,
}
use nexuslb.Splay.Tree.{
  Tree, leaf, node, Frame, Loc, node_size, splay_node, splay_key, get_min_node, get_max_node,
  down_left, down_right,
}

pub record SplayMap {ℓ} (V : Type ℓ) : Type ℓ where
  pub root : Tree V
  pub map : List ℕ

unfoldable pub erase_key : ℕ → List ℕ → List ℕ
erase_key q [] = []
erase_key q (k ∷ ks) = if k == q then ks else k ∷ erase_key q ks

module _ {ℓ} {V : Type ℓ} where
  -- `SplayNode(prev, succ)` once `succ` is the root: `prev` moves up to be its left child.
  unfoldable pub splay_below_root : ℕ → Tree V → Tree V
  splay_below_root i leaf = leaf
  splay_below_root i (node s l k v r) = node s (splay_key i l) k v r

  -- `SplayNode(succ)` for a pointer that may be null.
  unfoldable pub splay_succ : Option ℕ → Tree V → Tree V
  splay_succ none t = t
  splay_succ (some j) t = splay_key j t

  unfoldable pub splay_prev : Option ℕ → Option ℕ → Tree V → Tree V
  unfolding splay_below_root
  splay_prev none succ t = t
  splay_prev (some i) none t = splay_key i t
  splay_prev (some i) (some j) t = splay_below_root i t

  -- `prev->child[1] = nullptr; --prev->size`.
  unfoldable pub cut_right : Tree V → Tree V
  cut_right leaf = leaf
  cut_right (node s l k v r) = node (s - 1) l k v leaf

  -- The last branch of `RemoveNode`, where `prev` and `succ` have been splayed.
  unfoldable pub cut_node : Option ℕ → Option ℕ → Tree V → Tree V
  unfolding cut_right
  cut_node prev succ leaf = leaf
  cut_node (some i) (some j) (node s l k v r) = node (s - 1) (cut_right l) k v r
  cut_node (some i) none (node s l k v r) = cut_right (node s l k v r)
  cut_node none (some j) (node s l k v r) = node s leaf k v r
  cut_node none none (node s l k v r) = leaf

  unfoldable pub remove_root : Tree V → Tree V
  unfolding splay_succ splay_prev cut_node
  remove_root leaf = leaf
  remove_root (node s l k v r) =
      let succ = get_min_node r in
      let prev = get_max_node l in
      cut_node prev succ (splay_prev prev succ (splay_succ succ (node s l k v r)))

  -- `RemoveNode`.
  unfoldable pub remove_node : ℕ → Tree V → Tree V
  unfolding remove_root
  remove_node q t = remove_root (splay_key q t)

  -- The loop of `GetNthNode`; `none` is a null dereference.
  unfoldable pub nth : Tree V → ℕ → List (Frame V) → Option (Loc V)
  nth leaf n p = none
  nth (node s l k v r) n p = elim (node_size l == n) [
    | true ↦ some (node s l k v r, p)
    | false ↦ elim (ltb n (node_size l)) [
      | true ↦ nth l n (down_left s k v r ∷ p)
      | false ↦ nth r (n - (node_size l + 1)) (down_right s l k v ∷ p)
    ]
  ]

  -- The left child of the root, after `SplayNode`.
  unfoldable pub left_child : Tree V → Tree V
  left_child leaf = leaf
  left_child (node s l k v r) = l

  unfoldable pub root_value : Tree V → Option (ℕ × V)
  root_value leaf = none
  root_value (node s l k v r) = some (k, v)

  unfoldable pub size : SplayMap V → ℕ
  size m = length m.map

  unfoldable pub contains_key : ℕ → SplayMap V → Bool
  contains_key q m = contains q m.map

  -- `Remove`.
  unfoldable pub remove : ℕ → SplayMap V → SplayMap V
  unfolding remove_node erase_key contains_key
  remove q m =
      if contains_key q m
      then record { root = remove_node q m.root; map = erase_key q m.map }
      else m

  -- `map_.at(key)`, then `SplayNode`.
  unfoldable pub splay_at : ℕ → SplayMap V → Outcome (SplayMap V)
  unfolding contains_key
  splay_at q m =
      if contains_key q m then ok (record m { root = splay_key q m.root }) else fault out_of_range

  unfoldable pub get_by_key : ℕ → SplayMap V → Outcome (V × SplayMap V)
  unfolding splay_at root_value
  get_by_key q m = do
    m' ← splay_at q m
    e ← or_fault (root_value m'.root) null_pointer
    ok (e.1, m')

  unfoldable pub get_by_rank : ℕ → SplayMap V → Outcome (ℕ × V × SplayMap V)
  unfolding size nth root_value
  get_by_rank n m = if leb (size m) n then fault out_of_range else do
    x ← or_fault (nth m.root n []) null_pointer
    let m' = record m { root = splay_node x.0 x.1 }
    e ← or_fault (root_value x.0) null_pointer
    ok (e.0, e.1, m')

  unfoldable pub rank : ℕ → SplayMap V → Outcome (ℕ × SplayMap V)
  unfolding splay_at left_child
  rank q m = do m' ← splay_at q m; ok (node_size (left_child m'.root), m')

  module _ (rank_of : V → ℕ) where
    -- The way down of `InsertNode` to the place of a new node.
    unfoldable pub descend : ℕ → Tree V → List (Frame V) → List (Frame V)
    descend n leaf p = p
    descend n (node s l k v r) p = elim (ltb (rank_of v) n) [
      | true ↦ descend n r (down_right s l k v ∷ p)
      | false ↦ descend n l (down_left s k v r ∷ p)
    ]

    unfoldable pub insert_node : ℕ → V → Tree V → Tree V
    unfolding descend
    insert_node k v leaf = node 1 leaf k v leaf
    insert_node k v (node s l k' v' r) =
        splay_node (node 1 leaf k v leaf) (descend (rank_of v) (node s l k' v' r) [])

    -- `Upsert`. `map_[x->key] = x` adds the key: it is not there any more.
    unfoldable pub upsert : ℕ → V → SplayMap V → SplayMap V
    unfolding insert_node remove contains_key
    upsert k v m =
        let m' = if contains_key k m then remove k m else m in
        record { root = insert_node k v m'.root; map = k ∷ m'.map }

    -- The loop of `CountLessEqual`: `y`, the last node on the way with a value up to `ck`.
    unfoldable pub last_le : ℕ → Tree V → List (Frame V) → Option (Loc V) → Option (Loc V)
    last_le ck leaf p y = y
    last_le ck (node s l k v r) p y = elim (leb (rank_of v) ck) [
      | true ↦ last_le ck r (down_right s l k v ∷ p) (some (node s l k v r, p))
      | false ↦ last_le ck l (down_left s k v r ∷ p) y
    ]

    unfoldable pub count_less_equal : ℕ → SplayMap V → ℕ × SplayMap V
    unfolding last_le left_child
    count_less_equal ck m = elim (last_le ck m.root [] none) [
      | none ↦ (0, m)
      | some (x, p) ↦
          let t = splay_node x p in (node_size (left_child t) + 1, record m { root = t })
    ]
