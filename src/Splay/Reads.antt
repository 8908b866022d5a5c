-- ===== src/Splay/Reads.antt =====
-- The lookups of value_ranked_splay_map.h, which splay the node that they find.
use nexuslb.Prelude.{
  ℕ, ◌<◌, ◌≡◌, refl, sym, ap, subst, ◌∙◌, true, false, Option, none, some, List, [], ◌∷◌, ◌++◌,
  arith, contains, append-nil, append_assoc, length, length-append, get_elem?, leb, ok,
}
use nexuslb.Splay.Tree.{Tree, leaf, node, Loc, node_size, plug, splay_node, splay_key}
use nexuslb.Splay.Order.{to_list, to_list-splay_node}
use nexuslb.Splay.Contents.{keys, IsDistinct, count_le}
use nexuslb.Splay.Locate.{
  to_list-splay_key, root_entry, root_entry-splay_key, root_entry-splay_node,
}
use nexuslb.Splay.Size.{IsSized, IsSizedBelow, IsSized-below, node_size-length, splay_node-IsSized}
use nexuslb.Splay.Cut.{splay_key-IsSized, IsCut, at_root}
use nexuslb.Splay.Search.{
  Points, nth-Points, LastOf, last_le-LastOf, count_le-split, get_elem?-middle,
}
use nexuslb.Splay.Refinement.{view, IsValid}
use nexuslb.Splay.Map.{
  SplayMap, contains_key, size, left_child, root_value, get_by_key, get_by_rank, rank, nth, last_le,
  count_less_equal,
}

module _ {ℓ} {V : Type ℓ} (rank_of : V → ℕ) where
  -- A tree with the same entries in the place of the root.
  IsValid-root :
      (t : Tree V) (m : SplayMap V)
      → to_list t ≡ view m
      → IsSizedBelow t
      → IsValid rank_of m
      → IsValid rank_of (record m { root = t })
  IsValid-root t m e z h = record {
    distinct = rw e h.distinct;
    sorted = rw e h.sorted;
    sized = z;
    keyed = λ k. rw e (h.keyed k);
    map_distinct = h.map_distinct;
    counted = rw e h.counted;
  }

  -- `m'` is `m` with its tree splayed.
  abbrev pub Splayed : SplayMap V → SplayMap V → Type ℓ
  Splayed m m' = (view m' ≡ view m) × IsValid rank_of m'

  -- The root of a tree whose sizes are exact, among its entries.
  AtRank : Tree V → ℕ → V → List (ℕ × V) → Type ℓ
  AtRank t q v xs =
      (root_value t ≡ some (q, v)) × (get_elem? xs (node_size (left_child t)) ≡ some (q, v))

  at_rank :
      (t : Tree V) (q : ℕ) (v : V) (xs : List (ℕ × V))
      → root_entry t ≡ some (q, v)
      → to_list t ≡ xs
      → IsSized t
      → AtRank t q v xs
  unfolding AtRank root_value left_child node_size
  at_rank leaf q v xs e h z = absurd (cc)
  at_rank (node s l k w r) q v xs e h z = (
    e,
    ap (λ y. get_elem? y (node_size l)) (sym h)
        ∙ ap (get_elem? (to_list l ++ (k, w) ∷ to_list r)) (node_size-length l z.1)
        ∙ get_elem?-middle (to_list l) (k, w) (to_list r)
        ∙ e,
  )

  splayed :
      (q : ℕ) (m : SplayMap V)
      → IsValid rank_of m
      → contains q m.map ≡ true
      → (v : V) × AtRank (splay_key q m.root) q v (view m)
        × Splayed m (record m { root = splay_key q m.root })
  splayed q m h c =
      let there = sym (h.keyed q) ∙ c in
      let root = root_entry-splay_key q m.root there in
      let z = splay_key-IsSized q m.root h.sized there in
      let e = to_list-splay_key q m.root in
      (
        root.0,
        at_rank (splay_key q m.root) q root.0 (view m) root.1 e z,
        (e, IsValid-root (splay_key q m.root) m e (IsSized-below (splay_key q m.root) z) h),
      )

  -- `Rank` is the position of a key of a valid map in the sorted list. The entries stay as they are,
  -- and the map stays valid.
  pub rank_lem :
      (q : ℕ) (m : SplayMap V)
      → IsValid rank_of m
      → contains_key q m ≡ true
      → (n : ℕ) × (v : V) × (m' : SplayMap V) × (rank q m ≡ ok (n, m'))
        × (get_elem? (view m) n ≡ some (q, v))
        × Splayed m m'
  unfolding rank contains_key AtRank
  rank_lem q m h c =
      let s = splayed q m h c in
      (
        node_size (left_child (splay_key q m.root)),
        s.0,
        record m { root = splay_key q m.root },
        rw c,
        s.1.1,
        s.2,
      )

  -- `GetByKey` returns the value of a key of a valid map. The entries stay as they are, and the map
  -- stays valid.
  pub get_by_key_lem :
      (q : ℕ) (m : SplayMap V)
      → IsValid rank_of m
      → contains_key q m ≡ true
      → (n : ℕ) × (v : V) × (m' : SplayMap V) × (get_by_key q m ≡ ok (v, m'))
        × (get_elem? (view m) n ≡ some (q, v))
        × Splayed m m'
  unfolding get_by_key contains_key AtRank
  get_by_key_lem q m h c =
      let s = splayed q m h c in
      (
        node_size (left_child (splay_key q m.root)),
        s.0,
        record m { root = splay_key q m.root },
        rw (c, s.1.0),
        s.1.1,
        s.2,
      )

  by_pointer :
      (o : Option (Loc V)) (n k : ℕ) (v : V) (m : SplayMap V)
      → IsValid rank_of m
      → nth m.root n [] ≡ o
      → leb (size m) n ≡ false
      → Points m.root k v o
      → (m' : SplayMap V) × (get_by_rank n m ≡ ok (k, v, m')) × Splayed m m'
  unfolding get_by_rank plug
  by_pointer none n k v m h e b p = absurd p.1
  by_pointer (some (leaf, q)) n k v m h e b p = absurd p.1
  by_pointer (some (node s l j w r, q)) n k v m h e b p =
      let t = splay_node (node s l j w r) q in
      let same = to_list-splay_node (node s l j w r) q ∙ ap to_list p.0 in
      let z = IsSized-below t (splay_node-IsSized (node s l j w r) q tt p.2.0 p.2.1) in
      (record m { root = t }, rw (b, e, p.1.0, p.1.1), (same, IsValid-root t m same z h))

  -- `GetByRank` returns the entry at a position of the sorted list, if the map is valid and has that
  -- many. The entries stay as they are, and the map stays valid.
  pub get_by_rank_lem :
      (n : ℕ) (m : SplayMap V)
      → IsValid rank_of m
      → n < size m
      → (k : ℕ) × (v : V) × (get_elem? (view m) n ≡ some (k, v))
        × ((m' : SplayMap V) × (get_by_rank n m ≡ ok (k, v, m')) × Splayed m m')
  unfolding size plug
  get_by_rank_lem n m h b =
      let p = nth-Points m.root n [] h.sized tt (omega (arith, h.counted)) in
      (p.0, p.1, p.2, by_pointer (nth m.root n []) n p.0 p.1 m h refl (ground arith) p.3)

  left_size :
      (t : Tree V) (k : ℕ) (v : V) (xs ys : List (ℕ × V))
      → IsCut t xs k v ys
      → IsSized t
      → node_size (left_child t) ≡ length xs
  unfolding left_child IsCut
  left_size leaf k v xs ys h z = absurd h.1
  left_size (node s l j w r) k v xs ys h z = node_size-length l z.1 ∙ ap length h.1

  counted_by :
      (o : Option (Loc V)) (ck : ℕ) (m : SplayMap V) (seen rest : List (ℕ × V))
      → IsValid rank_of m
      → last_le rank_of ck m.root [] none ≡ o
      → LastOf rank_of m.root seen o
      → view m ≡ seen ++ rest
      → ((count_less_equal rank_of ck m).0 ≡ length seen)
        × Splayed m (count_less_equal rank_of ck m).1
  unfolding count_less_equal
  counted_by none ck m seen rest h e l s = rw (e, l, count_less_equal) (refl, (refl, h))
  counted_by (some (leaf, q)) ck m seen rest h e l s = absurd l.1
  counted_by (some (node c l k v r, q)) ck m seen rest h e (p, (xs, b), z) s =
      let t = splay_node (node c l k v r) q in
      let same = to_list-splay_node (node c l k v r) q ∙ ap to_list p in
      let sz = splay_node-IsSized (node c l k v r) q tt z.0 z.1 in
      let split : view m ≡ xs ++ (k, v) ∷ rest =
        s ∙ ap (λ y. y ++ rest) b ∙ append_assoc xs ((k, v) ∷ []) rest in
      let cut =
        at_root t k v v xs rest (subst (λ y. IsDistinct (keys y)) (sym same) h.distinct)
          (root_entry-splay_node (node c l k v r) q tt) (same ∙ split) in
      rw (e, count_less_equal)
        (
          omega
              (arith, left_size t k v xs rest cut sz, ap length b, length-append xs ((k, v) ∷ [])),
          (same, IsValid-root t m same (IsSized-below t sz) h),
        )

  -- `CountLessEqual(ck)` counts the values of a valid map that are at most `ck`. The entries stay as
  -- they are, and the map stays valid.
  pub count_less_equal_lem :
      (ck : ℕ) (m : SplayMap V)
      → IsValid rank_of m
      → ((count_less_equal rank_of ck m).0 ≡ count_le rank_of ck (view m))
        × Splayed m (count_less_equal rank_of ck m).1
  unfolding plug
  count_less_equal_lem ck m h =
      let r =
        last_le-LastOf rank_of ck m.root [] none [] [] h.sized tt h.sorted refl
          (sym (append-nil (view m))) tt tt in
      let c = counted_by (last_le rank_of ck m.root [] none) ck m r.0 r.1 h refl r.2 r.3 in
      (c.0 ∙ sym (ap (count_le rank_of ck) r.3 ∙ count_le-split rank_of ck r.0 r.1 r.4 r.5), c.1)
