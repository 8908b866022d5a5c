-- ===== src/Splay/Refinement.antt =====
-- The list of entries that a map of value_ranked_splay_map.h stands for, under `Upsert` and `Remove`.
use nexuslb.Prelude.{
  ℕ, ◌-◌, ◌≡◌, refl, sym, ap, subst, ◌∙◌, true, false, List, [], ◌∷◌, ◌++◌, arith, contains, length,
  ◌==◌, ==_iff, if◌then◌else◌, Bool-cases, inl, inr,
}
use nexuslb.Splay.Tree.{Tree, leaf, node, splay_node}
use nexuslb.Splay.Order.{to_list, to_list-plug, to_list-splay_node}
use nexuslb.Splay.Contents.{
  keys, IsDistinct, IsSorted, erase, erase_middle, insert_sorted, contains-erase, IsDistinct-erase,
  IsSorted-erase, length-erase, contains-insert, IsDistinct-insert, IsSorted-insert, length-insert,
}
use nexuslb.Splay.Size.{IsSizedBelow, IsSized-below, splay_node-IsSized}
use nexuslb.Splay.Removal.{remove_node-Leaves}
use nexuslb.Splay.Search.{surround-descend, descend-IsSizedAround}
use nexuslb.Splay.Map.{
  SplayMap, erase_key, remove_node, insert_node, descend, contains_key, remove, upsert,
}

contains-erase_key :
    (k q : ℕ) (ks : List ℕ)
    → IsDistinct ks
    → contains k (erase_key q ks) ≡ (if q == k then false else contains k ks)
unfolding erase_key
contains-erase_key k q [] d = ground arith
contains-erase_key k q (j ∷ ks) d = ground (arith, contains-erase_key k q ks d.1)

IsDistinct-erase_key : (q : ℕ) (ks : List ℕ) → IsDistinct ks → IsDistinct (erase_key q ks)
unfolding erase_key
IsDistinct-erase_key q [] d = tt
IsDistinct-erase_key q (k ∷ ks) d =
    ground (arith, IsDistinct-erase_key q ks d.1, contains-erase_key k q ks d.1)

length-erase_key :
    (q : ℕ) (ks : List ℕ) → contains q ks ≡ true → length (erase_key q ks) ≡ length ks - 1
unfolding erase_key
length-erase_key q [] h = cc
length-erase_key q (k ∷ []) h = ground arith
length-erase_key q (k ∷ j ∷ ks) h = ground (arith, length-erase_key q (j ∷ ks))

module _ {ℓ} {V : Type ℓ} where
  -- The entries of a map, smallest value first.
  abbrev pub view : SplayMap V → List (ℕ × V)
  view m = to_list m.root

  pub split_at :
      (q : ℕ) (xs : List (ℕ × V))
      → contains q (keys xs) ≡ true
      → (v : V) × (front : List (ℕ × V)) × (back : List (ℕ × V)) × (xs ≡ front ++ (q, v) ∷ back)
  split_at q [] h = absurd (cc)
  split_at q ((k, v) ∷ xs) h = elim (Bool-cases (k == q)) [
    | inl e ↦ (v, [], xs, ap (λ (j : ℕ). (j, v) ∷ xs) ((==_iff k q).0 e))
    | inr e ↦
        let rest = split_at q xs (ground arith) in
        (rest.0, (k, v) ∷ rest.1, rest.2, ap (λ l. (k, v) ∷ l) rest.3)
  ]

  erase_absent : (q : ℕ) (xs : List (ℕ × V)) → contains q (keys xs) ≡ false → erase q xs ≡ xs
  erase_absent q [] h = refl
  erase_absent q ((k, v) ∷ xs) h = ground (arith, erase_absent q xs)

module _ {ℓ} {V : Type ℓ} (rank_of : V → ℕ) where
  -- What every operation keeps: distinct keys, entries in order of value, sizes that are exact
  -- below the root, and a `map_` of just the keys of the tree.
  pub record IsValid (m : SplayMap V) : Type 0 where
    pub distinct : IsDistinct (keys (view m))
    pub sorted : IsSorted rank_of (view m)
    pub sized : IsSizedBelow m.root
    pub keyed : (k : ℕ) → contains k m.map ≡ contains k (keys (view m))
    pub map_distinct : IsDistinct m.map
    pub counted : length m.map ≡ length (view m)

  abbrev Removes : ℕ → SplayMap V → SplayMap V → Type ℓ
  Removes q m m' = (view m' ≡ erase q (view m)) × IsValid m'

  remove_present :
      (q : ℕ) (m : SplayMap V)
      → IsValid m
      → contains q m.map ≡ true
      → Removes q m (record { root = remove_node q m.root; map = erase_key q m.map })
  remove_present q m h c = (same, valid)
    where
      there : contains q (keys (view m)) ≡ true
      there = sym (h.keyed q) ∙ c

      gone :
          (to_list (remove_node q m.root) ≡ erase q (view m)) × IsSizedBelow (remove_node q m.root)
      gone =
          let s = split_at q (view m) there in
          let d = subst (λ l. IsDistinct (keys l)) s.3 h.distinct in
          let r = remove_node-Leaves q s.0 s.1 s.2 m.root h.distinct h.sized s.3 in
          (r.0 ∙ sym (ap (erase q) s.3 ∙ erase_middle s.1 q s.0 s.2 d), r.1)

      same : to_list (remove_node q m.root) ≡ erase q (view m)
      same = gone.0

      valid : IsValid (record { root = remove_node q m.root; map = erase_key q m.map })
      valid = record {
        distinct = rw same (IsDistinct-erase q (view m) h.distinct);
        sorted = rw same (IsSorted-erase rank_of q (view m) h.sorted);
        sized = gone.1;
        keyed = λ k. rw same (
            contains-erase_key k q m.map h.map_distinct
            ∙ ap (λ b. if q == k then false else b) (h.keyed k)
            ∙ sym (contains-erase k q (view m) h.distinct));
        map_distinct = IsDistinct-erase_key q m.map h.map_distinct;
        counted =
            rw same (
              ground
                (arith, length-erase_key q m.map c, length-erase q (view m), there, h.counted));
      }

  -- `Remove` takes the key's entry, if there is one, out of the sorted list of a valid map, and keeps
  -- the map valid.
  pub remove_lem :
      (q : ℕ) (m : SplayMap V)
      → IsValid m
      → (view (remove q m) ≡ erase q (view m)) × IsValid (remove q m)
  unfolding remove
  remove_lem q m h = elim (Bool-cases (contains q m.map)) [
    | inl c ↦ rw c (remove_present q m h c)
    | inr c ↦ rw c (sym (erase_absent q (view m) (sym (h.keyed q) ∙ c)), h)
  ]

  insert_node-lem :
      (k : ℕ) (v : V) (t : Tree V)
      → IsSorted rank_of (to_list t)
      → IsSizedBelow t
      → (to_list (insert_node rank_of k v t) ≡ insert_sorted rank_of k v (to_list t))
        × IsSizedBelow (insert_node rank_of k v t)
  unfolding insert_node
  insert_node-lem k v leaf s z = (refl, (tt, tt))
  insert_node-lem k v (node c l j w r) s z =
      let p = descend rank_of (rank_of v) (node c l j w r) [] in
      (
        to_list-splay_node (node 1 leaf k v leaf) p
            ∙ to_list-plug (node 1 leaf k v leaf) p
            ∙ surround-descend rank_of k v (node c l j w r) [] s,
        IsSized-below (splay_node (node 1 leaf k v leaf) p) (
            splay_node-IsSized (node 1 leaf k v leaf) p tt (tt, tt)
              (descend-IsSizedAround rank_of (rank_of v) (node c l j w r) [] z tt)),
      )

  upsert-remove :
      (k : ℕ) (m : SplayMap V) → (if contains_key k m then remove k m else m) ≡ remove k m
  unfolding remove
  upsert-remove k m = elim (Bool-cases (contains_key k m)) [ inl c ↦ rw c | inr c ↦ rw c ]

  -- `Upsert` puts the entry at its place in the sorted list of a valid map, in place of the key's old
  -- entry, and keeps the map valid: keys distinct, order, sizes exact, the index just the keys.
  pub upsert_lem :
      (k : ℕ) (v : V) (m : SplayMap V)
      → IsValid m
      → (view (upsert rank_of k v m) ≡ insert_sorted rank_of k v (erase k (view m)))
        × IsValid (upsert rank_of k v m)
  unfolding upsert
  upsert_lem k v m h = rw (upsert-remove k m) (same, valid)
    where
      removed : (view (remove k m) ≡ erase k (view m)) × IsValid (remove k m)
      removed = remove_lem k m h

      put :
          (to_list (insert_node rank_of k v (remove k m).root)
            ≡ insert_sorted rank_of k v (view (remove k m)))
          × IsSizedBelow (insert_node rank_of k v (remove k m).root)
      put = insert_node-lem k v (remove k m).root removed.1.sorted removed.1.sized

      same :
          to_list (insert_node rank_of k v (remove k m).root)
          ≡ insert_sorted rank_of k v (erase k (view m))
      same = put.0 ∙ ap (insert_sorted rank_of k v) removed.0

      fresh : contains k (keys (view (remove k m))) ≡ false
      fresh = rw removed.0 (ground (arith, contains-erase k k (view m) h.distinct))

      valid :
          IsValid (record {
            root = insert_node rank_of k v (remove k m).root;
            map = k ∷ (remove k m).map;
          })
      valid = record {
        distinct =
            rw put.0 (IsDistinct-insert rank_of k v (view (remove k m)) fresh removed.1.distinct);
        sorted = rw put.0 (IsSorted-insert rank_of k v (view (remove k m)) removed.1.sorted);
        sized = put.1;
        keyed = λ q.
            rw put.0 (
              ground (arith, contains-insert rank_of q k v (view (remove k m)), removed.1.keyed q));
        map_distinct = (removed.1.keyed k ∙ fresh, removed.1.map_distinct);
        counted =
            rw put.0
              (ground (arith, length-insert rank_of k v (view (remove k m)), removed.1.counted));
      }
