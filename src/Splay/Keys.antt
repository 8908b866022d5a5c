-- ===== src/Splay/Keys.antt =====
-- The keys of a splay map after an operation, for its clients.
use nexuslb.Prelude.{
  ℕ, zero, suc, ◌+◌, ◌<◌, ◌≡◌, sym, ap, ◌∙◌, true, false, ◌||◌, some, List, [], ◌∷◌, ◌==◌, contains,
  if◌then◌else◌, get_elem?, length, arith, ok, fault, out_of_range,
}
use nexuslb.Splay.Contents.{keys, erase, contains-erase, contains-insert, length-erase}
use nexuslb.Splay.Map.{SplayMap, rank, get_by_key, contains_key, size, upsert, remove, get_by_rank}
use nexuslb.Splay.Refinement.{view, IsValid, remove_lem, upsert_lem}
use nexuslb.Splay.Reads.{Splayed, get_by_rank_lem}

module _ {ℓ} {V : Type ℓ} where
  get_elem?-contains :
      (xs : List (ℕ × V)) (n k : ℕ) (v : V)
      → get_elem? xs n ≡ some (k, v)
      → contains k (keys xs) ≡ true
  get_elem?-contains [] n k v e = absurd (cc)
  get_elem?-contains ((j, w) ∷ xs) zero k v e = let q : j ≡ k = cc in ground arith
  get_elem?-contains ((j, w) ∷ xs) (suc n) k v e = ground (arith, get_elem?-contains xs n k v e)

  module _ (rank_of : V → ℕ) where
    pub contains-remove :
        (q j : ℕ) (m : SplayMap V)
        → IsValid rank_of m
        → contains j (remove q m).map ≡ (if q == j then false else contains j m.map)
    contains-remove q j m h =
        let r = remove_lem rank_of q m h in
        r.1.keyed j
        ∙ ap (λ l. contains j (keys l)) r.0
        ∙ contains-erase j q (view m) h.distinct
        ∙ ap (λ b. if q == j then false else b) (sym (h.keyed j))

    -- After Remove the key is gone: Rank and GetByKey throw on it, also if it was not there before.
    pub rank-remove :
        (q : ℕ) (m : SplayMap V)
        → IsValid rank_of m
        → (rank q (remove q m) ≡ fault out_of_range)
          × (get_by_key q (remove q m) ≡ fault out_of_range)
    unfolding rank get_by_key contains_key
    rank-remove q m h =
        let gone : contains q (remove q m).map ≡ false = contains-remove q q m h ∙ ground arith in
        (rw gone, rw gone)

    pub contains-upsert :
        (k j : ℕ) (v : V) (m : SplayMap V)
        → IsValid rank_of m
        → contains j (upsert rank_of k v m).map ≡ (k == j || contains j m.map)
    contains-upsert k j v m h =
        let u = upsert_lem rank_of k v m h in
        u.1.keyed j
        ∙ ap (λ l. contains j (keys l)) u.0
        ∙ contains-insert rank_of j k v (erase k (view m))
        ∙ ground (arith, contains-erase j k (view m) h.distinct, h.keyed j)

    pub size-remove :
        (q : ℕ) (m : SplayMap V)
        → IsValid rank_of m
        → contains q m.map ≡ true
        → size (remove q m) + 1 ≡ size m
    unfolding size
    size-remove q m h c =
        let r = remove_lem rank_of q m h in
        ground (
          arith,
          r.1.counted,
          ap length r.0,
          length-erase q (view m),
          h.counted,
          h.keyed q,
          nonempty q m.map,
        )
      where
        nonempty : (q : ℕ) (ks : List ℕ) → contains q ks ≡ true → 0 < length ks
        nonempty q [] e = cc
        nonempty q (k ∷ ks) e = omega arith

    -- The entry with the smallest value of a map that is not empty.
    pub top_entry :
        (m : SplayMap V)
        → IsValid rank_of m
        → (size m == 0) ≡ false
        → (k : ℕ) × (v : V) × (m' : SplayMap V) × (get_by_rank 0 m ≡ ok (k, v, m'))
          × (get_elem? (view m) 0 ≡ some (k, v))
          × Splayed rank_of m m'
          × (contains k m.map ≡ true)
    top_entry m h e =
        let g = get_by_rank_lem rank_of 0 m h (ground arith) in
        (
          g.0,
          g.1,
          g.3.0,
          g.3.1,
          g.2,
          g.3.2,
          h.keyed g.0 ∙ get_elem?-contains (view m) 0 g.0 g.1 g.2,
        )

    -- A splayed map has the same keys.
    pub contains-Splayed :
        (j : ℕ) (m m' : SplayMap V)
        → IsValid rank_of m
        → Splayed rank_of m m'
        → contains j m'.map ≡ contains j m.map
    contains-Splayed j m m' h s = s.1.keyed j ∙ ap (λ l. contains j (keys l)) s.0 ∙ sym (h.keyed j)

    pub size-Splayed :
        (m m' : SplayMap V) → IsValid rank_of m → Splayed rank_of m m' → size m' ≡ size m
    unfolding size
    size-Splayed m m' h s = s.1.counted ∙ ap length s.0 ∙ sym h.counted
