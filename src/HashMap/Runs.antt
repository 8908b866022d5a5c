-- ===== src/HashMap/Runs.antt =====
-- The two maps of common/ that are ranked by value, on the same sequence of changes.
use nexuslb.Prelude.{
  ℕ, ◌≡◌, ◌∙◌, refl, sym, ap, true, false, none, some, List, [], ◌∷◌, ◌==◌, length, contains,
  if◌then◌else◌, arith,
}
use nexuslb.Splay.Contents.{
  keys, IsDistinct, erase, lookup, insert_sorted, count_le, contains-erase, length-insert,
}
use nexuslb.Splay.Map.{SplayMap}
use nexuslb.Splay.Map as Splay
use nexuslb.Splay.Tree.{leaf}
use nexuslb.Splay.Refinement.{view, IsValid, remove_lem, upsert_lem}
use nexuslb.Splay.Reads.{count_less_equal_lem}
use nexuslb.HashMap.{Entries, find, upsert, remove, size, contains_key, count_less_equal}
use nexuslb.HashMap.Agreement.{
  lookup-erase, find-upsert, hit, count-upsert, count-remove, count_le-erase, count_le-insert,
  lookup-insert, has, length-upsert, length-remove, erase-has, find-remove, IsDistinct-upsert,
  IsDistinct-remove,
}

pub data Change {ℓ} (V : Type ℓ) : Type ℓ where
  upserted : ℕ → V → Change V
  removed : ℕ → Change V

module _ {ℓ} {V : Type ℓ} (rank_of : V → ℕ) where
  abbrev pub run_hash : List (Change V) → Entries V → Entries V
  run_hash [] es = es
  run_hash (upserted k v ∷ cs) es = run_hash cs (upsert k v es)
  run_hash (removed k ∷ cs) es = run_hash cs (remove k es)

  abbrev pub run_splay : List (Change V) → SplayMap V → SplayMap V
  run_splay [] m = m
  run_splay (upserted k v ∷ cs) m = run_splay cs (Splay.upsert rank_of k v m)
  run_splay (removed k ∷ cs) m = run_splay cs (Splay.remove k m)

  record Agrees (es : Entries V) (m : SplayMap V) : Type ℓ where
    valid : IsValid rank_of m
    distinct : IsDistinct (keys es)
    found : (k : ℕ) → find k es ≡ lookup k (view m)
    counts : (ck : ℕ) → count_less_equal rank_of ck es ≡ count_le rank_of ck (view m)
    lengths : length es ≡ length (view m)

  remove-Agrees :
      (k : ℕ) (es : Entries V) (m : SplayMap V)
      → Agrees es m
      → Agrees (remove k es) (Splay.remove k m)
  remove-Agrees k es m h = record {
    valid = r.1;
    distinct = IsDistinct-remove k es h.distinct;
    found = λ j. rw r.0 (
        find-remove j k es h.distinct
        ∙ ap (λ o. if k == j then none else o) (h.found j)
        ∙ sym (lookup-erase j k (view m) h.valid.distinct));
    counts = λ ck. rw r.0 (
        omega (
          arith,
          count-remove rank_of ck k es,
          count_le-erase rank_of ck k (view m),
          h.counts ck,
          ap (hit rank_of ck) (h.found k),
        ));
    lengths =
        rw r.0
          (omega (arith, length-remove k es, erase-has k (view m), h.lengths, ap has (h.found k)));
  }
    where
      r : (view (Splay.remove k m) ≡ erase k (view m)) × IsValid rank_of (Splay.remove k m)
      r = remove_lem rank_of k m h.valid

  upsert-Agrees :
      (k : ℕ) (v : V) (es : Entries V) (m : SplayMap V)
      → Agrees es m
      → Agrees (upsert k v es) (Splay.upsert rank_of k v m)
  upsert-Agrees k v es m h = record {
    valid = u.1;
    distinct = IsDistinct-upsert k v es h.distinct;
    found = λ j.
        rw u.0
          (find-upsert j k v es ∙ ap (λ o. if k == j then some v else o) (h.found j) ∙ sym (put j));
    counts = λ ck. rw u.0 (
        omega (
          arith,
          count-upsert rank_of ck k v es,
          count_le-erase rank_of ck k (view m),
          count_le-insert rank_of ck k v (erase k (view m)),
          h.counts ck,
          ap (hit rank_of ck) (h.found k),
        ));
    lengths = rw u.0 (
        omega (
          arith,
          length-upsert k v es,
          erase-has k (view m),
          length-insert rank_of k v (erase k (view m)),
          h.lengths,
          ap has (h.found k),
        ));
  }
    where
      u :
          (view (Splay.upsert rank_of k v m) ≡ insert_sorted rank_of k v (erase k (view m)))
          × IsValid rank_of (Splay.upsert rank_of k v m)
      u = upsert_lem rank_of k v m h.valid

      gone : contains k (keys (erase k (view m))) ≡ false
      gone = ground (arith, contains-erase k k (view m) h.valid.distinct)

      put :
          (j : ℕ)
          → lookup j (insert_sorted rank_of k v (erase k (view m)))
            ≡ (if k == j then some v else lookup j (view m))
      put j = ground (
        arith,
        lookup-insert rank_of j k v (erase k (view m)) gone,
        lookup-erase j k (view m) h.valid.distinct,
      )

  run-Agrees :
      (cs : List (Change V)) (es : Entries V) (m : SplayMap V)
      → Agrees es m
      → Agrees (run_hash cs es) (run_splay cs m)
  run-Agrees [] es m h = h
  run-Agrees (upserted k v ∷ cs) es m h =
      run-Agrees cs (upsert k v es) (Splay.upsert rank_of k v m) (upsert-Agrees k v es m h)
  run-Agrees (removed k ∷ cs) es m h =
      run-Agrees cs (remove k es) (Splay.remove k m) (remove-Agrees k es m h)

  new-Agrees : Agrees [] (record { root = leaf; map = [] })
  unfolding find count_less_equal
  new-Agrees = record {
    valid = record {
      distinct = tt;
      sorted = tt;
      sized = tt;
      keyed = λ k. refl;
      map_distinct = tt;
      counted = refl;
    };
    distinct = tt;
    found = λ k. refl;
    counts = λ ck. refl;
    lengths = refl;
  }

  contains-lookup :
      (k : ℕ) (es : Entries V) (xs : Entries V)
      → find k es ≡ lookup k xs
      → contains_key k es ≡ contains k (keys xs)
  unfolding contains_key
  contains-lookup k es xs e = rw (contains_key, e) (there k xs)
    where
      there :
          (k : ℕ) (xs : Entries V)
          → (elim (lookup k xs) [ none ↦ false | some v ↦ true ]) ≡ contains k (keys xs)
      there k [] = refl
      there k ((j, v) ∷ xs) = ground (arith, there k xs)

  -- Two new maps of the two kinds that go through the same changes have the same size and keys, and
  -- CountLessEqual returns the same for every bound.
  pub runs_agree :
      (cs : List (Change V))
      → (size (run_hash cs []) ≡ Splay.size (run_splay cs (record { root = leaf; map = [] })))
        × ((k : ℕ)
            → contains_key k (run_hash cs [])
              ≡ Splay.contains_key k (run_splay cs (record { root = leaf; map = [] })))
        × ((ck : ℕ)
            → count_less_equal rank_of ck (run_hash cs [])
              ≡ (Splay.count_less_equal rank_of ck
                  (run_splay cs (record { root = leaf; map = [] }))).0)
  unfolding size Splay.size Splay.contains_key
  runs_agree cs =
      let a = run-Agrees cs [] (record { root = leaf; map = [] }) new-Agrees in
      let m = run_splay cs (record { root = leaf; map = [] }) in
      (
        a.lengths ∙ sym a.valid.counted,
        (λ k. contains-lookup k (run_hash cs []) (view m) (a.found k) ∙ sym (a.valid.keyed k)),
        (λ ck. a.counts ck ∙ sym (count_less_equal_lem rank_of ck m a.valid).0),
      )
