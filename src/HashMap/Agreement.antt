-- ===== src/HashMap/Agreement.antt =====
-- The operations of value_ranked_hash_map.h next to those on the list that a splay map stands for.
use nexuslb.Prelude.{
  ℕ, ◌+◌, ◌≡◌, refl, false, ◌||◌, Option, none, some, [], ◌∷◌, ◌==◌, leb, length, contains,
  if◌then◌else◌, arith,
}
use nexuslb.Splay.Contents.{keys, IsDistinct, erase, lookup, insert_sorted, count_le}
use nexuslb.HashMap.{Entries, find, upsert, remove, count_less_equal}

module _ {ℓ} {V : Type ℓ} where
  lookup-none : (k : ℕ) (xs : Entries V) → contains k (keys xs) ≡ false → lookup k xs ≡ none
  lookup-none k [] c = refl
  lookup-none k ((j, v) ∷ xs) c = ground (arith, lookup-none k xs)

  pub lookup-erase :
      (j k : ℕ) (xs : Entries V)
      → IsDistinct (keys xs)
      → lookup j (erase k xs) ≡ (if k == j then none else lookup j xs)
  lookup-erase j k [] d = ground arith
  lookup-erase j k ((i, v) ∷ xs) d = ground (arith, lookup-erase j k xs d.1, lookup-none i xs d.0)

  pub find-upsert :
      (j k : ℕ) (v : V) (es : Entries V)
      → find j (upsert k v es) ≡ (if k == j then some v else find j es)
  unfolding find upsert
  find-upsert j k v [] = ground arith
  find-upsert j k v ((i, w) ∷ es) = ground (arith, find-upsert j k v es)

module _ {ℓ} {V : Type ℓ} (rank_of : V → ℕ) where
  -- One for a value that is at most `ck`.
  abbrev pub hit : ℕ → Option V → ℕ
  hit ck none = 0
  hit ck (some v) = if leb (rank_of v) ck then 1 else 0

  pub count-upsert :
      (ck k : ℕ) (v : V) (es : Entries V)
      → count_less_equal rank_of ck (upsert k v es) + hit ck (find k es)
        ≡ count_less_equal rank_of ck es + hit ck (some v)
  unfolding count_less_equal upsert find
  count-upsert ck k v [] = ground arith
  count-upsert ck k v ((j, w) ∷ es) = ground (arith, count-upsert ck k v es)

  pub count-remove :
      (ck k : ℕ) (es : Entries V)
      → count_less_equal rank_of ck (remove k es) + hit ck (find k es)
        ≡ count_less_equal rank_of ck es
  unfolding count_less_equal remove find
  count-remove ck k [] = ground arith
  count-remove ck k ((j, w) ∷ es) = ground (arith, count-remove ck k es)

  pub count_le-erase :
      (ck k : ℕ) (xs : Entries V)
      → count_le rank_of ck (erase k xs) + hit ck (lookup k xs) ≡ count_le rank_of ck xs
  count_le-erase ck k [] = ground arith
  count_le-erase ck k ((j, w) ∷ xs) = ground (arith, count_le-erase ck k xs)

  pub count_le-insert :
      (ck k : ℕ) (v : V) (xs : Entries V)
      → count_le rank_of ck (insert_sorted rank_of k v xs)
        ≡ count_le rank_of ck xs + hit ck (some v)
  count_le-insert ck k v [] = ground arith
  count_le-insert ck k v ((j, w) ∷ xs) = ground (arith, count_le-insert ck k v xs)

  pub lookup-insert :
      (j k : ℕ) (v : V) (xs : Entries V)
      → contains k (keys xs) ≡ false
      → lookup j (insert_sorted rank_of k v xs) ≡ (if k == j then some v else lookup j xs)
  lookup-insert j k v [] c = ground arith
  lookup-insert j k v ((i, w) ∷ xs) c = ground (arith, lookup-insert j k v xs)

module _ {ℓ} {V : Type ℓ} where
  abbrev pub has : Option V → ℕ
  has none = 0
  has (some v) = 1

  pub length-upsert :
      (k : ℕ) (v : V) (es : Entries V) → length (upsert k v es) + has (find k es) ≡ length es + 1
  unfolding upsert find
  length-upsert k v [] = ground arith
  length-upsert k v ((j, w) ∷ es) = ground (arith, length-upsert k v es)

  pub length-remove : (k : ℕ) (es : Entries V) → length (remove k es) + has (find k es) ≡ length es
  unfolding remove find
  length-remove k [] = ground arith
  length-remove k ((j, w) ∷ es) = ground (arith, length-remove k es)

  pub erase-has : (k : ℕ) (xs : Entries V) → length (erase k xs) + has (lookup k xs) ≡ length xs
  erase-has k [] = ground arith
  erase-has k ((j, w) ∷ xs) = ground (arith, erase-has k xs)

  find-none : (k : ℕ) (es : Entries V) → contains k (keys es) ≡ false → find k es ≡ none
  unfolding find
  find-none k [] c = refl
  find-none k ((j, v) ∷ es) c = ground (arith, find-none k es)

  pub find-remove :
      (j k : ℕ) (es : Entries V)
      → IsDistinct (keys es)
      → find j (remove k es) ≡ (if k == j then none else find j es)
  unfolding find remove
  find-remove j k [] d = ground arith
  find-remove j k ((i, v) ∷ es) d = ground (arith, find-remove j k es d.1, find-none i es d.0)

  contains-upsert :
      (j k : ℕ) (v : V) (es : Entries V)
      → contains j (keys (upsert k v es)) ≡ (k == j || contains j (keys es))
  unfolding upsert
  contains-upsert j k v [] = ground arith
  contains-upsert j k v ((i, w) ∷ es) = ground (arith, contains-upsert j k v es)

  pub IsDistinct-upsert :
      (k : ℕ) (v : V) (es : Entries V) → IsDistinct (keys es) → IsDistinct (keys (upsert k v es))
  unfolding upsert
  IsDistinct-upsert k v [] d = (refl, tt)
  IsDistinct-upsert k v ((i, w) ∷ es) d =
      ground (arith, IsDistinct-upsert k v es d.1, contains-upsert i k v es)

  contains-remove :
      (j k : ℕ) (es : Entries V)
      → contains j (keys es) ≡ false
      → contains j (keys (remove k es)) ≡ false
  unfolding remove
  contains-remove j k [] c = refl
  contains-remove j k ((i, w) ∷ es) c = ground (arith, contains-remove j k es)

  pub IsDistinct-remove :
      (k : ℕ) (es : Entries V) → IsDistinct (keys es) → IsDistinct (keys (remove k es))
  unfolding remove
  IsDistinct-remove k [] d = tt
  IsDistinct-remove k ((i, w) ∷ es) d =
      ground (arith, IsDistinct-remove k es d.1, contains-remove i k es)
