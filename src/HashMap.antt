-- ===== src/HashMap.antt =====
-- src/nexus/common/value_ranked_hash_map.h: the map ranked by value that keeps only a hash map. It
-- is a list of entries with distinct keys, in the order in which the hash map is walked.
pub mod Agreement
pub mod Runs
mod Tests
use nexuslb.Prelude.{
  ℕ, suc, Bool, true, false, Option, none, some, List, [], ◌∷◌, ◌==◌, ltb, leb, length, count,
  get_elem?, if◌then◌else◌, Outcome, ok, fault, out_of_range, or_fault, ◌>>=◌,
}

abbrev pub Entries {ℓ} : Type ℓ → Type ℓ
Entries V = List (ℕ × V)

module _ {ℓ} {V : Type ℓ} where
  -- `map_.find`.
  unfoldable pub find : ℕ → Entries V → Option V
  find k [] = none
  find k ((j, v) ∷ es) = if j == k then some v else find k es

  -- `Upsert`.
  unfoldable pub upsert : ℕ → V → Entries V → Entries V
  upsert k v [] = (k, v) ∷ []
  upsert k v ((j, w) ∷ es) = if j == k then (j, v) ∷ es else (j, w) ∷ upsert k v es

  -- `Remove`.
  unfoldable pub remove : ℕ → Entries V → Entries V
  remove k [] = []
  remove k ((j, w) ∷ es) = if j == k then es else (j, w) ∷ remove k es

  -- `Size`.
  unfoldable pub size : Entries V → ℕ
  size es = length es

  -- `Contains`.
  unfoldable pub contains_key : ℕ → Entries V → Bool
  unfolding find
  contains_key k es = elim (find k es) [ none ↦ false | some v ↦ true ]

  -- `GetByKey`.
  unfoldable pub get_by_key : ℕ → Entries V → Outcome V
  unfolding find
  get_by_key k es = or_fault (find k es) out_of_range

  module _ (rank_of : V → ℕ) where
    -- `std::nth_element` on the entries: the one that stands at the position in a sorted list.
    unfoldable pub insert_by_value : ℕ × V → Entries V → Entries V
    insert_by_value e [] = e ∷ []
    insert_by_value e (x ∷ es) =
        if leb (rank_of e.1) (rank_of x.1) then e ∷ x ∷ es else x ∷ insert_by_value e es

    unfoldable pub sort_by_value : Entries V → Entries V
    unfolding insert_by_value
    sort_by_value [] = []
    sort_by_value (e ∷ es) = insert_by_value e (sort_by_value es)

    -- `GetByRank`.
    unfoldable pub get_by_rank : ℕ → Entries V → Outcome (ℕ × V)
    unfolding sort_by_value
    get_by_rank n es =
        if leb (length es) n
        then fault out_of_range
        else or_fault (get_elem? (sort_by_value es) n) out_of_range

    -- `Rank`: the number of smaller values.
    unfoldable pub rank : ℕ → Entries V → Outcome ℕ
    unfolding contains_key find
    rank k es =
        if contains_key k es
        then (or_fault (find k es) out_of_range >>= λ v.
            ok (count (λ (e : ℕ × V). ltb (rank_of e.1) (rank_of v)) es))
        else fault out_of_range

    -- `CountLessEqual`.
    unfoldable pub count_less_equal : ℕ → Entries V → ℕ
    count_less_equal ck es = count (λ (e : ℕ × V). leb (rank_of e.1) ck) es
