-- ===== src/Splay/Tests.antt =====
-- value_ranked_splay_map.h on small maps.
use nexuslb.Prelude.{
  ℕ, ◌≡◌, ◌<◌, refl, true, [], ◌∷◌, some, get_elem?, ok, fault, out_of_range, arith,
}
use nexuslb.Splay.Tree.{
  leaf, node_size, update_node_size, attach, plug, rotate_at, rotate_node, rotate_other,
  rotate_parent, splay_step, splay_loop, splay_node,
}
use nexuslb.Splay.Contents.{erase, insert_sorted, count_le}
use nexuslb.Splay.Map.{
  SplayMap, upsert, remove, contains_key, get_by_key, get_by_rank, rank, count_less_equal, size,
  descend, insert_node,
}
use nexuslb.Splay.Refinement.{view, IsValid, remove_lem, upsert_lem}
use nexuslb.Splay.Keys.{rank-remove}
use nexuslb.Splay.Reads.{Splayed, rank_lem, get_by_key_lem, get_by_rank_lem, count_less_equal_lem}

abbrev by_value : ℕ → ℕ
by_value v = v

abbrev empty_map : SplayMap ℕ
empty_map = record { root = leaf; map = [] }

abbrev two_entries : SplayMap ℕ
two_entries = upsert by_value 8 10 (upsert by_value 7 30 empty_map)

abbrev three_entries : SplayMap ℕ
three_entries = upsert by_value 9 20 two_entries

empty_map-IsValid : IsValid by_value empty_map
empty_map-IsValid = record {
  distinct = tt;
  sorted = tt;
  sized = tt;
  keyed = λ k. refl;
  map_distinct = tt;
  counted = refl;
}

two_entries-IsValid : IsValid by_value two_entries
two_entries-IsValid =
    (upsert_lem by_value 8 10 (upsert by_value 7 30 empty_map)
      (upsert_lem by_value 7 30 empty_map empty_map-IsValid).1).1

three_entries-IsValid : IsValid by_value three_entries
three_entries-IsValid = (upsert_lem by_value 9 20 two_entries two_entries-IsValid).1

three_view : view three_entries ≡ (8, 10) ∷ (9, 20) ∷ (7, 30) ∷ []
unfolding upsert remove contains_key insert_node descend splay_node splay_loop splay_step
    rotate_parent rotate_node rotate_other rotate_at attach plug update_node_size node_size
three_view = refl

upsert_example :
    (view (upsert by_value 7 15 three_entries)
      ≡ insert_sorted by_value 7 15 (erase 7 (view three_entries)))
    × IsValid by_value (upsert by_value 7 15 three_entries)
upsert_example = upsert_lem by_value 7 15 three_entries three_entries-IsValid

remove_example :
    (view (remove 9 three_entries) ≡ erase 9 (view three_entries))
    × IsValid by_value (remove 9 three_entries)
remove_example = remove_lem by_value 9 three_entries three_entries-IsValid

has_nine : contains_key 9 three_entries ≡ true
unfolding upsert remove contains_key
has_nine = refl

three_size : 2 < size three_entries
unfolding size upsert remove contains_key
three_size = omega arith

rank_example :
    (n : ℕ) × (v : ℕ) × (m' : SplayMap ℕ) × (rank 9 three_entries ≡ ok (n, m'))
    × (get_elem? (view three_entries) n ≡ some (9, v))
    × Splayed by_value three_entries m'
rank_example = rank_lem by_value 9 three_entries three_entries-IsValid has_nine

get_by_key_example :
    (n : ℕ) × (v : ℕ) × (m' : SplayMap ℕ) × (get_by_key 9 three_entries ≡ ok (v, m'))
    × (get_elem? (view three_entries) n ≡ some (9, v))
    × Splayed by_value three_entries m'
get_by_key_example = get_by_key_lem by_value 9 three_entries three_entries-IsValid has_nine

rank-remove_example :
    (rank 9 (remove 9 three_entries) ≡ fault out_of_range)
    × (get_by_key 9 (remove 9 three_entries) ≡ fault out_of_range)
rank-remove_example = rank-remove by_value 9 three_entries three_entries-IsValid

get_by_rank_example :
    (k : ℕ) × (v : ℕ) × (get_elem? (view three_entries) 2 ≡ some (k, v))
    × ((m' : SplayMap ℕ) × (get_by_rank 2 three_entries ≡ ok (k, v, m'))
        × Splayed by_value three_entries m')
get_by_rank_example = get_by_rank_lem by_value 2 three_entries three_entries-IsValid three_size

count_less_equal_example :
    ((count_less_equal by_value 25 three_entries).0 ≡ count_le by_value 25 (view three_entries))
    × Splayed by_value three_entries (count_less_equal by_value 25 three_entries).1
count_less_equal_example = count_less_equal_lem by_value 25 three_entries three_entries-IsValid
