-- ===== src/HashMap/Tests.antt =====
-- value_ranked_hash_map.h on small maps.
use nexuslb.Prelude.{ℕ, ◌≡◌, refl, List, [], ◌∷◌, ok}
use nexuslb.Splay.Map as Splay
use nexuslb.Splay.Tree.{leaf}
use nexuslb.HashMap.{
  size, contains_key, count_less_equal, find, upsert, remove, rank, get_by_rank, sort_by_value,
  insert_by_value,
}
use nexuslb.HashMap.Runs.{Change, upserted, removed, run_hash, run_splay, runs_agree}

abbrev by_value : ℕ → ℕ
by_value v = v

abbrev changes : List (Change ℕ)
changes = upserted 7 30 ∷ upserted 8 10 ∷ upserted 9 20 ∷ removed 8 ∷ upserted 7 15 ∷ []

ranked : get_by_rank by_value 1 (run_hash by_value changes []) ≡ ok (9, 20)
unfolding get_by_rank sort_by_value insert_by_value upsert remove
ranked = refl

first : rank by_value 7 (run_hash by_value changes []) ≡ ok 0
unfolding rank contains_key find upsert remove
first = refl

runs_agree_example :
    (size (run_hash by_value changes [])
      ≡ Splay.size (run_splay by_value changes (record { root = leaf; map = [] })))
    × ((k : ℕ)
        → contains_key k (run_hash by_value changes [])
          ≡ Splay.contains_key k (run_splay by_value changes (record { root = leaf; map = [] })))
    × ((ck : ℕ)
        → count_less_equal by_value ck (run_hash by_value changes [])
          ≡ (Splay.count_less_equal by_value ck
              (run_splay by_value changes (record { root = leaf; map = [] }))).0)
runs_agree_example = runs_agree by_value changes
