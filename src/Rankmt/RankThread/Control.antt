-- ===== src/Rankmt/RankThread/Control.antt =====
-- The control plane of RankThread (rank_thread.cpp): the callbacks of Stop and of the Post*
-- functions for models and backends, run on the thread's executor.
use nexuslb.Prelude.{
  ℕ, zero, suc, ◌+◌, true, false, Option, none, some, List, [], ◌∷◌, ◌==◌, ltb, leb, length,
  if◌then◌else◌, get_elem?, set, Outcome, ok, fault, check_failed, check, or_fault, ◌>>=◌, ◌>>◌,
}
use nexuslb.Splay.Map.{upsert, remove}
use nexuslb.Rankmt.{Link, epoch}
use nexuslb.Rankmt.RankThread.State.{ModelData, RankThread, by_time, find_gpu, erase_gpu}

-- `kMaxModels`, the capacity that the constructor reserves.
abbrev pub max_models : ℕ
max_models = 512

unfoldable pub find_backend : ℕ → List (ℕ × List ℕ) → Option (List ℕ)
find_backend id [] = none
find_backend id ((j, gpus) ∷ bs) = if j == id then some gpus else find_backend id bs

unfoldable pub erase_backend : ℕ → List (ℕ × List ℕ) → List (ℕ × List ℕ)
erase_backend id [] = []
erase_backend id ((j, gpus) ∷ bs) = if j == id then bs else (j, gpus) ∷ erase_backend id bs

-- The callback of `Stop`. The two maps are cleared, the pools and models stay.
unfoldable pub stop : RankThread → RankThread
stop s = record s { stop_flag = true; gpus = []; backends = [] }

-- `model_threads_.resize(n)`, for a longer vector.
unfoldable pub resize : ℕ → List (Option ModelData) → List (Option ModelData)
resize zero ms = ms
resize (suc n) [] = none ∷ resize n []
resize (suc n) (m ∷ ms) = m ∷ resize n ms

abbrev pub new_link : Link
new_link = record {
  granted_gpu = none;
  commands = [];
  new_candidate = none;
  resume_candidate_update = false;
}

abbrev pub new_model : ModelData
new_model = record {
  link = new_link;
  send_timer = none;
  rejecting_candidates = false;
  candidate = none;
}

unfoldable pub put_model : ℕ → RankThread → Outcome RankThread
unfolding resize
put_model i s = do
  check (ltb i max_models)
  let ms =
      if leb (length s.model_threads) i then resize (i + 1) s.model_threads else s.model_threads
  ok (record s { model_threads = set ms i (some new_model) })

-- `PostAddModelThread`: a model that is there already is only logged.
unfoldable pub add_model_thread : ℕ → RankThread → Outcome RankThread
unfolding put_model
add_model_thread i s = elim (get_elem? s.model_threads i) [
  | none ↦ put_model i s
  | some none ↦ put_model i s
  | some (some m) ↦ ok s
]

-- One GPU of `PostAddBackend`.
unfoldable pub add_gpu : ℕ → RankThread → Outcome RankThread
unfolding find_gpu upsert
add_gpu id s = elim (find_gpu id s.gpus) [
  | some g ↦ fault check_failed
  | none ↦ ok (record s {
    gpus = record { gpu_id = id; free_at = epoch; free_timer = none } ∷ s.gpus;
    gpu_availability_pool = upsert by_time id epoch s.gpu_availability_pool;
  })
]

unfoldable pub add_gpus : List ℕ → RankThread → Outcome RankThread
unfolding add_gpu
add_gpus [] s = ok s
add_gpus (id ∷ ids) s = add_gpu id s >>= add_gpus ids

-- `PostAddBackend`, with the ids of the backend's GPUs.
unfoldable pub add_backend : ℕ → List ℕ → RankThread → Outcome RankThread
unfolding add_gpus find_backend
add_backend id ids s = elim (find_backend id s.backends) [
  | some b ↦ ok s
  | none ↦ add_gpus ids (record s { backends = (id, ids) ∷ s.backends })
]

-- One GPU of `PostRemoveBackend`.
unfoldable pub remove_gpu : ℕ → RankThread → RankThread
unfolding remove erase_gpu
remove_gpu id s = record s {
  gpu_availability_pool = remove id s.gpu_availability_pool;
  gpus = erase_gpu id s.gpus;
}

unfoldable pub remove_gpus : List ℕ → RankThread → RankThread
unfolding remove_gpu
remove_gpus [] s = s
remove_gpus (id ∷ ids) s = remove_gpus ids (remove_gpu id s)

-- `PostRemoveBackend`.
unfoldable pub remove_backend : ℕ → RankThread → Outcome RankThread
unfolding remove_gpus erase_backend find_backend
remove_backend id s = do
  ids ← or_fault (find_backend id s.backends) check_failed
  let s' = remove_gpus ids s
  ok (record s' { backends = erase_backend id s'.backends })
