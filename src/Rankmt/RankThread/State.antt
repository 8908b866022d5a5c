-- ===== src/Rankmt/RankThread/State.antt =====
-- The state of RankThread (rank_thread.h).
use nexuslb.Prelude.{
  ℕ, Bool, Option, none, some, List, [], ◌∷◌, ◌==◌, if◌then◌else◌, get_elem?, set, Outcome, ok,
  fault, out_of_range, check_failed,
}
use nexuslb.Splay.Map.{SplayMap}
use nexuslb.Rankmt.{Config, ExecutionCandidate, Link}

pub record GpuContext : Type 0 where
  pub gpu_id : ℕ
  pub free_at : ℕ
  pub free_timer : Option ℕ

-- PerModelThreadData, less the references to the model thread that do not change.
pub record ModelData : Type 0 where
  pub link : Link
  pub send_timer : Option ℕ
  pub rejecting_candidates : Bool
  pub candidate : Option ExecutionCandidate

pub record RankThread : Type 0 where
  pub config : Config
  pub stop_flag : Bool
  pub next_plan_id : ℕ
  pub backends : List (ℕ × List ℕ)
  pub gpus : List GpuContext
  pub model_threads : List (Option ModelData)
  pub gpu_availability_pool : SplayMap ℕ
  pub plan_pool : SplayMap ℕ

-- Values of both pools are points in time, compared as they are.
abbrev pub by_time : ℕ → ℕ
by_time t = t

unfoldable pub find_gpu : ℕ → List GpuContext → Option GpuContext
find_gpu id [] = none
find_gpu id (g ∷ gs) = if g.gpu_id == id then some g else find_gpu id gs

-- Writes through the pointer to a GPU's context.
unfoldable pub set_gpu : GpuContext → List GpuContext → List GpuContext
set_gpu c [] = []
set_gpu c (g ∷ gs) = if g.gpu_id == c.gpu_id then c ∷ gs else g ∷ set_gpu c gs

unfoldable pub erase_gpu : ℕ → List GpuContext → List GpuContext
erase_gpu id [] = []
erase_gpu id (g ∷ gs) = if g.gpu_id == id then gs else g ∷ erase_gpu id gs

abbrev pub present : Option (Option ModelData) → Outcome ModelData
present none = fault out_of_range
present (some none) = fault check_failed
present (some (some m)) = ok m

-- `model_threads_.at(index)`, and `CHECK` of the pointer in it.
unfoldable pub model_at : ℕ → RankThread → Outcome ModelData
model_at i s = present (get_elem? s.model_threads i)

unfoldable pub set_model : ℕ → ModelData → RankThread → RankThread
set_model i m s = record s { model_threads = set s.model_threads i (some m) }
