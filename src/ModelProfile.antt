-- ===== src/ModelProfile.antt =====
-- ModelProfile of src/nexus/common/model_db.cpp: the latencies of a model on a GPU, by batch size.
-- A double is a value of any type `D` with the operations that the code uses.
pub mod Rising
pub mod Batches
pub mod Tests
use nexuslb.Prelude.{
  ℕ, zero, suc, ◌+◌, ◌-◌, Bool, true, false, ◌||◌, Option, none, some, List, [], ◌∷◌, ◌==◌, ltb,
  leb, length, get_elem?, if◌then◌else◌, Outcome, ok, fault, log_fatal, out_of_range, check_failed,
  check, or_fault, ◌>>=◌, ◌>>◌,
}

pub record Doubles (D : Type 0) : Type 0 where
  pub of_nat : ℕ → D
  pub half : D
  pub plus : D → D → D
  pub minus : D → D → D
  pub times : D → D → D
  pub over : D → D → D
  pub below : D → D → Bool

-- `ProfileEntry`.
pub record ProfileEntry (D : Type 0) : Type 0 where
  pub latency_mean : D
  pub latency_std : D
  pub static_memory : ℕ
  pub memory_usage : ℕ
  pub repeat : ℕ

-- `forward_lats_` has an entry for batch size 0 that is never used.
pub record ModelProfile (D : Type 0) : Type 0 where
  pub forward_lats : List (ProfileEntry D)
  pub preprocess : ProfileEntry D
  pub postprocess : ProfileEntry D

module _ {D : Type 0} (d : Doubles D) where
  -- `latency_mean + latency_std`.
  unfoldable pub latency : ProfileEntry D → D
  latency e = d.plus e.latency_mean e.latency_std

  -- The test of MergeMeanStdBySlowest and ForceMonotonicity: `e` is the faster one.
  unfoldable pub is_faster : ProfileEntry D → ProfileEntry D → Bool
  unfolding latency
  is_faster e f = d.below e.latency_mean f.latency_mean || d.below (latency e) (latency f)

  -- `MergeMeanStdBySlowest`.
  unfoldable pub merge_by_slowest : ProfileEntry D → ProfileEntry D → ProfileEntry D
  unfolding is_faster
  merge_by_slowest dst src =
      if is_faster dst src
      then record dst {
        latency_mean = src.latency_mean;
        latency_std = src.latency_std;
        repeat = src.repeat;
      }
      else dst

  -- The second loop of `MergeProfileBySlowest`, on the table's size and the batch size.
  unfoldable pub append_lats : ℕ → ℕ → List (ProfileEntry D) → Outcome (List (ProfileEntry D))
  append_lats size batch [] = ok []
  append_lats size batch (e ∷ src) =
      check (size == batch) >> (append_lats (size + 1) (batch + 1) src >>= λ rest. ok (e ∷ rest))

  -- Its two loops, on the entries from the batch size on.
  unfoldable pub merge_lats :
      ℕ → ℕ → List (ProfileEntry D) → List (ProfileEntry D) → Outcome (List (ProfileEntry D))
  unfolding append_lats merge_by_slowest
  merge_lats size batch [] src = append_lats size batch src
  merge_lats size batch (e ∷ dst) [] = ok (e ∷ dst)
  merge_lats size batch (e ∷ dst) (f ∷ src) =
      merge_lats size (batch + 1) dst src >>= λ rest. ok (merge_by_slowest e f ∷ rest)

  -- The entries for batch sizes from 1.
  unfoldable pub sizes : List (ProfileEntry D) → List (ProfileEntry D)
  sizes [] = []
  sizes (e ∷ es) = es

  -- `forward_lats_` with other entries for batch sizes from 1.
  unfoldable pub with_sizes : List (ProfileEntry D) → List (ProfileEntry D) → List (ProfileEntry D)
  with_sizes [] fs = fs
  with_sizes (e ∷ es) fs = e ∷ fs

  -- `MergeProfileBySlowest`.
  unfoldable pub merge_profile_by_slowest :
      ModelProfile D → ModelProfile D → Outcome (ModelProfile D)
  unfolding merge_lats merge_by_slowest sizes with_sizes
  merge_profile_by_slowest p rhs = do
    lats ← merge_lats (length p.forward_lats) 1 (sizes p.forward_lats) (sizes rhs.forward_lats)
    ok (record {
      forward_lats = with_sizes p.forward_lats lats;
      preprocess = merge_by_slowest p.preprocess rhs.preprocess;
      postprocess = merge_by_slowest p.postprocess rhs.postprocess;
    })

  -- One round of `ForceMonotonicity`: the entry, with the one before it.
  unfoldable pub raise : ProfileEntry D → ProfileEntry D → ProfileEntry D
  unfolding is_faster
  raise prev e =
      if is_faster e prev
      then record e { latency_mean = prev.latency_mean; latency_std = prev.latency_std }
      else e

  unfoldable pub raise_from : ProfileEntry D → List (ProfileEntry D) → List (ProfileEntry D)
  unfolding raise
  raise_from prev [] = []
  raise_from prev (e ∷ es) = raise prev e ∷ raise_from (raise prev e) es

  unfoldable pub raise_lats : List (ProfileEntry D) → List (ProfileEntry D)
  unfolding raise_from
  raise_lats [] = []
  raise_lats (e ∷ []) = e ∷ []
  raise_lats (e ∷ f ∷ es) = e ∷ f ∷ raise_from f es

  -- `ForceMonotonicity`.
  unfoldable pub force_monotonicity : ModelProfile D → ModelProfile D
  unfolding raise_lats
  force_monotonicity p = record p { forward_lats = raise_lats p.forward_lats }

  -- `GetForwardLatency`.
  unfoldable pub get_forward_latency : ℕ → ModelProfile D → Outcome D
  unfolding latency
  get_forward_latency batch p =
      if batch == 0 || leb (length p.forward_lats) batch
      then fault log_fatal
      else (or_fault (get_elem? p.forward_lats batch) out_of_range >>= λ e. ok (latency e))

  -- `GetPreprocessLatency` and `GetPostprocessLatency`.
  unfoldable pub get_preprocess_latency : ModelProfile D → D
  unfolding latency
  get_preprocess_latency p = latency p.preprocess

  unfoldable pub get_postprocess_latency : ModelProfile D → D
  unfolding latency
  get_postprocess_latency p = latency p.postprocess

  -- `GetMemoryUsage`.
  unfoldable pub get_memory_usage : ℕ → ModelProfile D → Outcome ℕ
  get_memory_usage batch p =
      if batch == 0 || leb (length p.forward_lats) batch
      then ok 0
      else (or_fault (get_elem? p.forward_lats batch) out_of_range >>= λ e. ok e.memory_usage)

  -- The budget of `GetMaxBatchWithFullBudget`, in microseconds; `network_latency_us_` is 2000.
  unfoldable pub full_budget : D → ModelProfile D → D
  unfolding get_preprocess_latency get_postprocess_latency
  full_budget time_budget_ms p =
      d.minus
        (d.minus (d.minus (d.times time_budget_ms (d.of_nat 1000)) (d.of_nat 2000))
          (get_preprocess_latency p))
        (get_postprocess_latency p)

  -- The loop of `GetMaxBatch` and `GetMaxBatchWithFullBudget`, with the number of batch sizes left.
  unfoldable pub first_unfit : ℕ → ℕ → D → ModelProfile D → Outcome ℕ
  unfolding latency
  first_unfit zero batch budget p = ok batch
  first_unfit (suc n) batch budget p =
      or_fault (get_elem? p.forward_lats batch) out_of_range >>= λ e.
      elim (d.below budget (latency e)) [
        | true ↦ ok batch
        | false ↦ first_unfit n (batch + 1) budget p
      ]

  unfoldable pub largest_fit : D → ModelProfile D → Outcome ℕ
  unfolding first_unfit
  largest_fit budget p = first_unfit (length p.forward_lats - 1) 1 budget p >>= λ batch.
      ok (if batch - 1 == 0 then 1 else batch - 1)

  -- `GetMaxBatch`, with half of the budget.
  unfoldable pub get_max_batch : D → ModelProfile D → Outcome ℕ
  unfolding full_budget largest_fit
  get_max_batch latency_sla_ms p =
      largest_fit (d.over (full_budget latency_sla_ms p) (d.of_nat 2)) p

  -- `GetMaxBatchWithFullBudget`.
  unfoldable pub get_max_batch_with_full_budget : D → ModelProfile D → Outcome ℕ
  unfolding full_budget largest_fit
  get_max_batch_with_full_budget time_budget_ms p = largest_fit (full_budget time_budget_ms p) p

  -- The loop of `GetMaxThroughput`, with the number of rounds left: the best batch so far and its
  -- throughput.
  unfoldable pub best_from : ℕ → ℕ → D → ModelProfile D → ℕ × D → Outcome (ℕ × D)
  unfolding get_forward_latency
  best_from zero batch budget p best = ok best
  best_from (suc n) batch budget p best = get_forward_latency batch p >>= λ lat.
      elim (d.below lat (d.of_nat 0) || d.below budget lat) [
        | true ↦ ok best
        | false ↦
            let tp = d.over (d.times (d.of_nat batch) (d.of_nat 1_000_000)) lat in
            best_from n (batch + 1) budget p (if d.below best.1 tp then (batch, tp) else best)
      ]

  -- `GetMaxThroughput`.
  unfoldable pub get_max_throughput : D → ModelProfile D → Outcome (ℕ × D)
  unfolding full_budget best_from
  get_max_throughput latency_sla_ms p =
      best_from (length p.forward_lats) 1 (d.times (full_budget latency_sla_ms p) d.half) p
        (0, d.of_nat 0)
