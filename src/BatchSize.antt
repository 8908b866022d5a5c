-- ===== src/BatchSize.antt =====
-- src/nexus/dispatcher/batch_size_estimator.cpp. The loops have no end of their own: a latency past the
-- table's end aborts the process, so one round more than the table has entries is enough, and the
-- fault at the end of the fuel is not reached. `micro` is the double 1e-6.
pub mod Range
mod Tests
use nexuslb.Prelude.{
  ℕ, zero, suc, ◌+◌, ◌-◌, Bool, true, false, max, length, if◌then◌else◌, Outcome, ok, fault,
  undefined, ◌>>=◌,
}
use nexuslb.ModelProfile.{Doubles, ModelProfile, get_forward_latency}

module _ {D : Type 0} (d : Doubles D) (micro : D) where
  -- The loop of `EstimateBatchSize`: the batch size and the number of GPUs.
  unfoldable pub estimate_from : ℕ → ℕ → ModelProfile D → D → D → Outcome (ℕ × D)
  estimate_from zero bs p time_budget rps = fault undefined
  estimate_from (suc n) bs p time_budget rps = get_forward_latency d bs p >>= λ lat.
      let l = d.times lat micro in
      let gpus = d.over rps (d.over (d.of_nat bs) l) in
      let n1 = if d.below (d.of_nat 1) gpus then gpus else d.of_nat 1 in
      let need = d.times l (d.plus (d.of_nat 1) (d.over (d.of_nat 1) n1)) in
      elim (d.below time_budget need) [
        | true ↦ ok (max 1 (bs - 1), gpus)
        | false ↦ estimate_from n (bs + 1) p time_budget rps
      ]

  -- `EstimateBatchSize`.
  unfoldable pub estimate_batch_size : ModelProfile D → D → D → Outcome (ℕ × D)
  unfolding estimate_from
  estimate_batch_size p time_budget rps =
      estimate_from (suc (length p.forward_lats)) 1 p time_budget rps

  -- The loop of `Estimate` for less than a GPU.
  unfoldable pub shared_from : ℕ → ℕ → ModelProfile D → D → D → Outcome ℕ
  shared_from zero bs p time_budget r = fault undefined
  shared_from (suc n) bs p time_budget r = get_forward_latency d bs p >>= λ lat.
      elim (d.below time_budget (d.plus (d.times lat micro) (d.over (d.of_nat bs) r))) [
        | true ↦ ok (bs - 1)
        | false ↦ shared_from n (bs + 1) p time_budget r
      ]

  -- `Estimate`, of an estimator with the two multipliers.
  unfoldable pub estimate : D → D → ModelProfile D → D → D → D → Outcome ℕ
  unfolding estimate_batch_size shared_from
  estimate xrps xstd p time_budget rps std =
      let r = d.plus (d.times rps xrps) (d.times std xstd) in
      estimate_batch_size p time_budget r >>= λ res.
      if d.below (d.of_nat 1) res.1
      then ok res.0
      else shared_from (suc (length p.forward_lats)) 2 p time_budget r
