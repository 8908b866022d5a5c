-- ===== src/BatchSize/Range.antt =====
-- Which batch size the searches of batch_size_estimator.cpp find.
use nexuslb.Prelude.{
  ℕ, zero, suc, ◌+◌, ◌-◌, ◌≡◌, ◌≤◌, ◌<◌, ◌⊎◌, inl, inr, refl, sym, subst, ◌∙◌, Bool, true, false,
  max, length, if◌then◌else◌, Outcome, ok, fault, log_fatal, ◌>>=◌, arith, Bool-cases,
}
use native.Mathlib.Decide.{dec_lt}
use nexuslb.ModelProfile.{Doubles, ModelProfile, get_forward_latency}
use nexuslb.ModelProfile.Batches.{table_or_fatal}
use nexuslb.BatchSize.{estimate_from, estimate_batch_size, shared_from, estimate}

module _ {D : Type 0} (d : Doubles D) (micro : D) where
  -- The number of GPUs that a rate keeps busy with batches of a size and a latency.
  abbrev pub gpus_for : D → ℕ → D → D
  gpus_for rate bs lat = d.over rate (d.over (d.of_nat bs) (d.times lat micro))

  -- A batch and the wait for one of the GPUs, of which there is at least one, take longer than the
  -- budget.
  abbrev pub is_over : D → D → ℕ → D → Bool
  is_over budget rate bs lat =
      if d.below (d.of_nat 1) (gpus_for rate bs lat)
      then d.below budget (
          d.times (d.times lat micro)
            (d.plus (d.of_nat 1) (d.over (d.of_nat 1) (gpus_for rate bs lat))))
      else d.below budget
          (d.times (d.times lat micro) (d.plus (d.of_nat 1) (d.over (d.of_nat 1) (d.of_nat 1))))

  -- A batch and the wait until it is full take longer than the budget.
  abbrev pub is_shared_over : D → D → ℕ → D → Bool
  is_shared_over budget rate bs lat =
      d.below budget (d.plus (d.times lat micro) (d.over (d.of_nat bs) rate))

  module _ (p : ModelProfile D) (start : ℕ) (over : ℕ → D → Bool) where
    -- A size of the table that is not over.
    abbrev pub Fits : ℕ → Type 0
    Fits bs = (lat : D) × (get_forward_latency d bs p ≡ ok lat) × (over bs lat ≡ false)

    -- The first size from the start that is over.
    abbrev pub FirstOver : ℕ → D → Type 0
    FirstOver bs lat =
        (start ≤ bs)
        × (bs < length p.forward_lats)
        × (get_forward_latency d bs p ≡ ok lat)
        × (over bs lat ≡ true)
        × ((k : ℕ) → start ≤ k → k < bs → Fits k)

    -- No size of the table is over.
    abbrev pub AllFit : Type 0
    AllFit = (k : ℕ) → start ≤ k → k < length p.forward_lats → Fits k

    one_more :
        (bs : ℕ)
        → ((k : ℕ) → start ≤ k → k < bs → Fits k)
        → Fits bs
        → (k : ℕ) → start ≤ k
        → k < bs + 1
        → Fits k
    one_more bs fit here k s l = elim (dec_lt k bs) [
      | yes lt ↦ fit k s lt
      | no ge ↦ let same : bs ≡ k = omega arith in subst Fits same here
    ]

  -- What `EstimateBatchSize` returns, on a search from a size on.
  abbrev pub Estimated : ModelProfile D → D → D → Outcome (ℕ × D) → Type 0
  Estimated p budget rate o =
      (AllFit p 1 (is_over budget rate) × (o ≡ fault log_fatal))
      ⊎ ((bs : ℕ) × (lat : D) × FirstOver p 1 (is_over budget rate) bs lat
          × (o ≡ ok (max 1 (bs - 1), gpus_for rate bs lat)))

  estimate_from-Estimated :
      (n bs : ℕ) (p : ModelProfile D) (budget rate : D)
      → 0 < bs
      → bs ≤ length p.forward_lats + 1
      → length p.forward_lats + 1 < bs + n
      → ((k : ℕ) → 1 ≤ k → k < bs → Fits p 1 (is_over budget rate) k)
      → Estimated p budget rate (estimate_from d micro n bs p budget rate)
  unfolding estimate_from
  estimate_from-Estimated zero bs p budget rate pos top enough fit = absurd (omega arith)
  estimate_from-Estimated (suc n) bs p budget rate pos top enough fit =
      elim (table_or_fatal d bs p pos) [
        | inr (past, q) ↦ inl (λ k s l. fit k s (omega arith), rw (estimate_from, q) refl)
        | inl (lt, lat, q) ↦
            let l = d.times lat micro in
            let gpus = d.over rate (d.over (d.of_nat bs) l) in
            let n1 = if d.below (d.of_nat 1) gpus then gpus else d.of_nat 1 in
            let need = d.times l (d.plus (d.of_nat 1) (d.over (d.of_nat 1) n1)) in
            let same : d.below budget need ≡ is_over budget rate bs lat = by_gpus budget l gpus in
            elim (Bool-cases (d.below budget need)) [
              | inl c ↦
                  inr
                    (bs, lat, (pos, lt, q, sym same ∙ c, fit), rw (estimate_from, q, ◌>>=◌, c) refl)
              | inr c ↦
                  rw (estimate_from, q, ◌>>=◌, c)
                    (estimate_from-Estimated n (bs + 1) p budget rate (omega arith) (omega arith)
                      (omega arith)
                      (one_more p 1 (is_over budget rate) bs fit (lat, q, sym same ∙ c)))
            ]
      ]
    where
      by_gpus :
          (budget l g : D)
          → d.below budget (
              d.times l (
                d.plus
                  (d.of_nat 1)
                  (d.over (d.of_nat 1) (if d.below (d.of_nat 1) g then g else d.of_nat 1))))
            ≡ (if d.below (d.of_nat 1) g
                then d.below budget (d.times l (d.plus (d.of_nat 1) (d.over (d.of_nat 1) g)))
                else d.below budget
                    (d.times l (d.plus (d.of_nat 1) (d.over (d.of_nat 1) (d.of_nat 1)))))
      by_gpus budget l g = elim (Bool-cases (d.below (d.of_nat 1) g)) [
        | inl q ↦ rw q refl
        | inr q ↦ rw q refl
      ]

  -- What the search for less than a GPU returns.
  abbrev pub Shared : ModelProfile D → D → D → Outcome ℕ → Type 0
  Shared p budget rate o =
      (AllFit p 2 (is_shared_over budget rate) × (o ≡ fault log_fatal))
      ⊎ ((bs : ℕ) × (lat : D) × FirstOver p 2 (is_shared_over budget rate) bs lat
          × (o ≡ ok (bs - 1)))

  shared_from-Shared :
      (n bs : ℕ) (p : ModelProfile D) (budget rate : D)
      → 2 ≤ bs
      → bs ≤ length p.forward_lats + 1
      → length p.forward_lats + 1 < bs + n
      → ((k : ℕ) → 2 ≤ k → k < bs → Fits p 2 (is_shared_over budget rate) k)
      → Shared p budget rate (shared_from d micro n bs p budget rate)
  unfolding shared_from
  shared_from-Shared zero bs p budget rate pos top enough fit = absurd (omega arith)
  shared_from-Shared (suc n) bs p budget rate pos top enough fit =
      elim (table_or_fatal d bs p (omega arith)) [
        | inr (past, q) ↦ inl (λ k s l. fit k s (omega arith), rw (shared_from, q) refl)
        | inl (lt, lat, q) ↦ elim (Bool-cases (is_shared_over budget rate bs lat)) [
          | inl c ↦ inr (bs, lat, (pos, lt, q, c, fit), rw (shared_from, q, ◌>>=◌, c) refl)
          | inr c ↦
              rw (shared_from, q, ◌>>=◌, c)
                (shared_from-Shared n (bs + 1) p budget rate (omega arith) (omega arith)
                  (omega arith) (one_more p 2 (is_shared_over budget rate) bs fit (lat, q, c)))
        ]
      ]

  -- Both searches: all sizes fit the first, the first size that is over keeps more than one GPU busy, or
  -- the second search follows.
  abbrev pub Found : ModelProfile D → D → D → Outcome ℕ → Type 0
  Found p budget rate o =
      (AllFit p 1 (is_over budget rate) × (o ≡ fault log_fatal))
      ⊎ ((bs : ℕ) × (lat : D) × FirstOver p 1 (is_over budget rate) bs lat
          × (((d.below (d.of_nat 1) (gpus_for rate bs lat) ≡ true) × (o ≡ ok (max 1 (bs - 1))))
              ⊎ ((d.below (d.of_nat 1) (gpus_for rate bs lat) ≡ false) × Shared p budget rate o)))

  -- Estimate searches the table for the first batch size that, with the wait for one of the GPUs that
  -- the rate keeps busy, is over the budget. If all fit, it aborts the process. If the first that is
  -- over keeps more than one GPU busy, it returns the size before, and 1 at the least. Else it searches
  -- for the first size from 2 on that is over the budget with the wait until the batch is full, and
  -- returns the size before, or aborts the process if all fit.
  pub estimate-first :
      (xrps xstd : D) (p : ModelProfile D) (budget rps std : D)
      → Found p budget
          (d.plus (d.times rps xrps) (d.times std xstd))
          (estimate d micro xrps xstd p budget rps std)
  unfolding estimate estimate_batch_size
  estimate-first xrps xstd p budget rps std =
      elim (estimate_from-Estimated (suc (length p.forward_lats)) 1 p budget r (omega arith)
        (omega arith) (omega arith) (λ k s l. absurd (omega arith))) [
          | inl (fit, q) ↦ inl (fit, rw q refl)
          | inr (bs, lat, over, q) ↦ inr (bs, lat, over, by_gpus bs lat over q)
        ]
    where
      r : D
      r = d.plus (d.times rps xrps) (d.times std xstd)

      by_gpus :
          (bs : ℕ) (lat : D)
          → FirstOver p 1 (is_over budget r) bs lat
          → estimate_from d micro (suc (length p.forward_lats)) 1 p budget r
            ≡ ok (max 1 (bs - 1), gpus_for r bs lat)
          → ((d.below (d.of_nat 1) (gpus_for r bs lat) ≡ true)
              × (estimate d micro xrps xstd p budget rps std ≡ ok (max 1 (bs - 1))))
            ⊎ ((d.below (d.of_nat 1) (gpus_for r bs lat) ≡ false)
                × Shared p budget r (estimate d micro xrps xstd p budget rps std))
      by_gpus bs lat over q = elim (Bool-cases (d.below (d.of_nat 1) (gpus_for r bs lat))) [
        | inl c ↦ inl (c, rw (q, ◌>>=◌, c) refl)
        | inr c ↦ inr (
          c,
          rw (q, ◌>>=◌, c)
              (shared_from-Shared (suc (length p.forward_lats)) 2 p budget r (omega arith)
                (omega (arith, over.0, over.1)) (omega arith) (λ k s l. absurd (omega arith))),
        )
      ]
