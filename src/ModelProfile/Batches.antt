-- ===== src/ModelProfile/Batches.antt =====
-- The searches of ModelProfile (model_db.cpp) over the batch sizes.
use nexuslb.Prelude.{
  ℕ, zero, suc, ◌+◌, ◌≡◌, ◌≤◌, ◌<◌, ◌⊎◌, inl, inr, refl, subst, true, false, ◌||◌, some, ◌==◌,
  ==_iff, leb, length, get_elem?, get_elem?-some, if◌then◌else◌, ok, fault, log_fatal, ◌>>=◌, arith,
  Bool-cases,
}
use nexuslb.ModelProfile.{
  Doubles, ProfileEntry, ModelProfile, latency, full_budget, get_forward_latency, best_from,
  get_max_throughput,
}

module _ {D : Type 0} (d : Doubles D) where
  -- The first batch size from `batch` on whose latency exceeds the budget, or the table's size.
  abbrev pub IsFirstUnfit : ℕ → D → ModelProfile D → ℕ → Type 0
  IsFirstUnfit batch budget p m =
      (batch ≤ m)
      × (m ≤ length p.forward_lats)
      × ((b : ℕ) (e : ProfileEntry D)
          → batch ≤ b
          → b < m
          → get_elem? p.forward_lats b ≡ some e
          → d.below budget (latency d e) ≡ false)
      × ((e : ProfileEntry D)
          → get_elem? p.forward_lats m ≡ some e
          → d.below budget (latency d e) ≡ true)

  before :
      (batch : ℕ) (budget : D) (p : ModelProfile D) (b : ℕ) (f g : ProfileEntry D)
      → get_elem? p.forward_lats batch ≡ some g
      → d.below budget (latency d g) ≡ false
      → (batch + 1 ≤ b → d.below budget (latency d f) ≡ false)
      → batch ≤ b
      → get_elem? p.forward_lats b ≡ some f
      → d.below budget (latency d f) ≡ false
  before batch budget p b f g e c later lo q = elim (Bool-cases (batch == b)) [
    | inl s ↦
        let same : batch ≡ b = (==_iff batch b).0 s in
        let entry : g ≡ f = cc in subst (λ x. d.below budget (latency d x) ≡ false) entry c
    | inr s ↦ later (ground arith)
  ]

  -- What a search returns: a batch size from 1, up to which every size is within the budget, if size
  -- 1 is, and the next size is not, if the table has it and size 1 is.
  abbrev pub IsLargestFit : D → ModelProfile D → ℕ → Type 0
  IsLargestFit budget p n =
      (0 < n)
      × ((b : ℕ) (e : ProfileEntry D)
          → 0 < b
          → b ≤ n
          → 1 < n
          → get_elem? p.forward_lats b ≡ some e
          → d.below budget (latency d e) ≡ false)
      × ((e f : ProfileEntry D)
          → get_elem? p.forward_lats 1 ≡ some e
          → d.below budget (latency d e) ≡ false
          → get_elem? p.forward_lats (n + 1) ≡ some f
          → d.below budget (latency d f) ≡ true)

  -- A latency of the table, or an abort outside of it.
  pub known_or_fatal :
      (b : ℕ) (p : ModelProfile D)
      → ((b < length p.forward_lats) × (l : D) × (get_forward_latency d b p ≡ ok l))
        ⊎ (get_forward_latency d b p ≡ fault log_fatal)
  unfolding get_forward_latency
  known_or_fatal b p = elim (Bool-cases (b == 0 || leb (length p.forward_lats) b)) [
    | inl out ↦ inr (rw out refl)
    | inr within ↦
        let at = get_elem?-some p.forward_lats b (ground arith) in
        inl (ground arith, latency d at.0, rw (within, at.1) refl)
  ]

  -- The same, with the size by the table's.
  pub table_or_fatal :
      (b : ℕ) (p : ModelProfile D)
      → 0 < b
      → ((b < length p.forward_lats) × (l : D) × (get_forward_latency d b p ≡ ok l))
        ⊎ ((length p.forward_lats ≤ b) × (get_forward_latency d b p ≡ fault log_fatal))
  unfolding get_forward_latency
  table_or_fatal b p pos = elim (Bool-cases (b == 0 || leb (length p.forward_lats) b)) [
    | inl out ↦ inr (ground arith, rw out refl)
    | inr within ↦
        let at = get_elem?-some p.forward_lats b (ground arith) in
        inl (ground arith, latency d at.0, rw (within, at.1) refl)
  ]

  best_from-fatal :
      (n batch : ℕ) (budget : D) (p : ModelProfile D) (best : ℕ × D)
      → length p.forward_lats < batch + n
      → batch ≤ length p.forward_lats
      → ((b : ℕ) (l : D)
          → get_forward_latency d b p ≡ ok l
          → (d.below l (d.of_nat 0) || d.below budget l) ≡ false)
      → best_from d n batch budget p best ≡ fault log_fatal
  unfolding best_from
  best_from-fatal zero batch budget p best e top fits = absurd (omega arith)
  best_from-fatal (suc n) batch budget p best e top fits = elim (known_or_fatal batch p) [
    | inl (lt, l, q) ↦
        rw (best_from, q, ◌>>=◌, fits batch l q)
          (best_from-fatal n (batch + 1) budget p
            (if d.below best.1 (d.over (d.times (d.of_nat batch) (d.of_nat 1_000_000)) l)
              then (batch, d.over (d.times (d.of_nat batch) (d.of_nat 1_000_000)) l)
              else best)
            (omega arith) (omega arith) fits)
    | inr q ↦ rw (best_from, q)
  ]

  -- If all latencies of a table are within the budget and none is negative, GetMaxThroughput aborts
  -- the process: it asks for the batch size after the last.
  pub get_max_throughput-fatal :
      (latency_sla_ms : D) (p : ModelProfile D)
      → 0 < length p.forward_lats
      → ((b : ℕ) (l : D)
          → get_forward_latency d b p ≡ ok l
          → (d.below l (d.of_nat 0) || d.below (d.times (full_budget d latency_sla_ms p) d.half) l)
            ≡ false)
      → get_max_throughput d latency_sla_ms p ≡ fault log_fatal
  unfolding get_max_throughput
  get_max_throughput-fatal latency_sla_ms p h fits =
      best_from-fatal (length p.forward_lats) 1 (d.times (full_budget d latency_sla_ms p) d.half) p
        (0, d.of_nat 0) (omega arith) (omega arith) fits
