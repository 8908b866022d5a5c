-- ===== src/Rankmt/ModelThread/Candidate.antt =====
-- The candidate that `UpdateCandidate` of model_thread.cpp posts, and the deadlines of its batch. The
-- three latencies of a batch are rounded to nanoseconds one by one in batch_policy.cpp and together
-- here.
use nexuslb.Prelude.{
  ℕ, suc, ◌+◌, ◌≤◌, ◌<◌, ◌≡◌, refl, ap, ◌∙◌, ◌⊎◌, inl, inr, true, some, List, [], ◌∷◌, length,
  is_empty, Outcome, ok, ◌>>=◌, arith, Bool-cases,
}
use native.Mathlib.Numerals.{add-one}
use nexuslb.Profile.{ExecProfile, IsTable}
use nexuslb.BatchPolicy.{Queries}
use nexuslb.BatchPolicy.Feasible.{IsSorted, Meets, finish_at}
use nexuslb.BatchPolicy.Update.{update-ok}
use nexuslb.Rankmt.{ExecutionCandidate, time_max}
use nexuslb.Rankmt.ModelThread.{
  ModelThread, Reply, set_candidate, start_time, with_candidate, without_candidate, flush_drops,
  update_candidate,
}

-- Execution times for the batch sizes of a table and one more, which do not fall, and which exceed
-- the three latencies rounded one by one by 2 ns at most.
pub record IsExecTable (limit : ℕ) (lat elat : ℕ → ℕ) (p : ExecProfile) : Type 0 where
  pub known : (n : ℕ) → 0 < n → n ≤ limit + 1 → p.exec_ns n ≡ ok (elat n)
  pub rising : (n : ℕ) → elat n ≤ elat (suc n)
  pub rounded : (n : ℕ) → elat n ≤ lat n + (p.preprocess_ns + p.postprocess_ns) + 2

module _ (limit : ℕ) (lat elat : ℕ → ℕ) (p : ExecProfile) (table : IsTable limit lat p)
    (execs : IsExecTable limit lat elat p) where
  -- A candidate for a batch that can start at the earliest time: it starts no earlier, finishes by
  -- the first deadline up to 2 ns, and is invalid after the last start that meets it. Without a batch it is
  -- invalid from the start.
  abbrev pub IsGood : ℕ → Queries → ExecutionCandidate → Type 0
  IsGood earliest [] c = (c.exec_at ≡ time_max) × (c.invalid_after ≡ 0)
  IsGood earliest (h ∷ inputs) c =
      (earliest ≤ c.exec_at)
      × (c.exec_at + elat (length (h ∷ inputs)) ≤ h.deadline + 2)
      × (c.invalid_after + elat (length (h ∷ inputs)) ≡ h.deadline)

  start_time-ge :
      (earliest target size deadline frontrun : ℕ)
      → earliest ≤ start_time earliest target size deadline frontrun
  unfolding start_time
  start_time-ge earliest target size deadline frontrun = ground arith

  start_time-le :
      (earliest target size deadline : ℕ)
      → earliest + elat size ≤ deadline + 2
      → start_time earliest target size deadline (elat (size + 1)) + elat size ≤ deadline + 2
  unfolding start_time
  start_time-le earliest target size deadline h =
      let up : elat size ≤ elat (size + 1) = rw add-one (execs.rising size) in ground arith

  set_candidate-IsGood :
      (earliest : ℕ) (inputs : Queries) (t : ModelThread)
      → t.profile ≡ p
      → 2 ≤ earliest
      → length inputs ≤ limit
      → Meets (finish_at limit lat p table earliest (length inputs)) inputs
      → (t' : ModelThread) × (set_candidate earliest inputs t ≡ ok t')
        × IsGood earliest inputs t'.candidate
        × (t'.batch_policy ≡ t.batch_policy)
        × (t'.profile ≡ p)
        × (t'.gpus ≡ t.gpus)
        × (t'.config ≡ t.config)
  unfolding set_candidate
  set_candidate-IsGood earliest [] t e h l m =
      (without_candidate t, refl, (refl, refl), refl, e, refl, refl)
  set_candidate-IsGood earliest (q ∷ inputs) t e h l m =
      let n = suc (length inputs) in
      let now : t.profile.exec_ns n ≡ ok (elat n) =
        ap (λ r. r.exec_ns n) e ∙ execs.known n (omega arith) (omega arith) in
      let next : t.profile.exec_ns (n + 1) ≡ ok (elat (n + 1)) =
        ap (λ r. r.exec_ns (n + 1)) e ∙ execs.known (n + 1) (omega arith) (omega arith) in
      let exec_at = start_time earliest t.target_batch_size n q.deadline (elat (n + 1)) in
      (
        with_candidate q.deadline (elat n) exec_at t,
        rw (now, next),
        (
          start_time-ge earliest t.target_batch_size n q.deadline (elat (n + 1)),
          start_time-le earliest t.target_batch_size n q.deadline
              (omega (arith, execs.rounded n, m.0)),
          omega (arith, execs.rounded n, m.0),
        ),
        refl,
        e,
        refl,
        refl,
      )

  -- The thread uses the profile, its inputs are in order, and the table covers its queries.
  pub record IsReady (t : ModelThread) : Type 0 where
    pub profiled : t.profile ≡ p
    pub policy_profiled : t.batch_policy.profile ≡ some p
    pub covered : length t.batch_policy.inputs + length t.batch_policy.queries ≤ limit
    pub ordered : IsSorted t.batch_policy.inputs

  -- Flushing the drops changes nothing else.
  abbrev IsFlushed : ModelThread → ModelThread → Type 0
  IsFlushed t t' =
      (t'.candidate ≡ t.candidate)
      × (t'.batch_policy.inputs ≡ t.batch_policy.inputs)
      × (t'.batch_policy.queries ≡ t.batch_policy.queries)
      × (t'.batch_policy.profile ≡ t.batch_policy.profile)
      × (t'.batch_policy.last_exec_time ≡ t.batch_policy.last_exec_time)
      × (t'.batch_policy.drops ≡ [])
      × (t'.profile ≡ t.profile)
      × (t'.gpus ≡ t.gpus)
      × (t'.config ≡ t.config)

  nil_of_is_empty : (qs : Queries) → is_empty qs ≡ true → qs ≡ []
  nil_of_is_empty [] h = refl
  nil_of_is_empty (q ∷ qs) h = cc

  flush_drops-IsFlushed : (t : ModelThread) → IsFlushed t (flush_drops t).0
  unfolding flush_drops
  flush_drops-IsFlushed t = elim (Bool-cases (is_empty t.batch_policy.drops)) [
    | inl e ↦
        rw e
          (refl, refl, refl, refl, refl, nil_of_is_empty t.batch_policy.drops e, refl, refl, refl)
    | inr e ↦ rw e (refl, refl, refl, refl, refl, refl, refl, refl, refl)
  ]

  pub update_candidate-ok :
      (now : ℕ) (o : Outcome ℕ) (target : ℕ) (t : ModelThread)
      → IsReady t
      → 2 ≤ now
      → t.batch_policy.last_exec_time ≤ now + t.config.data_latency + t.config.ctrl_latency
      → o ≡ ok target
      → 0 < target
      → (t' : ModelThread) × (replies : List Reply) × (update_candidate now o t ≡ ok (t', replies))
        × IsGood
            (now + t.config.data_latency + t.config.ctrl_latency)
            t'.batch_policy.inputs
            t'.candidate
        × Meets
            (finish_at limit lat p table
              (now + t.config.data_latency + t.config.ctrl_latency)
              (length t'.batch_policy.inputs))
            t'.batch_policy.inputs
        × IsReady t'
        × (t'.gpus ≡ t.gpus)
        × (t'.config ≡ t.config)
        × (t'.batch_policy.last_exec_time ≡ now + t.config.data_latency + t.config.ctrl_latency)
        × (t'.batch_policy.drops ≡ [])
        × ((t'.batch_policy.queries ≡ []) ⊎ (target ≤ length t'.batch_policy.inputs))
  unfolding update_candidate
  update_candidate-ok now o target t r h c sized pos =
      let earliest = now + t.config.data_latency + t.config.ctrl_latency in
      let u =
        update-ok limit lat p table earliest target t.batch_policy r.policy_profiled c pos r.covered
          r.ordered in
      let t1 : ModelThread = record t { target_batch_size = target; batch_policy = u.0 } in
      let g =
        set_candidate-IsGood earliest u.0.inputs t1 r.profiled (omega arith) (omega (arith, u.5))
          u.3 in
      let f = flush_drops-IsFlushed g.0 in
      let ins : (flush_drops g.0).0.batch_policy.inputs ≡ u.0.inputs =
        f.1 ∙ ap (λ b. b.inputs) g.3 in
      let qs : (flush_drops g.0).0.batch_policy.queries ≡ u.0.queries =
        f.2 ∙ ap (λ b. b.queries) g.3 in
      (
        (flush_drops g.0).0,
        (flush_drops g.0).1,
        rw (sized, ◌>>=◌, u.1, g.1),
        rw (ins, f.0) g.2,
        rw ins u.3,
        record {
          profiled = f.6 ∙ g.4;
          policy_profiled = f.3 ∙ ap (λ b. b.profile) g.3 ∙ u.6;
          covered = rw (ins, qs) u.5;
          ordered = rw ins u.2;
        },
        f.7 ∙ g.5,
        f.8 ∙ g.6,
        f.4 ∙ ap (λ b. b.last_exec_time) g.3 ∙ u.7,
        f.5,
        rw (ins, qs) u.4,
      )
