-- ===== src/BatchPolicy/Update.antt =====
-- `IncrementalBatchPolicy::Update` (batch_policy.cpp) on a table of latencies, and at its end.
use nexuslb.Prelude.{
  ℕ, suc, ◌+◌, ◌≤◌, ◌<◌, ◌≡◌, refl, sym, ap, ◌∙◌, ◌⊎◌, inl, inr, false, Option, none, some, [], ◌∷◌,
  ltb, length, Outcome, ok, fault, log_fatal, arith, le→leb, le→ltb,
}
use nexuslb.Profile.{ExecProfile, IsTable}
use nexuslb.Query.{QueryContext}
use nexuslb.BatchPolicy.{
  Queries, IncrementalBatchPolicy, drop_timeouts, round, expand, sanity_check,
  get_batch_by_expanded_window, update, finish_time, free_lunch,
}
use nexuslb.BatchPolicy.Feasible.{
  IsSorted, Meets, IsFeasible, Round, drop_timeouts-ok, round-Round, finish_time-eq-ok, finish_at,
}

module _ (limit : ℕ) (lat : ℕ → ℕ) (p : ExecProfile) (table : IsTable limit lat p)
    (exec_time : ℕ) where
  abbrev Feasible : Queries → Type 0
  Feasible = IsFeasible limit lat p table exec_time

  -- The queries left, the inputs and the drops after the second loop.
  abbrev Window : ℕ → Queries × Queries × Queries → Type 0
  Window target w =
      Feasible w.1 × ((w.0 ≡ []) ⊎ (target ≤ length w.1)) × (length w.1 + length w.0 ≤ limit)

  expand-ok :
      (target : ℕ) (queries inputs drops : Queries)
      → 0 < target
      → length inputs + length queries ≤ limit
      → Feasible inputs
      → (w : Queries × Queries × Queries) × (expand p exec_time target queries inputs drops ≡ ok w)
        × Window target w
  unfolding expand Round
  expand-ok target [] inputs drops h l f = (([], inputs, drops), refl, (f, inl refl, omega arith))
  expand-ok target (q ∷ queries) inputs drops h l f =
      by_round (round p exec_time target (length (q ∷ queries)) q inputs drops) refl
        (round-Round limit lat p table exec_time target (length (q ∷ queries)) q inputs drops h
          (omega arith) l f)
        (λ i d. expand-ok target queries i d h)
    where
      by_round :
          (o : Outcome (Option (Queries × Queries)))
          → round p exec_time target (length (q ∷ queries)) q inputs drops ≡ o
          → Round limit lat p table exec_time target inputs o
          → ((i d : Queries)
              → length i + length queries ≤ limit
              → Feasible i
              → (w : Queries × Queries × Queries) × (expand p exec_time target queries i d ≡ ok w)
                × Window target w)
          → (w : Queries × Queries × Queries) × (expand p exec_time target
                (q ∷ queries)
                inputs
                drops
              ≡ ok w)
            × Window target w
      by_round (fault e) eq r go = absurd r
      by_round (ok none) eq r go = ((q ∷ queries, inputs, drops), rw eq, (f, inr r, l))
      by_round (ok (some (i, d))) eq r go =
          let g = go i d (omega (arith, r.1)) r.0 in (g.0, rw eq g.1, g.2)

  sanity_check-ok :
      (inputs : Queries)
      → length inputs ≤ limit
      → Feasible inputs
      → sanity_check p exec_time inputs ≡ ok tt
  unfolding sanity_check
  sanity_check-ok [] l f = refl
  sanity_check-ok (h ∷ inputs) l f = rw (
    finish_time-eq-ok limit lat p table exec_time (suc (length inputs)) (omega arith) l,
    le→leb _ _ f.1.0,
  )

  -- On a profile whose table covers all waiting queries, for a positive target, inputs in order and an
  -- execution time that does not go back, `Update` returns: none of its checks fails
  -- and no latency is missing. Afterwards the inputs are sorted and the batch finishes before each
  -- of their deadlines, queries are left waiting only if the batch has the target size, and the table
  -- still covers them all.
  pub update-ok :
      (target : ℕ) (b : IncrementalBatchPolicy)
      → b.profile ≡ some p
      → b.last_exec_time ≤ exec_time
      → 0 < target
      → length b.inputs + length b.queries ≤ limit
      → IsSorted b.inputs
      → (b' : IncrementalBatchPolicy) × (update exec_time target b ≡ ok b')
        × IsSorted b'.inputs
        × Meets (finish_at limit lat p table exec_time (length b'.inputs)) b'.inputs
        × ((b'.queries ≡ []) ⊎ (target ≤ length b'.inputs))
        × (length b'.inputs + length b'.queries ≤ limit)
        × (b'.profile ≡ some p)
        × (b'.last_exec_time ≡ exec_time)
  unfolding update get_batch_by_expanded_window
  update-ok target b pr now h l s =
      let d = drop_timeouts-ok limit lat p table exec_time b.inputs b.drops (omega arith) s in
      let w = expand-ok target b.queries d.0 d.1 h (omega (arith, d.4)) d.3 in
      let c = sanity_check-ok w.0.1 (omega (arith, w.2.2)) w.2.0 in
      (
        record b { last_exec_time = exec_time; queries = w.0.0; inputs = w.0.1; drops = w.0.2 },
        rw (pr, le→leb _ _ now, d.2, w.1, c),
        w.2.0.0,
        w.2.0.1,
        w.2.1,
        w.2.2,
        pr,
        refl,
      )

  -- A backlog behind a full batch at the end of the table aborts the process: the batch is on time,
  -- and the latency of one more query is asked for.
  pub update_backlog :
      (target : ℕ) (b : IncrementalBatchPolicy) (h q : QueryContext) (rest queries : Queries)
      → b.profile ≡ some p
      → b.last_exec_time ≤ exec_time
      → b.inputs ≡ h ∷ rest
      → b.queries ≡ q ∷ queries
      → length b.inputs ≡ limit
      → target ≤ limit
      → finish_at limit lat p table exec_time limit ≤ h.deadline
      → p.forward_ns (limit + 1) ≡ fault log_fatal
      → update exec_time target b ≡ fault log_fatal
  unfolding update get_batch_by_expanded_window drop_timeouts expand round free_lunch finish_time
  update_backlog target b h q rest queries pr now i w full t fits no_entry =
      let n : length (h ∷ rest) ≡ limit = sym (ap length i) ∙ full in
      let big : ltb (length (h ∷ rest)) target ≡ false = le→ltb _ _ (omega arith) in
      let e : p.forward_ns (length (h ∷ rest)) ≡ ok (lat limit) =
        ap p.forward_ns n ∙ table.covered limit (omega arith) (omega arith) in
      let e' : p.forward_ns (length (h ∷ rest) + 1) ≡ fault log_fatal =
        ap (λ (k : ℕ). p.forward_ns (k + 1)) n ∙ no_entry in
      rw (pr, le→leb _ _ now, i, w, e, le→leb _ _ fits, big, e')
