-- ===== src/BatchPolicy/Conserved.antt =====
-- The queries that a policy of batch_policy.cpp holds: waiting, inputs and drops.
use nexuslb.Prelude.{
  ℕ, ◌+◌, ◌≤◌, ◌≡◌, refl, ap, ◌∙◌, inl, inr, Option, none, some, [], ◌∷◌, ◌++◌, ◌==◌, ltb, leb, min,
  length, ok, check_failed, arith, >>=-eq-ok, count, count-append, check, or_fault, Bool-cases,
}
use nexuslb.Profile.{ExecProfile}
use nexuslb.Query.{QueryContext, before, insert}
use nexuslb.BatchPolicy.{
  Queries, IncrementalBatchPolicy, finish_time, drop_timeouts, drop_head, free_lunch, round, expand,
  sanity_check, get_batch_by_expanded_window, update,
}

-- How often a query stands in a list, by its global id.
abbrev pub occurs : ℕ → Queries → ℕ
occurs g = count (λ q. q.global_id == g)

-- How often a query stands with the policy.
abbrev pub held : ℕ → IncrementalBatchPolicy → ℕ
held g b = occurs g b.queries + occurs g b.inputs + occurs g b.drops

occurs-insert :
    (g : ℕ) (q : QueryContext) (qs : Queries)
    → occurs q.global_id qs ≡ 0
    → occurs g (insert q qs) ≡ occurs g (q ∷ qs)
unfolding insert before
occurs-insert g q [] h = refl
occurs-insert g q (x ∷ xs) h = ground (arith, occurs-insert g q xs)

drop_timeouts-occurs :
    (g : ℕ) (p : ExecProfile) (exec_time : ℕ) (inputs drops : Queries) (w : Queries × Queries)
    → drop_timeouts p exec_time inputs drops ≡ ok w
    → occurs g w.0 + occurs g w.1 ≡ occurs g inputs + occurs g drops
unfolding drop_timeouts
drop_timeouts-occurs g p exec_time [] drops w e = ground arith
drop_timeouts-occurs g p exec_time (q ∷ inputs) drops w e =
    let b = >>=-eq-ok (finish_time p exec_time (length (q ∷ inputs))) _ e in
    ground (
      arith,
      b.2,
      drop_timeouts-occurs g p exec_time inputs (drops ++ q ∷ []) w,
      count-append (λ (q : QueryContext). q.global_id == g) drops (q ∷ []),
    )

drop_head-occurs :
    (g finish : ℕ) (inputs drops i d : Queries)
    → drop_head finish inputs drops ≡ ok (some (i, d))
    → occurs g i + occurs g d ≡ occurs g inputs + occurs g drops
unfolding drop_head
drop_head-occurs g finish [] drops i d e = absurd (cc)
drop_head-occurs g finish (h ∷ inputs) drops i d e =
    ground (arith, count-append (λ (q : QueryContext). q.global_id == g) drops (h ∷ []))

free_lunch-occurs :
    (g : ℕ) (p : ExecProfile) (exec_time : ℕ) (q : QueryContext) (inputs drops i d : Queries)
    → occurs q.global_id inputs ≡ 0
    → free_lunch p exec_time q inputs drops ≡ ok (some (i, d))
    → occurs g i + occurs g d ≡ occurs g (q ∷ inputs) + occurs g drops
unfolding free_lunch
free_lunch-occurs g p exec_time q [] drops i d u e = absurd (cc)
free_lunch-occurs g p exec_time q (h ∷ inputs) drops i d u e =
    let b = >>=-eq-ok (finish_time p exec_time (length (h ∷ inputs) + 1)) _ e in
    ground (arith, b.2, occurs-insert g q (h ∷ inputs) u)

round-occurs :
    (g : ℕ) (p : ExecProfile) (exec_time target remaining : ℕ) (q : QueryContext)
    (inputs drops i d : Queries)
    → occurs q.global_id inputs ≡ 0
    → round p exec_time target remaining q inputs drops ≡ ok (some (i, d))
    → occurs g i + occurs g d ≡ occurs g (q ∷ inputs) + occurs g drops
unfolding round
round-occurs g p exec_time target remaining q inputs drops i d u e =
    elim (Bool-cases (ltb (length inputs) target)) [
      | inl lt ↦
          let b =
            >>=-eq-ok (finish_time p exec_time (min target (length inputs + remaining)))
              (λ finish. drop_head finish (insert q inputs) drops) (rw (lt, round) at e) in
          omega (
            arith,
            drop_head-occurs g b.0 (insert q inputs) drops i d b.2,
            occurs-insert g q inputs u,
          )
      | inr ge ↦ free_lunch-occurs g p exec_time q inputs drops i d u (rw (ge, round) at e)
    ]

abbrev total : ℕ → Queries → Queries → Queries → ℕ
total g queries inputs drops = occurs g queries + occurs g inputs + occurs g drops

expand-occurs :
    (p : ExecProfile) (exec_time target : ℕ) (queries inputs drops : Queries)
    (w : Queries × Queries × Queries)
    → ((g : ℕ) → total g queries inputs drops ≤ 1)
    → expand p exec_time target queries inputs drops ≡ ok w
    → (g : ℕ) → total g w.0 w.1 w.2 ≡ total g queries inputs drops
unfolding expand
expand-occurs p exec_time target [] inputs drops w u e =
    let same : w ≡ ([], inputs, drops) = cc in λ g. ap (λ v. total g v.0 v.1 v.2) same
expand-occurs p exec_time target (q ∷ queries) inputs drops w u e =
    let b = >>=-eq-ok (round p exec_time target (length (q ∷ queries)) q inputs drops) _ e in
    by_round b.0 b.1 b.2 (λ i d. expand-occurs p exec_time target queries i d w)
  where
    by_round :
        (o : Option (Queries × Queries))
        → round p exec_time target (length (q ∷ queries)) q inputs drops ≡ ok o
        → (elim o [
          | none ↦ ok (q ∷ queries, inputs, drops)
          | some (i, d) ↦ expand p exec_time target queries i d
        ])
          ≡ ok w
        → ((i d : Queries)
            → ((g : ℕ) → total g queries i d ≤ 1)
            → expand p exec_time target queries i d ≡ ok w
            → (g : ℕ) → total g w.0 w.1 w.2 ≡ total g queries i d)
        → (g : ℕ) → total g w.0 w.1 w.2 ≡ total g (q ∷ queries) inputs drops
    by_round none r f go =
        let same : w ≡ (q ∷ queries, inputs, drops) = cc in λ g. ap (λ v. total g v.0 v.1 v.2) same
    by_round (some (i, d)) r f go =
        let fresh : occurs q.global_id inputs ≡ 0 = ground (arith, u q.global_id) in
        let moved = λ (g : ℕ).
          round-occurs g p exec_time target (length (q ∷ queries)) q inputs drops i d fresh r in
        λ g. step g (moved g) (go i d (λ k. bound k (moved k)) f g)
      where
        step :
            (g : ℕ)
            → occurs g i + occurs g d ≡ occurs g (q ∷ inputs) + occurs g drops
            → total g w.0 w.1 w.2 ≡ total g queries i d
            → total g w.0 w.1 w.2 ≡ total g (q ∷ queries) inputs drops
        step g m n = ground arith

        bound :
            (g : ℕ)
            → occurs g i + occurs g d ≡ occurs g (q ∷ inputs) + occurs g drops
            → total g queries i d ≤ 1
        bound g m = ground (arith, u g)

window-total :
    (p : ExecProfile) (exec_time target : ℕ) (queries inputs drops : Queries)
    (w : Queries × Queries × Queries)
    → ((g : ℕ) → total g queries inputs drops ≤ 1)
    → get_batch_by_expanded_window p exec_time target queries inputs drops ≡ ok w
    → (g : ℕ) → total g w.0 w.1 w.2 ≡ total g queries inputs drops
unfolding get_batch_by_expanded_window
window-total p exec_time target queries inputs drops w u e =
    let a = >>=-eq-ok (drop_timeouts p exec_time inputs drops) _ e in
    let c = >>=-eq-ok (expand p exec_time target queries a.0.0 a.0.1) _ a.2 in
    let d = >>=-eq-ok (sanity_check p exec_time c.0.1) _ c.2 in
    let same : w ≡ c.0 = cc (d.2) in
    let kept = λ (g : ℕ). drop_timeouts-occurs g p exec_time inputs drops a.0 a.1 in
    let grown =
      expand-occurs p exec_time target queries a.0.0 a.0.1 c.0 (λ g. omega (arith, kept g, u g))
        c.1 in
    λ g. ap (λ v. total g v.0 v.1 v.2) same ∙ omega (arith, kept g, grown g)

-- While no query stands twice with the policy, an update that returns keeps each query just as
-- often among the waiting ones, the inputs and the drops together.
pub update-held :
    (exec_time target : ℕ) (b b' : IncrementalBatchPolicy)
    → ((g : ℕ) → held g b ≤ 1)
    → update exec_time target b ≡ ok b'
    → (g : ℕ) → held g b' ≡ held g b
unfolding update
update-held exec_time target b b' u e =
    let a = >>=-eq-ok (or_fault b.profile check_failed) _ e in
    let c = >>=-eq-ok (check (leb b.last_exec_time exec_time)) _ a.2 in
    let w =
      >>=-eq-ok (get_batch_by_expanded_window a.0 exec_time target b.queries b.inputs b.drops) _
        c.2 in
    let same : b'
        ≡ record b { last_exec_time = exec_time; queries = w.0.0; inputs = w.0.1; drops = w.0.2 } =
      cc (w.2) in
    λ g. ap (held g) same ∙ window-total a.0 exec_time target b.queries b.inputs b.drops w.0 u w.1 g
