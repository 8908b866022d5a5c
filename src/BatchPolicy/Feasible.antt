-- ===== src/BatchPolicy/Feasible.antt =====
-- The deadlines of the batch in the loops of batch_policy.cpp.
use nexuslb.Prelude.{
  ℕ, suc, ◌+◌, ◌≤◌, ◌<◌, ◌≡◌, refl, subst, inl, inr, Option, none, some, [], ◌∷◌, ◌++◌, ltb, leb,
  min, length, Outcome, ok, fault, All, arith, Bool-cases, ltb→lt, ltb→le, leb→le,
}
use nexuslb.Profile.{ExecProfile, IsTable}
use nexuslb.Query.{QueryContext, before, insert}
use nexuslb.BatchPolicy.{Queries, finish_time, drop_timeouts, drop_head, free_lunch, round}

-- Earliest deadline first.
abbrev pub IsSorted : Queries → Type 0
IsSorted [] = Unit
IsSorted (q ∷ qs) = All (λ y. q.deadline ≤ y.deadline) qs × IsSorted qs

-- Every query can wait until the time.
abbrev pub Meets : ℕ → Queries → Type 0
Meets t = All (λ q. t ≤ q.deadline)

pub Meets-mono : (s t : ℕ) (qs : Queries) → s ≤ t → Meets t qs → Meets s qs
Meets-mono s t [] h m = tt
Meets-mono s t (q ∷ qs) h m = (omega arith, Meets-mono s t qs h m.1)

Meets-insert :
    (t : ℕ) (q : QueryContext) (qs : Queries) → t ≤ q.deadline → Meets t qs → Meets t (insert q qs)
unfolding insert
Meets-insert t q [] h m = (h, tt)
Meets-insert t q (x ∷ xs) h m = ground (arith, Meets-insert t q xs h m.1)

insert-IsSorted : (q : QueryContext) (qs : Queries) → IsSorted qs → IsSorted (insert q qs)
unfolding insert
insert-IsSorted q [] s = (tt, tt)
insert-IsSorted q (x ∷ xs) s = ground (
  arith,
  insert-IsSorted q xs s.1,
  Meets-insert x.deadline q xs,
  Meets-mono q.deadline x.deadline xs,
)

insert-length :
    (q : QueryContext) (qs : Queries)
    → (length qs ≤ length (insert q qs)) × (length (insert q qs) ≤ length qs + 1)
unfolding insert
insert-length q [] = omega arith
insert-length q (x ∷ xs) = ground (arith, insert-length q xs)

-- What is left behind the head, once a query went in.
drop-insert :
    (t : ℕ) (q : QueryContext) (qs : Queries)
    → IsSorted qs
    → Meets t qs
    → (h : QueryContext) × (rest : Queries) × (insert q qs ≡ h ∷ rest)
      × Meets t rest
      × (length rest ≤ length qs)
unfolding insert
drop-insert t q [] s m = (q, [], refl, tt, omega arith)
drop-insert t q (x ∷ xs) s m = elim (Bool-cases (before q x)) [
  | inl e ↦ (q, x ∷ xs, rw (e, insert), m, omega arith)
  | inr e ↦ elim (Bool-cases (before x q)) [
    | inl f ↦ (
      x,
      insert q xs,
      rw (e, f, insert),
      Meets-insert t q xs (ground arith) m.1,
      omega (arith, insert-length q xs),
    )
    | inr f ↦ (x, xs, rw (e, f, insert), m.1, omega arith)
  ]
]

module _ (limit : ℕ) (lat : ℕ → ℕ) (p : ExecProfile) (table : IsTable limit lat p)
    (exec_time : ℕ) where
  -- When a batch of a size is done.
  abbrev pub finish_at : ℕ → ℕ
  finish_at n = exec_time + lat n + (p.preprocess_ns + p.postprocess_ns)

  -- The batch is in order, and is done before its first deadline and so before all of them.
  abbrev pub IsFeasible : Queries → Type 0
  IsFeasible inputs = IsSorted inputs × Meets (finish_at (length inputs)) inputs

  pub finish_time-eq-ok : (n : ℕ) → 0 < n → n ≤ limit → finish_time p exec_time n ≡ ok (finish_at n)
  unfolding finish_time
  finish_time-eq-ok n h l = rw (table.covered n h l)

  pub drop_timeouts-ok :
      (inputs drops : Queries)
      → length inputs ≤ limit
      → IsSorted inputs
      → (kept : Queries) × (drops' : Queries) × (drop_timeouts p exec_time inputs drops
          ≡ ok (kept, drops'))
        × IsFeasible kept
        × (length kept ≤ length inputs)
  unfolding drop_timeouts
  drop_timeouts-ok [] drops l s = ([], drops, refl, (tt, tt), omega arith)
  drop_timeouts-ok (q ∷ qs) drops l s =
      elim (Bool-cases (leb (finish_at (length (q ∷ qs))) q.deadline)) [
        | inl fits ↦ (
          q ∷ qs,
          drops,
          rw (finish_time-eq-ok (suc (length qs)) (omega arith) l, fits),
          (s, (leb→le _ _ fits, Meets-mono _ q.deadline qs (leb→le _ _ fits) s.0)),
          omega arith,
        )
        | inr late ↦
            let rest = drop_timeouts-ok qs (drops ++ q ∷ []) (omega arith) s.1 in
            (
              rest.0,
              rest.1,
              rw (finish_time-eq-ok (suc (length qs)) (omega arith) l, late) rest.2,
              rest.3,
              omega (arith, rest.4),
            )
      ]

  -- What a round of the second loop leaves.
  unfoldable pub Round : ℕ → Queries → Outcome (Option (Queries × Queries)) → Type 0
  Round target inputs (fault e) = ⊥
  Round target inputs (ok none) = target ≤ length inputs
  Round target inputs (ok (some (i, d))) = IsFeasible i × (length i ≤ length inputs + 1)

  drop_head-Round :
      (target bs : ℕ) (q : QueryContext) (inputs drops : Queries)
      → length inputs < bs
      → bs ≤ limit
      → IsFeasible inputs
      → Round target inputs (drop_head (finish_at bs) (insert q inputs) drops)
  unfolding Round drop_head
  drop_head-Round target bs q inputs drops b l f =
      let d = drop-insert (finish_at (length inputs)) q inputs f.0 f.1 in
      rw d.2 (by_head d.0 d.1 d.3 d.4 (subst IsSorted d.2 (insert-IsSorted q inputs f.0)))
    where
      by_head :
          (h : QueryContext) (rest : Queries)
          → Meets (finish_at (length inputs)) rest
          → length rest ≤ length inputs
          → IsSorted (h ∷ rest)
          → Round target inputs (drop_head (finish_at bs) (h ∷ rest) drops)
      by_head h rest m n s = elim (Bool-cases (ltb h.deadline (finish_at bs))) [
        | inl late ↦ rw late (
          (
            s.1,
            Meets-mono _ _ rest
                (omega (arith, table.monotone (length rest) (length inputs) n (omega arith))) m,
          ),
          omega arith,
        )
        | inr fits ↦
            let t : finish_at (length (h ∷ rest)) ≤ h.deadline =
              omega
                (arith, ltb→le _ _ fits, table.monotone (suc (length rest)) bs (omega arith) l) in
            rw fits ((s, (t, Meets-mono _ h.deadline rest t s.0)), omega arith)
      ]

  free_lunch-Round :
      (target : ℕ) (q : QueryContext) (inputs drops : Queries)
      → 0 < target
      → target ≤ length inputs
      → length inputs + 1 ≤ limit
      → IsFeasible inputs
      → Round target inputs (free_lunch p exec_time q inputs drops)
  unfolding Round free_lunch
  free_lunch-Round target q [] drops h t l f = absurd (omega arith)
  free_lunch-Round target q (x ∷ xs) drops h t l f =
      elim (Bool-cases (ltb (finish_at (length (x ∷ xs) + 1)) (min x.deadline q.deadline))) [
        | inl free ↦
            let small : finish_at (length (insert q (x ∷ xs))) ≤ finish_at (length (x ∷ xs) + 1) =
              omega (
                arith,
                table.monotone (length (insert q (x ∷ xs))) (length (x ∷ xs) + 1)
                    (omega (arith, insert-length q (x ∷ xs))) l,
              ) in
            let above : finish_at (length (x ∷ xs) + 1) ≤ x.deadline =
              omega (arith, ltb→lt _ _ free) in
            rw (finish_time-eq-ok (length (x ∷ xs) + 1) (omega arith) l, free)
              (
                (
                  insert-IsSorted q (x ∷ xs) f.0,
                  Meets-insert _ q (x ∷ xs) (omega (arith, ltb→lt _ _ free))
                      (omega arith, Meets-mono _ x.deadline xs (omega arith) f.0.0),
                ),
                omega (arith, insert-length q (x ∷ xs)),
              )
        | inr costly ↦ rw (finish_time-eq-ok (length (x ∷ xs) + 1) (omega arith) l, costly) t
      ]

  pub round-Round :
      (target remaining : ℕ) (q : QueryContext) (inputs drops : Queries)
      → 0 < target
      → 0 < remaining
      → length inputs + remaining ≤ limit
      → IsFeasible inputs
      → Round target inputs (round p exec_time target remaining q inputs drops)
  unfolding round
  round-Round target remaining q inputs drops h r l f =
      elim (Bool-cases (ltb (length inputs) target)) [
        | inl lt ↦
            rw
              (
                lt,
                round,
                finish_time-eq-ok (min target (length inputs + remaining)) (omega (arith, ltb→lt))
                    (omega arith),
              )
              (drop_head-Round target (min target (length inputs + remaining)) q inputs drops
                (omega (arith, ltb→lt)) (omega arith) f)
        | inr ge ↦
            rw (ge, round)
              (free_lunch-Round target q inputs drops h (ltb→le _ _ ge) (omega arith) f)
      ]
