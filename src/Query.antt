-- ===== src/Query.antt =====
-- src/nexus/dispatcher/query_context.h: queries, and the sorted sets of them.
-- A point in time is its nanoseconds counted from `TimePoint::min()`, so that `min()` is 0.
use nexuslb.Prelude.{ℕ, Bool, List, [], ◌∷◌, ◌&&◌, ◌||◌, ◌==◌, ltb, if◌then◌else◌}

-- The part of `DispatchRequest` that the scheduler reads, with the two fields of QueryContext.
pub record QueryContext : Type 0 where
  pub frontend_id : ℕ
  pub query_id : ℕ
  pub global_id : ℕ
  pub deadline : ℕ

-- `OrderByDeadlineASC`.
unfoldable pub before : QueryContext → QueryContext → Bool
before a b = ltb a.deadline b.deadline || (a.deadline == b.deadline && ltb a.global_id b.global_id)

-- `SortedQueryList::insert`: a query that is equivalent to one of the set is not added.
unfoldable pub insert : QueryContext → List QueryContext → List QueryContext
unfolding before
insert q [] = q ∷ []
insert q (x ∷ xs) =
    if before q x then q ∷ x ∷ xs else if before x q then x ∷ insert q xs else x ∷ xs
