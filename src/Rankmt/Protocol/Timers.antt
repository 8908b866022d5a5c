-- ===== src/Rankmt/Protocol/Timers.antt =====
-- `OnPlanTimer` and `OnGpuTimer` of rank_thread.cpp under the protocol.
use nexuslb.Prelude.{
  ℕ, ◌≡◌, refl, sym, ap, subst, ◌∙◌, inl, inr, true, Option, none, some, List, contains, get_elem?,
  set, is_some,
}
use nexuslb.Rankmt.{ExecutionCandidate, GrantedGpuMessage, time_max}
use nexuslb.Rankmt.RankThread.State.{GpuContext, ModelData, RankThread, find_gpu}
use nexuslb.Rankmt.RankThread.Handlers.{on_plan_timer, update_gpu}
use nexuslb.Rankmt.RankThread.Plans.{Has, IsPlanned, Grants}
use nexuslb.Rankmt.RankThread.GpuPool.{
  IsPooled, gpu_ids, gpu_ids-set, contains-find_gpu, free_time-find,
}
use nexuslb.Rankmt.RankThread.GpuChanges.{reset}
use nexuslb.Rankmt.RankThread.GpuTimer.{Answers, on_gpu_timer-run}
use nexuslb.Rankmt.RankThread.PlanTimer.{Assigns, Plans, on_plan_timer-ok}
use nexuslb.Rankmt.Protocol.{Phase, System, with_rank, fire}
use nexuslb.Rankmt.Protocol.Turns.{
  Turn, open_turn, granted_turn, held_turn, resumed_turn, IsKnown-mono, Owners, Owners-set, Covers,
  IsSafe, Succeeds,
}

abbrev granted : GrantedGpuMessage → ModelData → ModelData
granted msg m = record m {
  link = record m.link { granted_gpu = some msg };
  candidate = none;
  rejecting_candidates = true;
}

-- A model with a candidate has the turn, and loses it with the grant.
Turn-granted :
    (m : ModelData) (c : ExecutionCandidate) (msg : GrantedGpuMessage) (p : Phase)
    → m.candidate ≡ some c
    → Turn m p
    → Turn (granted msg m) p
Turn-granted m c msg p e (open_turn r g u a) = granted_turn refl refl (msg, refl) u a
Turn-granted m c msg p e (granted_turn r n g u a) = absurd (cc)
Turn-granted m c msg p e (held_turn r n g u a) = absurd (cc)
Turn-granted m c msg p e (resumed_turn r n g u a) = absurd (cc)

Grants-IsSafe :
    (i : ℕ) (m : ModelData) (c : ExecutionCandidate) (g : GpuContext) (w : System) (s' : RankThread)
    → IsSafe w
    → Has w.rank.model_threads i m c
    → contains g.gpu_id (gpu_ids w.rank.gpus) ≡ true
    → IsPlanned s'
    → IsPooled s'
    → Grants w.rank g i m s'
    → IsSafe (record w { rank = s' })
unfolding update_gpu
Grants-IsSafe i m c g w s' h has there planned pooled grant = record {
  planned = planned;
  pooled = pooled;
  owners =
      subst (λ l. Owners l s'.gpus w.phase) (sym grant.0)
        (subst (λ l. Owners (set w.rank.model_threads i (some (granted msg m))) l w.phase)
          (sym grant.2) own);
}
  where
    msg : GrantedGpuMessage
    msg = record { gpu_id = g.gpu_id; plan_id = w.rank.next_plan_id; debug_free_at = g.free_at }

    gs : List GpuContext
    gs = (update_gpu g time_max w.rank).gpus

    cov : Covers w.rank.gpus gs
    cov id q = ap (contains id) (gpu_ids-set (reset g time_max w.rank) w.rank.gpus) ∙ q

    own : Owners (set w.rank.model_threads i (some (granted msg m))) gs w.phase
    own =
        let o = h.owners i m has.0 in
        let k = IsKnown-mono w.rank.gpus gs m (w.phase i) cov o.1 in
        Owners-set i m (granted msg m) w.rank.model_threads w.rank.gpus gs w.phase w.phase h.owners
          has.0 (Turn-granted m c msg (w.phase i) has.1 o.0) (k.0, cov g.gpu_id there, k.2) cov
          (λ j q. refl)

-- Nothing that the turns depend on has changed.
same-IsSafe :
    (w : System) (s' : RankThread)
    → IsSafe w
    → IsPlanned s'
    → IsPooled s'
    → s'.model_threads ≡ w.rank.model_threads
    → s'.gpus ≡ w.rank.gpus
    → IsSafe (record w { rank = s' })
same-IsSafe w s' h planned pooled ms gs = record {
  planned = planned;
  pooled = pooled;
  owners =
      subst (λ l. Owners l s'.gpus w.phase) (sym ms)
        (subst (λ l. Owners w.rank.model_threads l w.phase) (sym gs) h.owners);
}

listed :
    (id : ℕ) (gs : List GpuContext) (g : GpuContext)
    → find_gpu id gs ≡ some g
    → contains g.gpu_id (gpu_ids gs) ≡ true
listed id gs g e =
    ap (λ j. contains j (gpu_ids gs)) (free_time-find id gs g e).1
    ∙ contains-find_gpu id gs
    ∙ ap is_some e

pub on_plan_timer-IsSafe :
    (now i : ℕ) (m : ModelData) (w : System)
    → IsSafe w
    → get_elem? w.rank.model_threads i ≡ some (some m)
    → Succeeds (with_rank w (on_plan_timer now i w.rank))
on_plan_timer-IsSafe now i m w h e =
    let r = on_plan_timer-ok now i m w.rank h.planned h.pooled e in
    (record w { rank = r.0 }, ap (with_rank w) r.1, by_plan r.0 r.2 r.3 r.4)
  where
    by_assign :
        (c : ExecutionCandidate) (s' : RankThread)
        → m.candidate ≡ some c
        → IsPlanned s'
        → IsPooled s'
        → Assigns w.rank i m c s'
        → IsSafe (record w { rank = s' })
    by_assign c s' k planned pooled (inl (same, busy)) =
        same-IsSafe w s' h planned pooled (ap (λ x. x.model_threads) same) (ap (λ x. x.gpus) same)
    by_assign c s' k planned pooled (inr (g, found, free, first, grant)) =
        Grants-IsSafe i m c g w s' h (e, k) (listed g.gpu_id w.rank.gpus g found) planned pooled
          grant

    by_plan :
        (s' : RankThread)
        → IsPlanned s'
        → IsPooled s'
        → Plans now w.rank i m s'
        → IsSafe (record w { rank = s' })
    by_plan s' planned pooled (inl (same, why)) =
        subst (λ x. IsSafe (record w { rank = x })) (sym same) h
    by_plan s' planned pooled (inr (c, k, inl (same, late))) =
        subst (λ x. IsSafe (record w { rank = x })) (sym same) h
    by_plan s' planned pooled (inr (c, k, inr (intime, a))) = by_assign c s' k planned pooled a

pub fire-IsSafe :
    (id : ℕ) (w : System) (o : Option GpuContext)
    → IsSafe w
    → find_gpu id w.rank.gpus ≡ o
    → Succeeds (fire o w)
fire-IsSafe id w none h e = (w, refl, h)
fire-IsSafe id w (some g) h e =
    let r = on_gpu_timer-run g w.rank h.planned in
    let there = listed id w.rank.gpus g e in
    (
      record w { rank = r.0 },
      ap (with_rank w) r.1,
      by_answer r.0 r.2 (r.4 h.pooled there) there r.3,
    )
  where
    by_answer :
        (s' : RankThread)
        → IsPlanned s'
        → IsPooled s'
        → contains g.gpu_id (gpu_ids w.rank.gpus) ≡ true
        → Answers w.rank g s'
        → IsSafe (record w { rank = s' })
    by_answer s' planned pooled there (inl (ms, gs, ids)) = same-IsSafe w s' h planned pooled ms gs
    by_answer s' planned pooled there (inr (i, m, c, inpool, has, early, late, grant)) =
        Grants-IsSafe i m c g w s' h has there planned pooled grant
