-- ===== src/Rankmt/RankThread/Resumption.antt =====
-- The end of the time in which rank_thread.cpp rejects candidates.
use nexuslb.Prelude.{
  ℕ, ◌-◌, max, ◌≡◌, refl, ap, ◌∙◌, true, false, none, some, ◌==◌, contains, get_elem?, set-get,
  Outcome, ok, ◌>>=◌, arith,
}
use nexuslb.Splay.Map.{upsert}
use nexuslb.Splay.Keys.{contains-upsert}
use nexuslb.Rankmt.{ExecutionCandidate}
use nexuslb.Rankmt.RankThread.State.{ModelData, RankThread, by_time, present, set_model, model_at}
use nexuslb.Rankmt.RankThread.Handlers.{
  post_resume_candidate_update, do_update_candidate, take_messages, apply_candidate,
  setup_active_plan,
}
use nexuslb.Rankmt.RankThread.Plans.{Has, IsPlanned}

-- `PostResumeCandidateUpdate`, and then `DoUpdateCandidate` of the next `Poll`.
abbrev pub resume_and_poll : ℕ → ℕ → RankThread → Outcome RankThread
resume_and_poll now i s = post_resume_candidate_update i s >>= λ s1.
    (model_at i s1 >>= λ m. do_update_candidate now i m s1)

resume-posted :
    (i : ℕ) (m : ModelData) (s : RankThread)
    → get_elem? s.model_threads i ≡ some (some m)
    → m.link.resume_candidate_update ≡ false
    → post_resume_candidate_update i s
      ≡ ok (set_model i (record m { link = record m.link { resume_candidate_update = true } }) s)
unfolding post_resume_candidate_update model_at
resume-posted i m s e u = rw (post_resume_candidate_update, e, u)

model_at-set_model :
    (i : ℕ) (m m' : ModelData) (s : RankThread)
    → get_elem? s.model_threads i ≡ some (some m)
    → (get_elem? (set_model i m' s).model_threads i ≡ some (some m'))
      × (model_at i (set_model i m' s) ≡ ok m')
unfolding model_at set_model
model_at-set_model i m m' s e =
    let self : (i == i) ≡ true = ground arith in
    let here = set-get s.model_threads i i (some m') (some m) e ∙ rw self refl in
    (here, ap present here)

-- A candidate that was posted while candidates are rejected, and that the rank thread has not looked
-- at until the resumption is posted, is not rejected: it becomes the model's candidate and a plan.
pub old_candidate-Has :
    (now i : ℕ) (m : ModelData) (c : ExecutionCandidate) (s : RankThread)
    → IsPlanned s
    → get_elem? s.model_threads i ≡ some (some m)
    → m.rejecting_candidates ≡ true
    → m.link.resume_candidate_update ≡ false
    → m.link.new_candidate ≡ some c
    → (s' : RankThread) × (resume_and_poll now i s ≡ ok s')
      × ((m' : ModelData) × Has s'.model_threads i m' c)
      × (contains i s'.plan_pool.map ≡ true)
unfolding do_update_candidate take_messages apply_candidate setup_active_plan set_model
old_candidate-Has now i m c s h e r u n =
    let there = model_at-set_model i m m1 s e in
    (
      set_model i m3 (record s1 { plan_pool = upsert by_time i c.exec_at s.plan_pool }),
      ap (λ o. o >>= λ s2. (model_at i s2 >>= λ x. do_update_candidate now i x s2))
            (resume-posted i m s e u)
          ∙ ap (λ o. o >>= λ x. do_update_candidate now i x s1) there.1
          ∙ ap (λ o. o >>= λ t. apply_candidate now i t.0 t.1 s1) taken,
      (m3, ((model_at-set_model i m1 m3 s1 there.0).0, refl)),
      contains-upsert by_time i i c.exec_at s.plan_pool h.valid ∙ ground arith,
    )
  where
    m1 : ModelData
    m1 = record m { link = record m.link { resume_candidate_update = true } }

    s1 : RankThread
    s1 = set_model i m1 s

    m2 : ModelData
    m2 = record m {
      link = record m.link { new_candidate = none; resume_candidate_update = false };
      rejecting_candidates = false;
    }

    m3 : ModelData
    m3 = record m2 {
      candidate = some c;
      send_timer = some (max (c.exec_at - s.config.ctrl_latency - s.config.data_latency) now);
    }

    taken : take_messages m1 ≡ ok (some c, m2)
    taken = rw (take_messages, r, n)
