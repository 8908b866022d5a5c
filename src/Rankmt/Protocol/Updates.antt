-- ===== src/Rankmt/Protocol/Updates.antt =====
-- `Poll` of rank_thread.cpp under the protocol: the commands for GPUs, and the new candidate.
use nexuslb.Prelude.{
  ◌⊎◌, ℕ, ◌-◌, max, ◌≡◌, refl, sym, ap, subst, ◌∙◌, true, false, ◌||◌, Option, none, some, List, [],
  ◌∷◌, ◌==◌, contains, if◌then◌else◌, get_elem?, set, set-get, Outcome, ok, ◌>>=◌, Bool-cases, inl,
  inr, arith,
}
use nexuslb.Splay.Map.{upsert}
use nexuslb.Splay.Refinement.{upsert_lem}
use nexuslb.Splay.Keys.{contains-upsert}
use nexuslb.Rankmt.{ExecutionCandidate, UpdateGpuCommand}
use nexuslb.Rankmt.RankThread.State.{ModelData, RankThread, set_model, by_time}
use nexuslb.Rankmt.RankThread.Handlers.{
  run_commands, execute_command, take_messages, apply_candidate, setup_active_plan,
  do_update_candidate,
}
use nexuslb.Rankmt.RankThread.Plans.{Has}
use nexuslb.Rankmt.RankThread.GpuPool.{IsPooled, contains-gpu_ids}
use nexuslb.Rankmt.RankThread.GpuChanges.{do_update_gpu_command-ok}
use nexuslb.Rankmt.Protocol.{Phase, System, with_rank}
use nexuslb.Rankmt.Protocol.Turns.{
  Turn, open_turn, granted_turn, held_turn, resumed_turn, Turn-InTurn, IsKnown, Sent, Queued,
  Queued-mono, Covers, Owners, Owners-set, IsSafe, Succeeds, with_gpus_of, with_gpus_of-IsSafe,
}
use nexuslb.Rankmt.Protocol.ModelSteps.{set_model-IsSafe, Turn-rest}

-- Commands for known GPUs run, and no GPU is lost.
run_commands-ok :
    (cs : List UpdateGpuCommand) (s : RankThread)
    → IsPooled s
    → Queued s.gpus cs
    → (s' : RankThread) × (run_commands cs s ≡ ok s')
      × IsPooled s'
      × (s' ≡ with_gpus_of s' s)
      × Covers s.gpus s'.gpus
unfolding run_commands
run_commands-ok [] s h q = (s, refl, h, refl, (λ id k. k))
run_commands-ok (c ∷ cs) s h q =
    let r = do_update_gpu_command-ok c s h q.0 in
    let cov : Covers s.gpus r.0.gpus =
      λ id k. ground (arith, contains-gpu_ids id r.0.gpus, contains-gpu_ids id s.gpus, r.3.1 id) in
    let rest = run_commands-ok cs r.0 r.2 (Queued-mono s.gpus r.0.gpus cs cov q.1) in
    (
      rest.0,
      ap (λ o. o >>= run_commands cs) r.1 ∙ rest.1,
      rest.2,
      rest.3 ∙ ap (with_gpus_of rest.0) r.3.0,
      (λ id k. rest.4 id (cov id k)),
    )

pub execute_command-ok :
    (i : ℕ) (m : ModelData) (w : System)
    → IsSafe w
    → get_elem? w.rank.model_threads i ≡ some (some m)
    → Succeeds (with_rank w (execute_command i m w.rank))
unfolding execute_command
execute_command-ok i m w h e = elim (Bool-cases w.rank.stop_flag) [
  | inl q ↦ (w, ap (λ b. with_rank w (if b then ok w.rank else rest)) q, h)
  | inr q ↦ (
    record w { rank = r.0 },
    ap (λ b. with_rank w (if b then ok w.rank else rest)) q ∙ ap (with_rank w) r.1,
    with_gpus_of-IsSafe (record w { rank = s1 }) r.0 empty r.3 r.2 r.4,
  )
]
  where
    m' : ModelData
    m' = record m { link = record m.link { commands = [] } }

    s1 : RankThread
    s1 = set_model i m' w.rank

    rest : Outcome RankThread
    rest = run_commands m.link.commands s1

    own : Turn m (w.phase i) × IsKnown w.rank.gpus m (w.phase i)
    own = h.owners i m e

    r :
        (s' : RankThread) × (rest ≡ ok s')
        × IsPooled s'
        × (s' ≡ with_gpus_of s' s1)
        × Covers w.rank.gpus s'.gpus
    r = run_commands-ok m.link.commands s1 h.pooled own.1.2

    empty : IsSafe (record w { rank = s1 })
    empty =
        set_model-IsSafe i m m' w w.phase h e refl
          (Turn-rest m m' (w.phase i) (w.phase i) refl refl refl refl refl own.0)
          (own.1.0, own.1.1, tt) (λ j q. refl)

abbrev Taken : ModelData → Phase → Type 0
Taken m p =
    (m' : ModelData) × (take_messages m ≡ ok (m.link.new_candidate, m'))
    × Turn m' p
    × (m'.candidate ≡ m.candidate)
    × (m'.link.granted_gpu ≡ m.link.granted_gpu)
    × (m'.link.commands ≡ m.link.commands)

no_resumption :
    (m : ModelData) (p : Phase) → Turn m p → m.link.resume_candidate_update ≡ false → Taken m p
unfolding take_messages
no_resumption m p t u =
    let m' = record m { link = record m.link { new_candidate = none } } in
    (m', rw (take_messages, u), Turn-rest m m' p p refl refl refl refl refl t, refl, refl, refl)

-- What `DoUpdateCandidate` takes from the link: its check passes, and a resumption opens the turn.
take_messages-ok : (m : ModelData) (p : Phase) → Turn m p → Taken m p
unfolding take_messages
take_messages-ok m p (open_turn r g u a) = no_resumption m p (open_turn r g u a) u
take_messages-ok m p (granted_turn r c g u a) = no_resumption m p (granted_turn r c g u a) u
take_messages-ok m p (held_turn r c g u a) = no_resumption m p (held_turn r c g u a) u
take_messages-ok m p (resumed_turn r c g u a) = (
  record m {
    link = record m.link { new_candidate = none; resume_candidate_update = false };
    rejecting_candidates = false;
  },
  rw (take_messages, u, r),
  open_turn refl g refl a,
  refl,
  refl,
  refl,
)

-- A model that takes candidates may have one.
Turn-candidate :
    (m m' : ModelData) (p : Phase)
    → m.rejecting_candidates ≡ false
    → m'.rejecting_candidates ≡ m.rejecting_candidates
    → m'.link ≡ m.link
    → Turn m p
    → Turn m' p
Turn-candidate m m' p f r l (open_turn r' g u a) =
    open_turn (r ∙ r') (ap (λ x. x.granted_gpu) l ∙ g) (ap (λ x. x.resume_candidate_update) l ∙ u) a
Turn-candidate m m' p f r l (granted_turn r' c g u a) = absurd (cc)
Turn-candidate m m' p f r l (held_turn r' c g u a) = absurd (cc)
Turn-candidate m m' p f r l (resumed_turn r' c g u a) = absurd (cc)

-- A plan in the pool for a model with a candidate.
plan-IsSafe :
    (i : ℕ) (m m' : ModelData) (c : ExecutionCandidate) (w : System)
    → IsSafe w
    → get_elem? w.rank.model_threads i ≡ some (some m)
    → m'.candidate ≡ some c
    → Turn m' (w.phase i)
    → IsKnown w.rank.gpus m' (w.phase i)
    → IsSafe (record w {
      rank =
          set_model i m'
            (record w.rank { plan_pool = upsert by_time i c.exec_at w.rank.plan_pool });
    })
unfolding set_model
plan-IsSafe i m m' c w h e has t k = record {
  planned = record {
    valid = (upsert_lem by_time i c.exec_at w.rank.plan_pool h.planned.valid).1;
    backed = λ j q.
        again j (sym (contains-upsert by_time i j c.exec_at w.rank.plan_pool h.planned.valid) ∙ q)
          (Bool-cases (i == j));
    in_turn = λ j n f. Turn-InTurn n (w.phase j) (own j n f).0;
  };
  pooled = h.pooled;
  owners = own;
}
  where
    ms : List (Option ModelData)
    ms = w.rank.model_threads

    own : Owners (set ms i (some m')) w.rank.gpus w.phase
    own =
        Owners-set i m m' ms w.rank.gpus w.rank.gpus w.phase w.phase h.owners e t k (λ id q. q)
          (λ j q. refl)

    again :
        (j : ℕ)
        → (i == j || contains j w.rank.plan_pool.map) ≡ true
        → ((i == j) ≡ true) ⊎ ((i == j) ≡ false)
        → (n : ModelData) × (d : ExecutionCandidate) × Has (set ms i (some m')) j n d
    again j p (inl q) = (m', c, (set-get ms i j (some m') (some m) e ∙ rw q refl, has))
    again j p (inr q) =
        let old = h.planned.backed j (ground arith) in
        (old.0, old.1, (set-get ms i j (some m') (some m) e ∙ rw q old.2.0, old.2.1))

apply_candidate-ok :
    (now i : ℕ) (o : Option ExecutionCandidate) (m m' : ModelData) (w : System)
    → IsSafe w
    → get_elem? w.rank.model_threads i ≡ some (some m)
    → m'.candidate ≡ m.candidate
    → Turn m' (w.phase i)
    → IsKnown w.rank.gpus m' (w.phase i)
    → Succeeds (with_rank w (apply_candidate now i o m' w.rank))
unfolding apply_candidate setup_active_plan
apply_candidate-ok now i none m m' w h e c t k = (
  record w { rank = set_model i m' w.rank },
  refl,
  set_model-IsSafe i m m' w w.phase h e c t k (λ j q. refl),
)
apply_candidate-ok now i (some d) m m' w h e c t k = elim (Bool-cases m'.rejecting_candidates) [
  | inl q ↦ (
    record w { rank = set_model i m' w.rank },
    ap (λ b. with_rank w (if b then ok (set_model i m' w.rank) else planned)) q,
    set_model-IsSafe i m m' w w.phase h e c t k (λ j q. refl),
  )
  | inr q ↦
      let n = record m' {
        candidate = some d;
        send_timer =
            some (max (d.exec_at - w.rank.config.ctrl_latency - w.rank.config.data_latency) now);
      } in
      (
        record w {
          rank =
              set_model i n
                (record w.rank { plan_pool = upsert by_time i d.exec_at w.rank.plan_pool });
        },
        ap (λ b. with_rank w (if b then ok (set_model i m' w.rank) else planned)) q,
        plan-IsSafe i m n d w h e refl (Turn-candidate m' n (w.phase i) q refl refl t) k,
      )
]
  where
    planned : Outcome RankThread
    planned = setup_active_plan now i (record m' { candidate = some d }) w.rank

pub do_update_candidate-ok :
    (now i : ℕ) (m : ModelData) (w : System)
    → IsSafe w
    → get_elem? w.rank.model_threads i ≡ some (some m)
    → Succeeds (with_rank w (do_update_candidate now i m w.rank))
unfolding do_update_candidate
do_update_candidate-ok now i m w h e =
    let own = h.owners i m e in
    let t = take_messages-ok m (w.phase i) own.0 in
    let known : IsKnown w.rank.gpus t.0 (w.phase i) = (
      own.1.0,
      subst (Sent w.rank.gpus) (sym t.4) own.1.1,
      subst (Queued w.rank.gpus) (sym t.5) own.1.2,
    ) in
    let a = apply_candidate-ok now i m.link.new_candidate m t.0 w h e t.3 t.2 known in
    (a.0, ap (λ o. with_rank w (o >>= λ x. apply_candidate now i x.0 x.1 w.rank)) t.1 ∙ a.1, a.2)
