-- ===== src/Rankmt/Protocol/ModelSteps.antt =====
-- The events of a model thread (model_thread.cpp): each finds the checks of rank_thread.cpp fulfilled.
use nexuslb.Prelude.{
  ◌⊎◌, ℕ, ◌≡◌, refl, sym, ap, subst, ◌∙◌, true, false, Option, none, some, List, [], ◌∷◌, ◌++◌,
  ◌==◌, ==_iff, contains, get_elem?, set, set-get, All-append, Bool-cases, inl, inr, arith,
}
use nexuslb.Rankmt.{ExecutionCandidate, GrantedGpuMessage, UpdateGpuCommand}
use nexuslb.Rankmt.RankThread.State.{ModelData, set_model, model_at}
use nexuslb.Rankmt.RankThread.Handlers.{post_execution_candidate, post_resume_candidate_update}
use nexuslb.Rankmt.RankThread.Plans.{Has}
use nexuslb.Rankmt.RankThread.GpuPool.{gpu_ids}
use nexuslb.Rankmt.Protocol.{
  Phase, idle, holding, commanded, resumed, at_rest, System, move, post_candidate, take_granted,
  take_message, take, enqueue_command, queue_command, post_resume,
}
use nexuslb.Rankmt.Protocol.Turns.{
  Turn, open_turn, granted_turn, held_turn, resumed_turn, Turn-InTurn, IsKnown, Owners, Owners-set,
  IsSafe, Succeeds, Sent,
}

pub move-here : (i : ℕ) (p : Phase) (phase : ℕ → Phase) → move i p phase i ≡ p
move-here i p phase = let self : (i == i) ≡ true = ground arith in rw self

pub move-there :
    (i j : ℕ) (p : Phase) (phase : ℕ → Phase) → (i == j) ≡ false → move i p phase j ≡ phase j
move-there i j p phase q = rw q

-- A change of a model's link.
pub set_model-IsSafe :
    (i : ℕ) (m m' : ModelData) (w : System) (phase : ℕ → Phase)
    → IsSafe w
    → get_elem? w.rank.model_threads i ≡ some (some m)
    → m'.candidate ≡ m.candidate
    → Turn m' (phase i)
    → IsKnown w.rank.gpus m' (phase i)
    → ((j : ℕ) → (i == j) ≡ false → phase j ≡ w.phase j)
    → IsSafe (record { rank = set_model i m' w.rank; phase = phase })
unfolding set_model
set_model-IsSafe i m m' w phase h e c t k rest = record {
  planned = record {
    valid = h.planned.valid;
    backed = λ j q. let b = h.planned.backed j q in again j b.0 b.1 b.2 (Bool-cases (i == j));
    in_turn = λ j n f. Turn-InTurn n (phase j) (own j n f).0;
  };
  pooled = h.pooled;
  owners = own;
}
  where
    ms : List (Option ModelData)
    ms = w.rank.model_threads

    own : Owners (set ms i (some m')) w.rank.gpus phase
    own = Owners-set i m m' ms w.rank.gpus w.rank.gpus w.phase phase h.owners e t k (λ id q. q) rest

    again :
        (j : ℕ) (n : ModelData) (d : ExecutionCandidate)
        → Has ms j n d
        → ((i == j) ≡ true) ⊎ ((i == j) ≡ false)
        → (n' : ModelData) × (d' : ExecutionCandidate) × Has (set ms i (some m')) j n' d'
    again j n d has (inl q) =
        let j≡i : i ≡ j = (==_iff i j).0 q in
        let same : n ≡ m = cc (ap (λ x. get_elem? ms x) j≡i, e, has.0) in
        (
          m',
          d,
          (
            set-get ms i j (some m') (some m) e ∙ rw q refl,
            c ∙ ap (λ x. x.candidate) (sym same) ∙ has.1,
          ),
        )
    again j n d has (inr q) = (n, d, (set-get ms i j (some m') (some m) e ∙ rw q has.0, has.1))

-- A change of the link that moves the model's thread on.
moved :
    (i : ℕ) (m m' : ModelData) (p : Phase) (w : System)
    → IsSafe w
    → get_elem? w.rank.model_threads i ≡ some (some m)
    → m'.candidate ≡ m.candidate
    → Turn m' p
    → IsKnown w.rank.gpus m' p
    → IsSafe (record { rank = set_model i m' w.rank; phase = move i p w.phase })
moved i m m' p w h e c t k =
    set_model-IsSafe i m m' w (move i p w.phase) h e c
      (subst (Turn m') (sym (move-here i p w.phase)) t)
      (subst (IsKnown w.rank.gpus m') (sym (move-here i p w.phase)) k)
      (λ j q. move-there i j p w.phase q)

-- The turn is the same for a thread that is at rest somewhere else, and does not look at new candidates.
pub Turn-rest :
    (m m' : ModelData) (p q : Phase)
    → m'.rejecting_candidates ≡ m.rejecting_candidates
    → m'.candidate ≡ m.candidate
    → m'.link.granted_gpu ≡ m.link.granted_gpu
    → m'.link.resume_candidate_update ≡ m.link.resume_candidate_update
    → at_rest p ≡ at_rest q
    → Turn m p
    → Turn m' q
Turn-rest m m' p q r c g u a (open_turn r' g' u' a') =
    open_turn (r ∙ r') (g ∙ g') (u ∙ u') (sym a ∙ a')
Turn-rest m m' p q r c g u a (granted_turn r' c' g' u' a') =
    granted_turn (r ∙ r') (c ∙ c') (g'.0, g ∙ g'.1) (u ∙ u') (sym a ∙ a')
Turn-rest m m' p q r c g u a (held_turn r' c' g' u' a') =
    held_turn (r ∙ r') (c ∙ c') (g ∙ g') (u ∙ u') (sym a ∙ a')
Turn-rest m m' p q r c g u a (resumed_turn r' c' g' u' a') =
    resumed_turn (r ∙ r') (c ∙ c') (g ∙ g') (u ∙ u') (sym a ∙ a')

pub post_candidate-ok :
    (i : ℕ) (c : ExecutionCandidate) (m : ModelData) (w : System)
    → IsSafe w
    → get_elem? w.rank.model_threads i ≡ some (some m)
    → Succeeds (post_candidate i c (w.phase i) w)
unfolding post_execution_candidate model_at
post_candidate-ok i c m w h e = elim (Bool-cases (at_rest (w.phase i))) [
  | inl q ↦ (
    record { rank = set_model i m' w.rank; phase = move i idle w.phase },
    rw (q, post_execution_candidate, e),
    moved i m m' idle w h e refl (Turn-rest m m' (w.phase i) idle refl refl refl refl q own.0)
        (tt, own.1.1, own.1.2),
  )
  | inr q ↦ (w, rw q, h)
]
  where
    m' : ModelData
    m' = record m { link = record m.link { new_candidate = some c } }

    own : Turn m (w.phase i) × IsKnown w.rank.gpus m (w.phase i)
    own = h.owners i m e

-- The message that the model thread takes.
Turn-take :
    (m : ModelData) (msg : GrantedGpuMessage)
    → Turn m idle
    → m.link.granted_gpu ≡ some msg
    → Turn (record m { link = record m.link { granted_gpu = none } }) (holding msg)
Turn-take m msg (open_turn r g u a) e = absurd (cc)
Turn-take m msg (granted_turn r c g u a) e = held_turn r c refl u refl
Turn-take m msg (held_turn r c g u a) e = absurd (cc)
Turn-take m msg (resumed_turn r c g u a) e = absurd (cc)

pub take-ok :
    (i : ℕ) (m : ModelData) (w : System)
    → IsSafe w
    → get_elem? w.rank.model_threads i ≡ some (some m)
    → (p : Phase) → w.phase i ≡ p
    → Succeeds (take i m p w)
unfolding take_granted
take-ok i m w h e commanded f = (w, refl, h)
take-ok i m w h e resumed f = (w, refl, h)
take-ok i m w h e (holding msg) f = (w, refl, h)
take-ok i m w h e idle f = by_message m.link.granted_gpu refl
  where
    own : Turn m idle × IsKnown w.rank.gpus m idle
    own = subst (λ p. Turn m p × IsKnown w.rank.gpus m p) f (h.owners i m e)

    by_message :
        (o : Option GrantedGpuMessage) → m.link.granted_gpu ≡ o → Succeeds (take_message i m o w)
    by_message none g = (w, refl, h)
    by_message (some msg) g = (
      record { rank = take_granted i m w.rank; phase = move i (holding msg) w.phase },
      refl,
      moved i m (record m { link = record m.link { granted_gpu = none } }) (holding msg) w h e refl
          (Turn-take m msg own.0 g) (subst (Sent w.rank.gpus) g own.1.1, tt, own.1.2),
    )

pub queue_command-ok :
    (i finish_at : ℕ) (m : ModelData) (w : System)
    → IsSafe w
    → get_elem? w.rank.model_threads i ≡ some (some m)
    → (p : Phase) → w.phase i ≡ p
    → Succeeds (queue_command i finish_at m p w)
unfolding enqueue_command
queue_command-ok i finish_at m w h e idle f = (w, refl, h)
queue_command-ok i finish_at m w h e commanded f = (w, refl, h)
queue_command-ok i finish_at m w h e resumed f = (w, refl, h)
queue_command-ok i finish_at m w h e (holding msg) f = (
  record { rank = set_model i m' w.rank; phase = move i commanded w.phase },
  refl,
  moved i m m' commanded w h e refl
      (Turn-rest m m' (holding msg) commanded refl refl refl refl refl own.0)
      (
        tt,
        own.1.1,
        All-append (λ c. contains c.gpu_id (gpu_ids w.rank.gpus) ≡ true) m.link.commands (c ∷ [])
            own.1.2 (own.1.0, tt),
      ),
)
  where
    c : UpdateGpuCommand
    c = record { gpu_id = msg.gpu_id; free_at = finish_at }

    m' : ModelData
    m' = record m { link = record m.link { commands = m.link.commands ++ c ∷ [] } }

    own : Turn m (holding msg) × IsKnown w.rank.gpus m (holding msg)
    own = subst (λ p. Turn m p × IsKnown w.rank.gpus m p) f (h.owners i m e)

-- The model thread's turn ends with the resumption, which is not there yet.
Turn-resume :
    (m : ModelData)
    → Turn m commanded
    → (m.link.resume_candidate_update ≡ false)
      × Turn (record m { link = record m.link { resume_candidate_update = true } }) resumed
Turn-resume m (open_turn r g u a) = absurd (cc)
Turn-resume m (granted_turn r c g u a) = absurd (cc)
Turn-resume m (held_turn r c g u a) = (u, resumed_turn r c g refl refl)
Turn-resume m (resumed_turn r c g u a) = absurd (cc)

pub post_resume-ok :
    (i : ℕ) (m : ModelData) (w : System)
    → IsSafe w
    → get_elem? w.rank.model_threads i ≡ some (some m)
    → (p : Phase) → w.phase i ≡ p
    → Succeeds (post_resume i p w)
unfolding post_resume_candidate_update model_at
post_resume-ok i m w h e idle f = (w, refl, h)
post_resume-ok i m w h e resumed f = (w, refl, h)
post_resume-ok i m w h e (holding msg) f = (w, refl, h)
post_resume-ok i m w h e commanded f = (
  record { rank = set_model i m' w.rank; phase = move i resumed w.phase },
  rw (post_resume_candidate_update, e, turn.0),
  moved i m m' resumed w h e refl turn.1 (tt, own.1.1, own.1.2),
)
  where
    m' : ModelData
    m' = record m { link = record m.link { resume_candidate_update = true } }

    own : Turn m commanded × IsKnown w.rank.gpus m commanded
    own = subst (λ p. Turn m p × IsKnown w.rank.gpus m p) f (h.owners i m e)

    turn : (m.link.resume_candidate_update ≡ false) × Turn m' resumed
    turn = Turn-resume m own.0
