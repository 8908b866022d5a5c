-- ===== src/Rankmt/Protocol/Turns.antt =====
-- Whose turn it is between the rank thread and a model thread (rank_thread.cpp, model_thread.cpp):
-- one token, which is the rank thread's leave to take candidates, the message with the granted GPU,
-- the model thread's hold on it, and the resumption.
use nexuslb.Prelude.{
  Outcome, ok, ==_iff, ℕ, ◌≡◌, true, false, Option, none, some, List, [], ◌∷◌, ◌==◌, contains, All,
  get_elem?, set, set-get, Bool-cases, inl, inr, subst, sym,
}
use nexuslb.Rankmt.{GrantedGpuMessage, UpdateGpuCommand}
use nexuslb.Rankmt.RankThread.State.{GpuContext, ModelData, RankThread}
use nexuslb.Rankmt.RankThread.Plans.{IsPlanned, InTurn}
use nexuslb.Rankmt.RankThread.GpuPool.{IsPooled, gpu_ids}
use nexuslb.Rankmt.Protocol.{Phase, idle, holding, commanded, resumed, at_rest, System}

pub data Turn (m : ModelData) (p : Phase) : Type 0 where
  open_turn :
      m.rejecting_candidates ≡ false
      → m.link.granted_gpu ≡ none
      → m.link.resume_candidate_update ≡ false
      → at_rest p ≡ true
      → Turn m p
  granted_turn :
      m.rejecting_candidates ≡ true
      → m.candidate ≡ none
      → (msg : GrantedGpuMessage) × (m.link.granted_gpu ≡ some msg)
      → m.link.resume_candidate_update ≡ false
      → at_rest p ≡ true
      → Turn m p
  held_turn :
      m.rejecting_candidates ≡ true
      → m.candidate ≡ none
      → m.link.granted_gpu ≡ none
      → m.link.resume_candidate_update ≡ false
      → at_rest p ≡ false
      → Turn m p
  resumed_turn :
      m.rejecting_candidates ≡ true
      → m.candidate ≡ none
      → m.link.granted_gpu ≡ none
      → m.link.resume_candidate_update ≡ true
      → at_rest p ≡ true
      → Turn m p

pub Turn-InTurn : (m : ModelData) (p : Phase) → Turn m p → InTurn m
Turn-InTurn m p (open_turn r g u a) = ((λ t. absurd (cc)), λ t. g)
Turn-InTurn m p (granted_turn r c g u a) = ((λ t. c), λ t. absurd (cc))
Turn-InTurn m p (held_turn r c g u a) = ((λ t. c), λ t. absurd (cc))
Turn-InTurn m p (resumed_turn r c g u a) = ((λ t. c), λ t. absurd (cc))

-- Every GPU that is on the way between the threads is in `gpus_`.
abbrev pub Held : List GpuContext → Phase → Type 0
Held gs idle = Unit
Held gs commanded = Unit
Held gs resumed = Unit
Held gs (holding msg) = contains msg.gpu_id (gpu_ids gs) ≡ true

abbrev pub Sent : List GpuContext → Option GrantedGpuMessage → Type 0
Sent gs none = Unit
Sent gs (some msg) = contains msg.gpu_id (gpu_ids gs) ≡ true

abbrev pub Queued : List GpuContext → List UpdateGpuCommand → Type 0
Queued gs = All (λ c. contains c.gpu_id (gpu_ids gs) ≡ true)

abbrev pub IsKnown : List GpuContext → ModelData → Phase → Type 0
IsKnown gs m p = Held gs p × Sent gs m.link.granted_gpu × Queued gs m.link.commands

abbrev pub Covers : List GpuContext → List GpuContext → Type 0
Covers gs gs' = (id : ℕ) → contains id (gpu_ids gs) ≡ true → contains id (gpu_ids gs') ≡ true

pub Held-mono : (gs gs' : List GpuContext) (p : Phase) → Covers gs gs' → Held gs p → Held gs' p
Held-mono gs gs' idle k h = tt
Held-mono gs gs' commanded k h = tt
Held-mono gs gs' resumed k h = tt
Held-mono gs gs' (holding msg) k h = k msg.gpu_id h

pub Sent-mono :
    (gs gs' : List GpuContext) (o : Option GrantedGpuMessage)
    → Covers gs gs'
    → Sent gs o
    → Sent gs' o
Sent-mono gs gs' none k h = tt
Sent-mono gs gs' (some msg) k h = k msg.gpu_id h

pub Queued-mono :
    (gs gs' : List GpuContext) (cs : List UpdateGpuCommand)
    → Covers gs gs'
    → Queued gs cs
    → Queued gs' cs
Queued-mono gs gs' [] k h = tt
Queued-mono gs gs' (c ∷ cs) k h = (k c.gpu_id h.0, Queued-mono gs gs' cs k h.1)

-- Each model has its turn, with known GPUs.
abbrev pub Owners : List (Option ModelData) → List GpuContext → (ℕ → Phase) → Type 0
Owners ms gs phase =
    (i : ℕ) (m : ModelData)
    → get_elem? ms i ≡ some (some m)
    → Turn m (phase i) × IsKnown gs m (phase i)

pub IsKnown-mono :
    (gs gs' : List GpuContext) (m : ModelData) (p : Phase)
    → Covers gs gs'
    → IsKnown gs m p
    → IsKnown gs' m p
IsKnown-mono gs gs' m p cov (h, s, q) = (
  Held-mono gs gs' p cov h,
  Sent-mono gs gs' m.link.granted_gpu cov s,
  Queued-mono gs gs' m.link.commands cov q,
)

-- A change of one model, with more GPUs.
pub Owners-set :
    (i : ℕ) (m m' : ModelData) (ms : List (Option ModelData)) (gs gs' : List GpuContext)
    (phase phase' : ℕ → Phase)
    → Owners ms gs phase
    → get_elem? ms i ≡ some (some m)
    → Turn m' (phase' i)
    → IsKnown gs' m' (phase' i)
    → Covers gs gs'
    → ((j : ℕ) → (i == j) ≡ false → phase' j ≡ phase j)
    → Owners (set ms i (some m')) gs' phase'
Owners-set i m m' ms gs gs' phase phase' own e t k cov rest j n f = elim (Bool-cases (i == j)) [
  | inl q ↦
      let here : m' ≡ n = cc (set-get ms i j (some m') (some m) e, q, f) in
      subst (λ x. Turn n (phase' x) × IsKnown gs' n (phase' x)) ((==_iff i j).0 q)
        (subst (λ y. Turn y (phase' i) × IsKnown gs' y (phase' i)) here (t, k))
  | inr q ↦
      let before : get_elem? ms j ≡ some (some n) =
        cc (set-get ms i j (some m') (some m) e, q, f) in
      let old = own j n before in
      subst (λ x. Turn n x × IsKnown gs' n x) (sym (rest j q))
        (old.0, IsKnown-mono gs gs' n (phase j) cov old.1)
]

-- What holds between the events.
pub record IsSafe (w : System) : Type 0 where
  pub planned : IsPlanned w.rank
  pub pooled : IsPooled w.rank
  pub owners : Owners w.rank.model_threads w.rank.gpus w.phase

-- A rank thread with the GPUs of another.
abbrev pub with_gpus_of : RankThread → RankThread → RankThread
with_gpus_of s' s = record s { gpus = s'.gpus; gpu_availability_pool = s'.gpu_availability_pool }

Owners-mono :
    (ms : List (Option ModelData)) (gs gs' : List GpuContext) (phase : ℕ → Phase)
    → Covers gs gs'
    → Owners ms gs phase
    → Owners ms gs' phase
Owners-mono ms gs gs' phase cov own i m e =
    let o = own i m e in (o.0, IsKnown-mono gs gs' m (phase i) cov o.1)

-- A change of the GPUs that loses none.
pub with_gpus_of-IsSafe :
    (w : System) (s' : RankThread)
    → IsSafe w
    → s' ≡ with_gpus_of s' w.rank
    → IsPooled s'
    → Covers w.rank.gpus s'.gpus
    → IsSafe (record w { rank = s' })
with_gpus_of-IsSafe w s' h e pooled cov =
    subst (λ s. IsSafe (record w { rank = s })) (sym e)
      (record {
        planned = record {
          valid = h.planned.valid;
          backed = h.planned.backed;
          in_turn = h.planned.in_turn;
        };
        pooled = pooled;
        owners = Owners-mono w.rank.model_threads w.rank.gpus s'.gpus w.phase cov h.owners;
      })

-- An event that returns, into a state that is safe.
abbrev pub Succeeds : Outcome System → Type 0
Succeeds o = (w : System) × (o ≡ ok w) × IsSafe w
