-- ===== src/Rankmt/RankThread/Plans.antt =====
-- The plan pool of rank_thread.cpp and the models whose candidates are in it, under a grant.
use nexuslb.Prelude.{
  ℕ, zero, suc, ◌+◌, ◌≡◌, refl, subst, inl, inr, true, false, Option, none, some, List, [], ◌∷◌,
  ◌==◌, contains, if◌then◌else◌, get_elem?, set, arith, ok, Bool-cases,
}
use nexuslb.Splay.Map.{remove}
use nexuslb.Splay.Refinement.{IsValid, remove_lem}
use nexuslb.Splay.Keys.{contains-remove}
use nexuslb.Rankmt.{ExecutionCandidate, GrantedGpuMessage, time_max}
use nexuslb.Rankmt.RankThread.State.{GpuContext, ModelData, RankThread, by_time, set_model}
use nexuslb.Rankmt.RankThread.Handlers.{grant_model, grant_gpu_to_model, update_gpu}

-- A model that has a candidate.
abbrev pub Has : List (Option ModelData) → ℕ → ModelData → ExecutionCandidate → Type 0
Has ms i m c = (get_elem? ms i ≡ some (some m)) × (m.candidate ≡ some c)

-- While candidates are rejected there is none, and else no grant is on the way.
abbrev pub InTurn : ModelData → Type 0
InTurn m =
    (m.rejecting_candidates ≡ true → m.candidate ≡ none)
    × (m.rejecting_candidates ≡ false → m.link.granted_gpu ≡ none)

pub record IsPlanned (s : RankThread) : Type 0 where
  pub valid : IsValid by_time s.plan_pool
  pub backed :
      (i : ℕ)
      → contains i s.plan_pool.map ≡ true
      → (m : ModelData) × (c : ExecutionCandidate) × Has s.model_threads i m c
  pub in_turn : (i : ℕ) (m : ModelData) → get_elem? s.model_threads i ≡ some (some m) → InTurn m

pub set-some :
    (ms : List (Option ModelData)) (i j : ℕ) (m m' : ModelData)
    → get_elem? ms i ≡ some (some m)
    → get_elem? (set ms i (some m')) j ≡ (if i == j then some (some m') else get_elem? ms j)
set-some [] i j m m' e = absurd (cc)
set-some (x ∷ ms) zero zero m m' e = refl
set-some (x ∷ ms) zero (suc j) m m' e = ground arith
set-some (x ∷ ms) (suc i) zero m m' e = ground arith
set-some (x ∷ ms) (suc i) (suc j) m m' e = ground (arith, set-some ms i j m m' e)

-- A grant to a model that has a candidate passes its check.
pub grant_model-ok :
    (msg : GrantedGpuMessage) (m : ModelData) (c : ExecutionCandidate)
    → InTurn m
    → m.candidate ≡ some c
    → grant_model msg m
      ≡ ok (record m {
        link = record m.link { granted_gpu = some msg };
        candidate = none;
        rejecting_candidates = true;
      })
unfolding grant_model
grant_model-ok msg m c t e = elim (Bool-cases m.rejecting_candidates) [
  | inl r ↦ let none_yet = t.0 r in absurd (cc)
  | inr r ↦ let free = t.1 r in rw free
]

-- The state after a grant of a GPU to a model.
abbrev pub Grants : RankThread → GpuContext → ℕ → ModelData → RankThread → Type 0
Grants s g i m s' =
    (s'.model_threads
      ≡ set s.model_threads i (
          some (record m {
            link = record m.link {
              granted_gpu = some (record {
                gpu_id = g.gpu_id;
                plan_id = s.next_plan_id;
                debug_free_at = g.free_at;
              });
            };
            candidate = none;
            rejecting_candidates = true;
          })))
    × (s'.next_plan_id ≡ s.next_plan_id + 1)
    × (s'.gpus ≡ (update_gpu g time_max s).gpus)
    × (contains i s'.plan_pool.map ≡ false)

-- While the invariant holds, a grant to a model that has a candidate passes its check and keeps the
-- invariant. The model gets the message with the next plan id and is out of the plan pool, and the
-- GPU is not free any more.
pub grant_gpu_to_model-ok :
    (i : ℕ) (m : ModelData) (c : ExecutionCandidate) (g : GpuContext) (s : RankThread)
    → IsPlanned s
    → Has s.model_threads i m c
    → (s' : RankThread) × (grant_gpu_to_model i m g s ≡ ok s') × IsPlanned s' × Grants s g i m s'
unfolding grant_gpu_to_model set_model update_gpu
grant_gpu_to_model-ok i m c g s h (e, e') =
    (s', rw (grant_model-ok msg m c (h.in_turn i m e) e'), planned, (refl, refl, refl, gone))
  where
    msg : GrantedGpuMessage
    msg = record { gpu_id = g.gpu_id; plan_id = s.next_plan_id; debug_free_at = g.free_at }

    m' : ModelData
    m' = record m {
      link = record m.link { granted_gpu = some msg };
      candidate = none;
      rejecting_candidates = true;
    }

    s' : RankThread
    s' =
        let s1 = update_gpu g time_max (record s { next_plan_id = s.next_plan_id + 1 }) in
        set_model i m' (record s1 { plan_pool = remove i s.plan_pool })

    gone : contains i (remove i s.plan_pool).map ≡ false
    gone = ground (arith, contains-remove by_time i i s.plan_pool h.valid)

    others :
        (j : ℕ)
        → get_elem? (set s.model_threads i (some m')) j
          ≡ (if i == j then some (some m') else get_elem? s.model_threads j)
    others j = set-some s.model_threads i j m m' e

    kept :
        (j : ℕ)
        → (i == j) ≡ false
        → (m1 : ModelData) × (c1 : ExecutionCandidate) × Has s.model_threads j m1 c1
        → (m1 : ModelData) × (c1 : ExecutionCandidate) × Has s'.model_threads j m1 c1
    kept j q old = (old.0, old.1, (cc (others j, old.2.0), old.2.1))

    in_pool :
        (j : ℕ)
        → contains j s'.plan_pool.map ≡ true
        → ((i == j) ≡ false) × (contains j s.plan_pool.map ≡ true)
    in_pool j k = ground (arith, contains-remove by_time i j s.plan_pool h.valid)

    same :
        (j : ℕ) (n : ModelData)
        → (i == j) ≡ true
        → get_elem? s'.model_threads j ≡ some (some n)
        → m' ≡ n
    same j n q k = cc (others j, k)

    unchanged :
        (j : ℕ) (n : ModelData)
        → (i == j) ≡ false
        → get_elem? s'.model_threads j ≡ some (some n)
        → get_elem? s.model_threads j ≡ some (some n)
    unchanged j n q k = cc (others j, k)

    silent : InTurn m'
    silent = (λ r. refl, λ r. absurd (cc))

    planned : IsPlanned s'
    planned = record {
      valid = (remove_lem by_time i s.plan_pool h.valid).1;
      backed = λ j k. let old = in_pool j k in kept j old.0 (h.backed j old.1);
      in_turn = λ j n k. elim (Bool-cases (i == j)) [
        | inl q ↦ subst InTurn (same j n q k) silent
        | inr q ↦ h.in_turn j n (unchanged j n q k)
      ];
    }
