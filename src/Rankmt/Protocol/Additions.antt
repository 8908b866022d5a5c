-- ===== src/Rankmt/Protocol/Additions.antt =====
-- New backends and model threads of rank_thread.cpp under the protocol.
use nexuslb.Prelude.{
  ℕ, zero, suc, ◌+◌, ◌≡◌, ◌≢◌, refl, sym, ap, subst, ◌∙◌, ◌⊎◌, inl, inr, true, false, ◌||◌, Option,
  none, some, List, [], ◌∷◌, ◌==◌, ==_iff, ltb, leb, length, contains, get_elem?, set, ok, ◌>>=◌,
  Bool-cases, arith,
}
use nexuslb.Splay.Contents.{IsDistinct}
use nexuslb.Rankmt.RankThread.State.{GpuContext, ModelData}
use nexuslb.Rankmt.RankThread.Control.{
  add_backend, find_backend, add_model_thread, put_model, resize, new_model, max_models,
}
use nexuslb.Rankmt.RankThread.GpuPool.{gpu_ids, contains-find_gpu}
use nexuslb.Rankmt.RankThread.GpuChanges.{Fresh, with_gpus, new_gpu, add_gpus-ok}
use nexuslb.Rankmt.Protocol.{idle, System, with_rank, all_new, move, add_model}
use nexuslb.Rankmt.Protocol.Turns.{
  open_turn, Turn, Turn-InTurn, IsKnown, Owners, Covers, IsSafe, Succeeds, with_gpus_of-IsSafe,
}
use nexuslb.Rankmt.Protocol.ModelSteps.{move-here, move-there}

all_new-Fresh :
    (ids : List ℕ) (gs : List GpuContext) → all_new ids gs ≡ true → IsDistinct ids × Fresh ids gs
all_new-Fresh [] gs h = (tt, λ id c. absurd (cc))
all_new-Fresh (id ∷ ids) gs h =
    let rest = all_new-Fresh ids gs (ground (arith)) in
    ((ground arith, rest.0), λ j c. by_id j c rest.1 (Bool-cases (id == j)))
  where
    by_id :
        (j : ℕ)
        → (id == j || contains j ids) ≡ true
        → Fresh ids gs
        → ((id == j) ≡ true) ⊎ ((id == j) ≡ false)
        → contains j (gpu_ids gs) ≡ false
    by_id j c fresh (inl q) =
        let here : contains id (gpu_ids gs) ≡ false = ground (arith, contains-find_gpu id gs) in
        ap (λ x. contains x (gpu_ids gs)) (sym ((==_iff id j).0 q)) ∙ here
    by_id j c fresh (inr q) = fresh j (ground arith)

with_gpus-Covers : (ids : List ℕ) (gs : List GpuContext) → Covers gs (with_gpus ids gs)
with_gpus-Covers [] gs id q = q
with_gpus-Covers (j ∷ ids) gs id q = with_gpus-Covers ids (new_gpu j ∷ gs) id (ground arith)

pub add_backend-IsSafe :
    (id : ℕ) (ids : List ℕ) (w : System)
    → IsSafe w
    → all_new ids w.rank.gpus ≡ true
    → Succeeds (with_rank w (add_backend id ids w.rank))
unfolding add_backend
add_backend-IsSafe id ids w h fresh = by_find (find_backend id w.rank.backends) refl
  where
    by_find :
        (o : Option (List ℕ))
        → find_backend id w.rank.backends ≡ o
        → Succeeds (with_rank w (add_backend id ids w.rank))
    by_find (some b) e = (w, rw (add_backend, e), h)
    by_find none e =
        let s = record w.rank { backends = (id, ids) ∷ w.rank.backends } in
        let n = all_new-Fresh ids w.rank.gpus fresh in
        let a = add_gpus-ok ids s h.pooled n.0 n.1 in
        let base : IsSafe (record w { rank = s }) = record {
          planned = record {
            valid = h.planned.valid;
            backed = h.planned.backed;
            in_turn = h.planned.in_turn;
          };
          pooled = h.pooled;
          owners = h.owners;
        } in
        (
          record w { rank = a.0 },
          (rw (add_backend, e) (ap (with_rank w) a.1)),
          with_gpus_of-IsSafe (record w { rank = s }) a.0 base a.4 a.2
              (λ j q. ap (λ l. contains j (gpu_ids l)) a.3 ∙ with_gpus-Covers ids w.rank.gpus j q),
        )

resize-there :
    (n j : ℕ) (ms : List (Option ModelData)) (m : ModelData)
    → get_elem? ms j ≡ some (some m)
    → get_elem? (resize n ms) j ≡ some (some m)
unfolding resize
resize-there zero j ms m e = e
resize-there (suc n) j [] m e = absurd (cc)
resize-there (suc n) zero (x ∷ ms) m e = e
resize-there (suc n) (suc j) (x ∷ ms) m e = resize-there n j ms m e

resize-before :
    (n j : ℕ) (ms : List (Option ModelData)) (m : ModelData)
    → get_elem? (resize n ms) j ≡ some (some m)
    → get_elem? ms j ≡ some (some m)
unfolding resize
resize-before zero j ms m e = e
resize-before (suc n) zero [] m e = absurd (cc)
resize-before (suc n) (suc j) [] m e = let r = resize-before n j [] m e in absurd (cc)
resize-before (suc n) zero (x ∷ ms) m e = e
resize-before (suc n) (suc j) (x ∷ ms) m e = resize-before n j ms m e

set-other :
    (xs : List (Option ModelData)) (i j : ℕ) (v : Option ModelData)
    → (i == j) ≡ false
    → get_elem? (set xs i v) j ≡ get_elem? xs j
set-other [] i j v q = refl
set-other (x ∷ xs) zero zero v q = absurd (ground arith)
set-other (x ∷ xs) zero (suc j) v q = refl
set-other (x ∷ xs) (suc i) zero v q = refl
set-other (x ∷ xs) (suc i) (suc j) v q = set-other xs i j v (ground arith)

set-same :
    (xs : List (Option ModelData)) (i : ℕ) (m n : ModelData)
    → get_elem? (set xs i (some m)) i ≡ some (some n)
    → m ≡ n
set-same [] i m n e = absurd (cc)
set-same (x ∷ xs) zero m n e = cc
set-same (x ∷ xs) (suc i) m n e = set-same xs i m n e

abbrev placed : ℕ → List (Option ModelData) → System → System
placed i ms w = record {
  rank = record w.rank { model_threads = set ms i (some new_model) };
  phase = move i idle w.phase;
}

-- A model in a free place of a list with the same models.
place-IsSafe :
    (i : ℕ) (w : System) (ms : List (Option ModelData))
    → IsSafe w
    → ((m : ModelData) → get_elem? w.rank.model_threads i ≢ some (some m))
    → ((j : ℕ) (m : ModelData)
        → get_elem? w.rank.model_threads j ≡ some (some m)
        → get_elem? ms j ≡ some (some m))
    → ((j : ℕ) (m : ModelData)
        → get_elem? ms j ≡ some (some m)
        → get_elem? w.rank.model_threads j ≡ some (some m))
    → IsSafe (placed i ms w)
place-IsSafe i w ms h free there before = record {
  planned = record {
    valid = h.planned.valid;
    backed = λ j q.
        let b = h.planned.backed j q in (b.0, b.1, (kept j b.0 b.2.0 (Bool-cases (i == j)), b.2.1));
    in_turn = λ j n f. Turn-InTurn n (move i idle w.phase j) (own j n f).0;
  };
  pooled = h.pooled;
  owners = own;
}
  where
    kept :
        (j : ℕ) (n : ModelData)
        → get_elem? w.rank.model_threads j ≡ some (some n)
        → ((i == j) ≡ true) ⊎ ((i == j) ≡ false)
        → get_elem? (set ms i (some new_model)) j ≡ some (some n)
    kept j n e (inl q) =
        absurd (free n (ap (λ x. get_elem? w.rank.model_threads x) ((==_iff i j).0 q) ∙ e))
    kept j n e (inr q) = set-other ms i j (some new_model) q ∙ there j n e

    new : Turn new_model idle × IsKnown w.rank.gpus new_model idle
    new = (open_turn refl refl refl refl, (tt, tt, tt))

    own_at :
        (j : ℕ) (n : ModelData)
        → get_elem? (set ms i (some new_model)) j ≡ some (some n)
        → ((i == j) ≡ true) ⊎ ((i == j) ≡ false)
        → Turn n (move i idle w.phase j) × IsKnown w.rank.gpus n (move i idle w.phase j)
    own_at j n e (inl q) =
        let j≡i = sym ((==_iff i j).0 q) in
        let same =
          set-same ms i new_model n
            (ap (λ x. get_elem? (set ms i (some new_model)) x) (sym j≡i) ∙ e) in
        subst (λ p. Turn n p × IsKnown w.rank.gpus n p)
          (sym (ap (move i idle w.phase) j≡i ∙ move-here i idle w.phase))
          (subst (λ y. Turn y idle × IsKnown w.rank.gpus y idle) same new)
    own_at j n e (inr q) =
        subst (λ p. Turn n p × IsKnown w.rank.gpus n p) (sym (move-there i j idle w.phase q))
          (h.owners j n (before j n (sym (set-other ms i j (some new_model) q) ∙ e)))

    own : Owners (set ms i (some new_model)) w.rank.gpus (move i idle w.phase)
    own j n e = own_at j n e (Bool-cases (i == j))

put_model-IsSafe :
    (i : ℕ) (w : System)
    → IsSafe w
    → ((m : ModelData) → get_elem? w.rank.model_threads i ≢ some (some m))
    → ltb i max_models ≡ true
    → Succeeds (put_model i w.rank >>= λ s. ok (record { rank = s; phase = move i idle w.phase }))
unfolding put_model
put_model-IsSafe i w h free small = elim (Bool-cases (leb (length w.rank.model_threads) i)) [
  | inl q ↦ (
    placed i (resize (i + 1) w.rank.model_threads) w,
    rw (put_model, small, q),
    place-IsSafe i w (resize (i + 1) w.rank.model_threads) h free
        (λ j m e. resize-there (i + 1) j w.rank.model_threads m e)
        (λ j m e. resize-before (i + 1) j w.rank.model_threads m e),
  )
  | inr q ↦ (
    placed i w.rank.model_threads w,
    rw (put_model, small, q),
    place-IsSafe i w w.rank.model_threads h free (λ j m e. e) (λ j m e. e),
  )
]

pub add_model-IsSafe :
    (i : ℕ) (w : System)
    → IsSafe w
    → (o : Option (Option ModelData)) → get_elem? w.rank.model_threads i ≡ o
    → ltb i max_models ≡ true
    → Succeeds (add_model i o w)
unfolding add_model_thread
add_model-IsSafe i w h (some (some m)) e q = (w, rw (add_model_thread, e) refl, h)
add_model-IsSafe i w h (some none) e q =
    let r = put_model-IsSafe i w h (λ m f. cc) q in (r.0, (rw (add_model_thread, e) r.1), r.2)
add_model-IsSafe i w h none e q =
    let r = put_model-IsSafe i w h (λ m f. cc) q in (r.0, (rw (add_model_thread, e) r.1), r.2)
