-- ===== src/Rankmt/RankThread/GpuPool.antt =====
-- `gpus_` and `gpu_availability_pool_` of rank_thread.cpp, which hold the same GPUs.
use nexuslb.Prelude.{
  is_some, ◌⊎◌, ℕ, ◌+◌, ◌≡◌, refl, sym, ap, ◌∙◌, true, false, Option, none, some, List, [], ◌∷◌,
  ◌==◌, ==_iff, contains, if◌then◌else◌, length, arith, Bool-cases, inl, inr,
}
use nexuslb.Splay.Contents.{IsDistinct, lookup}
use nexuslb.Splay.Map.{SplayMap, size, upsert, remove}
use nexuslb.Splay.Refinement.{view, IsValid, remove_lem, upsert_lem}
use nexuslb.Splay.Keys.{size-remove}
use nexuslb.Splay.Values.{contains-lookup, lookup-remove, lookup-upsert, size-upsert, remove-absent}
use nexuslb.Rankmt.RankThread.State.{GpuContext, RankThread, by_time, find_gpu, set_gpu, erase_gpu}

abbrev pub gpu_ids : List GpuContext → List ℕ
gpu_ids [] = []
gpu_ids (g ∷ gs) = g.gpu_id ∷ gpu_ids gs

-- When a GPU of `gpus_` is free.
abbrev pub free_time : ℕ → List GpuContext → Option ℕ
free_time id [] = none
free_time id (g ∷ gs) = if g.gpu_id == id then some g.free_at else free_time id gs

-- The pool is valid and has, for each GPU, its time.
abbrev pub Agrees : List GpuContext → SplayMap ℕ → Type 0
Agrees gs pool =
    IsValid by_time pool
    × IsDistinct (gpu_ids gs)
    × ((id : ℕ) → lookup id (view pool) ≡ free_time id gs)
    × (size pool ≡ length gs)

abbrev pub IsPooled : RankThread → Type 0
IsPooled s = Agrees s.gpus s.gpu_availability_pool

pub free_time-find :
    (id : ℕ) (gs : List GpuContext) (g : GpuContext)
    → find_gpu id gs ≡ some g
    → (free_time id gs ≡ some g.free_at) × (g.gpu_id ≡ id)
unfolding find_gpu
free_time-find id [] g e = absurd (cc)
free_time-find id (h ∷ gs) g e = elim (Bool-cases (h.gpu_id == id)) [
  | inl q ↦
      let same : h ≡ g = cc (q, e) in
      (
        rw q (ap (λ x. some x.free_at) same),
        ap (λ x. x.gpu_id) (sym same) ∙ (==_iff h.gpu_id id).0 q,
      )
  | inr q ↦ rw q (free_time-find id gs g (cc (q, e)))
]

pub free_time-some :
    (id : ℕ) (gs : List GpuContext) (t : ℕ)
    → free_time id gs ≡ some t
    → (g : GpuContext) × (find_gpu id gs ≡ some g) × (g.free_at ≡ t)
unfolding find_gpu
free_time-some id [] t e = absurd (cc)
free_time-some id (h ∷ gs) t e = elim (Bool-cases (h.gpu_id == id)) [
  | inl q ↦ (h, rw q refl, cc (q, e))
  | inr q ↦ let rest = free_time-some id gs t (cc (q, e)) in (rest.0, rw q rest.1, rest.2)
]

pub contains-gpu_ids :
    (id : ℕ) (gs : List GpuContext) → contains id (gpu_ids gs) ≡ is_some (free_time id gs)
contains-gpu_ids id [] = refl
contains-gpu_ids id (g ∷ gs) = ground (arith, contains-gpu_ids id gs)

free_time-absent :
    (id : ℕ) (gs : List GpuContext) → contains id (gpu_ids gs) ≡ false → free_time id gs ≡ none
free_time-absent id [] e = refl
free_time-absent id (g ∷ gs) e = ground (arith, free_time-absent id gs)

pub contains-find_gpu :
    (id : ℕ) (gs : List GpuContext) → contains id (gpu_ids gs) ≡ is_some (find_gpu id gs)
unfolding find_gpu
contains-find_gpu id [] = refl
contains-find_gpu id (g ∷ gs) = ground (arith, contains-find_gpu id gs)

pub gpu_ids-set : (c : GpuContext) (gs : List GpuContext) → gpu_ids (set_gpu c gs) ≡ gpu_ids gs
unfolding set_gpu
gpu_ids-set c [] = refl
gpu_ids-set c (g ∷ gs) = ground (arith, gpu_ids-set c gs)

length-set_gpu : (c : GpuContext) (gs : List GpuContext) → length (set_gpu c gs) ≡ length gs
unfolding set_gpu
length-set_gpu c [] = refl
length-set_gpu c (g ∷ gs) = ground (arith, length-set_gpu c gs)

pub free_time-set :
    (id : ℕ) (c : GpuContext) (gs : List GpuContext)
    → contains c.gpu_id (gpu_ids gs) ≡ true
    → free_time id (set_gpu c gs) ≡ (if c.gpu_id == id then some c.free_at else free_time id gs)
unfolding set_gpu
free_time-set id c [] h = absurd (cc)
free_time-set id c (g ∷ gs) h = ground (arith, free_time-set id c gs)

contains-erase_gpu :
    (k q : ℕ) (gs : List GpuContext)
    → contains k (gpu_ids gs) ≡ false
    → contains k (gpu_ids (erase_gpu q gs)) ≡ false
unfolding erase_gpu
contains-erase_gpu k q [] h = refl
contains-erase_gpu k q (g ∷ gs) h = ground (arith, contains-erase_gpu k q gs)

pub IsDistinct-erase_gpu :
    (q : ℕ) (gs : List GpuContext) → IsDistinct (gpu_ids gs) → IsDistinct (gpu_ids (erase_gpu q gs))
unfolding erase_gpu
IsDistinct-erase_gpu q [] d = tt
IsDistinct-erase_gpu q (g ∷ gs) d =
    ground (arith, IsDistinct-erase_gpu q gs d.1, contains-erase_gpu g.gpu_id q gs d.0)

pub free_time-erase :
    (id q : ℕ) (gs : List GpuContext)
    → IsDistinct (gpu_ids gs)
    → free_time id (erase_gpu q gs) ≡ (if q == id then none else free_time id gs)
unfolding erase_gpu
free_time-erase id q [] d = ground arith
free_time-erase id q (g ∷ gs) d =
    ground (arith, free_time-erase id q gs d.1, free_time-absent id gs)

length-erase_gpu :
    (q : ℕ) (gs : List GpuContext)
    → length gs
      ≡ (if contains q (gpu_ids gs) then length (erase_gpu q gs) + 1 else length (erase_gpu q gs))
unfolding erase_gpu
length-erase_gpu q [] = refl
length-erase_gpu q (g ∷ gs) = ground (arith, length-erase_gpu q gs)

-- Pool and GPUs have the same keys.
pub contains-Agrees :
    (id : ℕ) (gs : List GpuContext) (pool : SplayMap ℕ)
    → Agrees gs pool
    → contains id pool.map ≡ contains id (gpu_ids gs)
contains-Agrees id gs pool (v, d, e, n) =
    v.keyed id ∙ contains-lookup id (view pool) ∙ ap is_some (e id) ∙ sym (contains-gpu_ids id gs)

-- A new time for a GPU.
pub upsert-Agrees :
    (c : GpuContext) (gs : List GpuContext) (pool : SplayMap ℕ)
    → Agrees gs pool
    → contains c.gpu_id (gpu_ids gs) ≡ true
    → Agrees (set_gpu c gs) (upsert by_time c.gpu_id c.free_at pool)
upsert-Agrees c gs pool (v, d, e, n) h = (
  (upsert_lem by_time c.gpu_id c.free_at pool v).1,
  rw (gpu_ids-set c gs) d,
  (λ id.
      ground
        (arith, lookup-upsert by_time id c.gpu_id c.free_at pool v, e id, free_time-set id c gs h)),
  ground (
    arith,
    size-upsert by_time c.gpu_id c.free_at pool v,
    contains-Agrees c.gpu_id gs pool (v, d, e, n),
    length-set_gpu c gs,
    n,
  ),
)

-- A new GPU.
pub add-Agrees :
    (c : GpuContext) (gs : List GpuContext) (pool : SplayMap ℕ)
    → Agrees gs pool
    → contains c.gpu_id (gpu_ids gs) ≡ false
    → Agrees (c ∷ gs) (upsert by_time c.gpu_id c.free_at pool)
add-Agrees c gs pool (v, d, e, n) h = (
  (upsert_lem by_time c.gpu_id c.free_at pool v).1,
  (h, d),
  (λ id. ground (arith, lookup-upsert by_time id c.gpu_id c.free_at pool v, e id)),
  ground (
    arith,
    size-upsert by_time c.gpu_id c.free_at pool v,
    contains-Agrees c.gpu_id gs pool (v, d, e, n),
    n,
  ),
)

pub remove-Agrees :
    (id : ℕ) (gs : List GpuContext) (pool : SplayMap ℕ)
    → Agrees gs pool
    → Agrees (erase_gpu id gs) (remove id pool)
remove-Agrees id gs pool (v, d, e, n) = (
  (remove_lem by_time id pool v).1,
  IsDistinct-erase_gpu id gs d,
  (λ j. ground (arith, lookup-remove by_time j id pool v, e j, free_time-erase j id gs d)),
  fewer (Bool-cases (contains id (gpu_ids gs))),
)
  where
    fewer :
        (contains id (gpu_ids gs) ≡ true) ⊎ (contains id (gpu_ids gs) ≡ false)
        → size (remove id pool) ≡ length (erase_gpu id gs)
    fewer (inl c) = ground (
      arith,
      size-remove by_time id pool v,
      contains-Agrees id gs pool (v, d, e, n),
      length-erase_gpu id gs,
      n,
    )
    fewer (inr c) =
        rw (remove-absent id pool (contains-Agrees id gs pool (v, d, e, n) ∙ c))
          (ground (arith, length-erase_gpu id gs, n))
