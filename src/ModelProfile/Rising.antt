-- ===== src/ModelProfile/Rising.antt =====
-- The table of model_db.cpp under `ForceMonotonicity` and `MergeProfileBySlowest`.
use nexuslb.Prelude.{
  ℕ, suc, ◌+◌, ◌≡◌, ◌<◌, ◌∙◌, max, refl, ap, true, false, List, [], ◌∷◌, ◌==◌, length, ok, arith,
}
use nexuslb.ModelProfile.{
  Doubles, ProfileEntry, ModelProfile, latency, is_faster, merge_by_slowest, append_lats,
  merge_lats, sizes, with_sizes, merge_profile_by_slowest, raise, raise_from, raise_lats,
  force_monotonicity,
}

module _ {D : Type 0} (d : Doubles D) (irreflexive : (x : D) → d.below x x ≡ false) where
  -- No entry has a smaller mean than the one before it, or a smaller sum of mean and deviation.
  abbrev pub IsRisingFrom : ProfileEntry D → List (ProfileEntry D) → Type 0
  IsRisingFrom prev [] = Unit
  IsRisingFrom prev (e ∷ es) =
      (d.below e.latency_mean prev.latency_mean ≡ false)
      × (d.below (d.plus e.latency_mean e.latency_std) (d.plus prev.latency_mean prev.latency_std)
          ≡ false)
      × IsRisingFrom e es

  abbrev pub IsRising : List (ProfileEntry D) → Type 0
  IsRising [] = Unit
  IsRising (e ∷ []) = Unit
  IsRising (e ∷ f ∷ es) = IsRisingFrom f es

  raise-slower :
      (prev e : ProfileEntry D)
      → (d.below (raise d prev e).latency_mean prev.latency_mean ≡ false)
        × (d.below
              (d.plus (raise d prev e).latency_mean (raise d prev e).latency_std)
              (d.plus prev.latency_mean prev.latency_std)
            ≡ false)
  unfolding raise is_faster latency
  raise-slower prev e = ground (
    arith,
    irreflexive prev.latency_mean,
    irreflexive (d.plus prev.latency_mean prev.latency_std),
  )

  raise_from-IsRisingFrom :
      (prev : ProfileEntry D) (es : List (ProfileEntry D))
      → IsRisingFrom prev (raise_from d prev es)
  unfolding raise_from
  raise_from-IsRisingFrom prev [] = tt
  raise_from-IsRisingFrom prev (e ∷ es) =
      let s = raise-slower prev e in (s.0, s.1, raise_from-IsRisingFrom (raise d prev e) es)

  -- If no double is below itself, then after ForceMonotonicity no batch size from 2 on has a smaller
  -- mean latency, or a smaller sum of mean and deviation, than the size before it.
  pub force_monotonicity-IsRising :
      (p : ModelProfile D) → IsRising (force_monotonicity d p).forward_lats
  unfolding force_monotonicity raise_lats
  force_monotonicity-IsRising p = by_lats p.forward_lats
    where
      by_lats : (es : List (ProfileEntry D)) → IsRising (raise_lats d es)
      by_lats [] = tt
      by_lats (e ∷ []) = tt
      by_lats (e ∷ f ∷ es) = raise_from-IsRisingFrom f es

append_lats-ok :
    {D : Type 0} (d : Doubles D) (n : ℕ) (src : List (ProfileEntry D))
    → append_lats d n n src ≡ ok src
unfolding append_lats
append_lats-ok d n [] = refl
append_lats-ok d n (e ∷ src) =
    let same : (n == n) ≡ true = ground arith in rw (same, append_lats-ok d (n + 1) src) refl

merge_lats-ok :
    {D : Type 0} (d : Doubles D) (size batch : ℕ) (dst src : List (ProfileEntry D))
    → size ≡ batch + length dst
    → (lats : List (ProfileEntry D)) × (merge_lats d size batch dst src ≡ ok lats)
      × (length lats ≡ max (length dst) (length src))
unfolding merge_lats
merge_lats-ok d size batch [] src e =
    let same : size ≡ batch = omega arith in
    (src, ap (λ n. append_lats d n batch src) same ∙ append_lats-ok d batch src, ground arith)
merge_lats-ok d size batch (f ∷ dst) [] e = (f ∷ dst, refl, ground arith)
merge_lats-ok d size batch (f ∷ dst) (g ∷ src) e =
    let rest = merge_lats-ok d size (batch + 1) dst src (omega arith) in
    (merge_by_slowest d f g ∷ rest.0, rw rest.1 refl, ground (arith, rest.2))

-- The check of MergeProfileBySlowest does not fail, and the merged table is as long as the longer
-- one.
pub merge_profile-ok :
    {D : Type 0} (d : Doubles D) (p rhs : ModelProfile D)
    → 0 < length p.forward_lats
    → 0 < length rhs.forward_lats
    → (p' : ModelProfile D) × (merge_profile_by_slowest d p rhs ≡ ok p')
      × (length p'.forward_lats ≡ max (length p.forward_lats) (length rhs.forward_lats))
unfolding merge_profile_by_slowest sizes with_sizes
merge_profile-ok {D = D} d p rhs h k = by_lats p.forward_lats rhs.forward_lats refl refl h k
  where
    by_lats :
        (es fs : List (ProfileEntry D))
        → p.forward_lats ≡ es
        → rhs.forward_lats ≡ fs
        → 0 < length es
        → 0 < length fs
        → (p' : ModelProfile D) × (merge_profile_by_slowest d p rhs ≡ ok p')
          × (length p'.forward_lats ≡ max (length es) (length fs))
    by_lats [] fs e f h k = absurd (omega arith)
    by_lats (x ∷ es) [] e f h k = absurd (omega arith)
    by_lats (x ∷ es) (y ∷ fs) e f h k =
        let r = merge_lats-ok d (suc (length es)) 1 es fs (omega arith) in
        (
          record {
            forward_lats = x ∷ r.0;
            preprocess = merge_by_slowest d p.preprocess rhs.preprocess;
            postprocess = merge_by_slowest d p.postprocess rhs.postprocess;
          },
          rw (e, f, r.1) refl,
          ground (arith, r.2),
        )
