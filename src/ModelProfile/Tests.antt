-- ===== src/ModelProfile/Tests.antt =====
-- ModelProfile on a table of three batch sizes, with natural numbers for the doubles.
use nexuslb.Prelude.{
  ℕ, zero, suc, subst, max, ◌||◌, ◌+◌, ◌-◌, ◌*◌, ◌≡◌, refl, false, ltb, [], ◌∷◌, length, ok, fault,
  log_fatal, arith,
}
use nexuslb.ModelProfile.{
  Doubles, ProfileEntry, ModelProfile, force_monotonicity, latency, get_forward_latency,
  full_budget, get_preprocess_latency, get_postprocess_latency, get_max_throughput,
  merge_profile_by_slowest,
}
use nexuslb.ModelProfile.Rising.{IsRising, force_monotonicity-IsRising, merge_profile-ok}
use nexuslb.ModelProfile.Batches.{get_max_throughput-fatal}

abbrev pub numbers : Doubles ℕ
numbers = record {
  of_nat = λ n. n;
  half = 1;
  plus = λ a b. a + b;
  minus = λ a b. a - b;
  times = λ a b. a * b;
  over = λ a b. a;
  below = ltb;
}

numbers-irreflexive : (x : ℕ) → ltb x x ≡ false
numbers-irreflexive x = ground arith

abbrev entry : ℕ → ProfileEntry ℕ
entry mean = record {
  latency_mean = mean;
  latency_std = 1;
  static_memory = 0;
  memory_usage = 0;
  repeat = 10;
}

abbrev pub uneven : ModelProfile ℕ
uneven = record {
  forward_lats = entry 0 ∷ entry 100 ∷ entry 90 ∷ entry 120 ∷ [];
  preprocess = entry 10;
  postprocess = entry 10;
}

force_monotonicity_example :
    IsRising numbers numbers-irreflexive (force_monotonicity numbers uneven).forward_lats
force_monotonicity_example = force_monotonicity-IsRising numbers numbers-irreflexive uneven

all_fit :
    (b l : ℕ)
    → get_forward_latency numbers b uneven ≡ ok l
    → (ltb l 0 || ltb (full_budget numbers 100 uneven * 1) l) ≡ false
unfolding get_forward_latency latency full_budget get_preprocess_latency get_postprocess_latency
all_fit zero l e = absurd (cc)
all_fit (suc zero) l e =
    let same : 101 ≡ l = cc in subst (λ k. (ltb k 0 || ltb (97978 * 1) k) ≡ false) same refl
all_fit (suc (suc zero)) l e =
    let same : 91 ≡ l = cc in subst (λ k. (ltb k 0 || ltb (97978 * 1) k) ≡ false) same refl
all_fit (suc (suc (suc zero))) l e =
    let same : 121 ≡ l = cc in subst (λ k. (ltb k 0 || ltb (97978 * 1) k) ≡ false) same refl
all_fit (suc (suc (suc (suc b)))) l e = absurd (ground arith)

get_max_throughput_example : get_max_throughput numbers 100 uneven ≡ fault log_fatal
get_max_throughput_example = get_max_throughput-fatal numbers 100 uneven (omega arith) all_fit

merge_profile_example :
    (p' : ModelProfile ℕ) × (merge_profile_by_slowest numbers uneven uneven ≡ ok p')
    × (length p'.forward_lats ≡ max 4 4)
merge_profile_example = merge_profile-ok numbers uneven uneven (omega arith) (omega arith)
