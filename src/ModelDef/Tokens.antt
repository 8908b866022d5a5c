-- ===== src/ModelDef/Tokens.antt =====
-- SplitString on texts whose tokens are known.
use nexuslb.Prelude.{
  ℕ, suc, ◌≤◌, ◌≡◌, refl, sym, ap, subst, ◌∙◌, true, false, [], ◌∷◌, ◌++◌, ◌==◌, contains, arith,
}
use nexuslb.ModelDef.{Text, split_string, add_to_first}
use nexuslb.ModelDef.Decimal.{IsDigits, IsNumber}

pub split-token :
    (delim : ℕ) (t s : Text)
    → contains delim t ≡ false
    → split_string delim (t ++ (delim ∷ s)) ≡ t ∷ split_string delim s
unfolding split_string add_to_first
split-token delim [] s h =
    let same : (delim == delim) ≡ true = ground arith in rw (split_string, same) refl
split-token delim (c ∷ t) s h =
    let other : (c == delim) ≡ false = ground arith in
    let rest : contains delim t ≡ false = ground arith in
    rw (split_string, split-token delim t s rest, other) refl

pub split-last :
    (delim c : ℕ) (t : Text)
    → contains delim (c ∷ t) ≡ false
    → split_string delim (c ∷ t) ≡ (c ∷ t) ∷ []
unfolding split_string add_to_first
split-last delim c [] h =
    let other : (c == delim) ≡ false = ground arith in rw (split_string, other) refl
split-last delim c (d ∷ t) h =
    let other : (c == delim) ≡ false = ground arith in
    let rest : contains delim (d ∷ t) ≡ false = ground arith in
    rw (split_string, split-last delim d t rest, other) refl

-- A printed number has no byte behind '9'.
IsDigits-contains :
    (delim : ℕ) (s : Text) → suc b'9' ≤ delim → IsDigits s → contains delim s ≡ false
IsDigits-contains delim [] h d = refl
IsDigits-contains delim (c ∷ s) h d = ground (arith, IsDigits-contains delim s h d.2)

pub IsNumber-contains :
    (delim : ℕ) (s : Text) → suc b'9' ≤ delim → IsNumber s → contains delim s ≡ false
IsNumber-contains delim s h (c, rest, e, lo, hi, d) =
    ap (contains delim) e ∙ ground (arith, IsDigits-contains delim rest h d)

pub split-number :
    (delim : ℕ) (s : Text) → suc b'9' ≤ delim → IsNumber s → split_string delim s ≡ s ∷ []
split-number delim s h (c, rest, e, lo, hi, d) =
    subst (λ t. split_string delim t ≡ t ∷ []) (sym e)
      (split-last delim c rest (ground (arith, IsDigits-contains delim rest h d)))
