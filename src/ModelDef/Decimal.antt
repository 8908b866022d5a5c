-- ===== src/ModelDef/Decimal.antt =====
-- Numbers as they are printed and read by model_def.h.
use nexuslb.Prelude.{
  ℕ, zero, suc, ◌+◌, ◌*◌, ◌/◌, ◌%◌, ◌^◌, ◌≤◌, ◌<◌, ◌≡◌, refl, sym, ap, inl, inr, le→ltb, lt→ltb,
  subst, ◌∙◌, true, false, [], ◌∷◌, ◌==◌, ltb, ok, fault, out_of_range, arith, Bool-cases,
}
use nexuslb.ModelDef.{
  Text, digits, format, is_digit, is_space, skip_spaces, value, starts_digit, read_positive,
  read_signed, stoi,
}

value_digit : (n k : ℕ) (out : Text) → k < 10 → value n ((b'0' + k) ∷ out) ≡ value (n * 10 + k) out
unfolding value is_digit
value_digit n k out h = ground arith

value-digits : (f n : ℕ) (out : Text) → n < f → value 0 (digits f n out) ≡ value n out
unfolding digits
value-digits zero n out h = absurd (omega arith)
value-digits (suc f) n out h = elim (Bool-cases (ltb n 10)) [
  | inl e ↦ rw (digits, e) (value_digit 0 n out (ground arith) ∙ ap (λ k. value k out) zero_n)
  | inr e ↦
      let whole : n / 10 * 10 + n % 10 ≡ n = omega arith in
      rw (digits, e)
        (value-digits f (n / 10) ((b'0' + n % 10) ∷ out) (ground arith)
          ∙ value_digit (n / 10) (n % 10) out (omega arith)
          ∙ ap (λ k. value k out) whole)
]
  where
    zero_n : 0 * 10 + n ≡ n
    zero_n = omega arith

-- Every byte of a printed number is a digit, and there is one.
abbrev pub IsDigits : Text → Type 0
IsDigits [] = Unit
IsDigits (c ∷ s) = (b'0' ≤ c) × (c ≤ b'9') × IsDigits s

abbrev pub IsNumber : Text → Type 0
IsNumber s = (c : ℕ) × (rest : Text) × (s ≡ c ∷ rest) × (b'0' ≤ c) × (c ≤ b'9') × IsDigits rest

digits-IsNumber : (f n : ℕ) (out : Text) → n < f → IsDigits out → IsNumber (digits f n out)
unfolding digits
digits-IsNumber zero n out h d = absurd (omega arith)
digits-IsNumber (suc f) n out h d = elim (Bool-cases (ltb n 10)) [
  | inl e ↦ rw (digits, e) (b'0' + n, out, refl, omega arith, ground arith, d)
  | inr e ↦
      rw (digits, e)
        (digits-IsNumber f (n / 10) ((b'0' + n % 10) ∷ out) (ground arith)
          (omega arith, omega arith, d))
]

pub format-IsNumber : (n : ℕ) → IsNumber (format n)
unfolding format
format-IsNumber n = digits-IsNumber (suc n) n [] (omega arith) tt

value-nil : (n : ℕ) → value n [] ≡ n
unfolding value
value-nil n = refl

no_space : (c : ℕ) → b'0' ≤ c → c ≤ b'9' → is_space c ≡ false
unfolding is_space
no_space c lo hi = ground arith

a_digit : (c : ℕ) → b'0' ≤ c → c ≤ b'9' → is_digit c ≡ true
unfolding is_digit
a_digit c lo hi = ground arith

read_positive-ok :
    (s : Text) → starts_digit s ≡ true → value 0 s < 2 ^ 31 → read_positive s ≡ ok (value 0 s)
unfolding read_positive
read_positive-ok s d h = rw (d, lt→ltb _ _ h) refl

signed-positive :
    (c : ℕ) (rest : Text) → b'0' ≤ c → c ≤ b'9' → stoi (c ∷ rest) ≡ read_positive (c ∷ rest)
unfolding stoi read_signed skip_spaces
signed-positive c rest lo hi =
    let minus : (c == b'-') ≡ false = ground arith in
    let plus : (c == b'+') ≡ false = ground arith in
    rw (skip_spaces, no_space c lo hi, minus, plus) refl

starts : (c : ℕ) (rest : Text) → b'0' ≤ c → c ≤ b'9' → starts_digit (c ∷ rest) ≡ true
unfolding starts_digit
starts c rest lo hi = a_digit c lo hi

stoi-cons :
    (c : ℕ) (rest : Text)
    → b'0' ≤ c
    → c ≤ b'9'
    → value 0 (c ∷ rest) < 2 ^ 31
    → stoi (c ∷ rest) ≡ ok (value 0 (c ∷ rest))
stoi-cons c rest lo hi h =
    signed-positive c rest lo hi ∙ read_positive-ok (c ∷ rest) (starts c rest lo hi) h

stoi-number : (s : Text) → IsNumber s → value 0 s < 2 ^ 31 → stoi s ≡ ok (value 0 s)
stoi-number s (c, rest, e, lo, hi, d) h =
    subst (λ x. value 0 x < 2 ^ 31 → stoi x ≡ ok (value 0 x)) (sym e) (stoi-cons c rest lo hi) h

-- Every number that fits into an int is read back from its print.
pub stoi-format : (n : ℕ) → n < 2 ^ 31 → stoi (format n) ≡ ok n
unfolding format
stoi-format n h =
    let same : value 0 (digits (suc n) n []) ≡ n =
      value-digits (suc n) n [] (omega arith) ∙ value-nil n in
    stoi-number (digits (suc n) n []) (digits-IsNumber (suc n) n [] (omega arith) tt)
      (omega (arith, same))
    ∙ ap ok same

read_positive-overflow :
    (s : Text) → starts_digit s ≡ true → 2 ^ 31 ≤ value 0 s → read_positive s ≡ fault out_of_range
unfolding read_positive
read_positive-overflow s d h = rw (d, le→ltb _ _ h) refl

number-overflow : (s : Text) → IsNumber s → 2 ^ 31 ≤ value 0 s → stoi s ≡ fault out_of_range
number-overflow s (c, rest, e, lo, hi, d) h =
    subst (λ x. 2 ^ 31 ≤ value 0 x → stoi x ≡ fault out_of_range) (sym e)
      (λ k.
        signed-positive c rest lo hi ∙ read_positive-overflow (c ∷ rest) (starts c rest lo hi) k)
      h

pub stoi-overflow : (n : ℕ) → 2 ^ 31 ≤ n → stoi (format n) ≡ fault out_of_range
unfolding format
stoi-overflow n h =
    let same : value 0 (digits (suc n) n []) ≡ n =
      value-digits (suc n) n [] (omega arith) ∙ value-nil n in
    number-overflow (digits (suc n) n []) (digits-IsNumber (suc n) n [] (omega arith) tt)
      (omega (arith, same))
