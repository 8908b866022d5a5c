-- ===== src/ModelDef/RoundTrip.antt =====
-- Names of models and sessions, printed and parsed again.
use nexuslb.Prelude.{
  ℕ, suc, ◌^◌, ◌≤◌, ◌<◌, ◌≡◌, refl, sym, ap, ◌∙◌, inl, inr, true, false, ◌||◌, [], ◌∷◌, ◌++◌,
  append_assoc, ltb, contains, ok, fault, out_of_range, arith, Bool-cases,
}
use nexuslb.ModelDef.{
  Text, format, split_string, ModelSession, no_session, model_id, parse_tokens, parse_model_id,
  image_size, model_session_to_string, parse_dims, parse_session_tokens, parse_model_session,
}
use nexuslb.ModelDef.Decimal.{format-IsNumber, stoi-format, stoi-overflow}
use nexuslb.ModelDef.Tokens.{split-token, split-number, IsNumber-contains}

-- A text with no colon, and a number that fits into an int.
abbrev pub IsToken : Text → Type 0
IsToken t = contains b':' t ≡ false

abbrev pub IsInt : ℕ → Type 0
IsInt n = n < 2 ^ 31

number_split : (delim n : ℕ) → suc b'9' ≤ delim → split_string delim (format n) ≡ format n ∷ []
number_split delim n h = split-number delim (format n) h (format-IsNumber n)

number_front :
    (delim n : ℕ) (s : Text)
    → suc b'9' ≤ delim
    → split_string delim (format n ++ (delim ∷ s)) ≡ format n ∷ split_string delim s
number_front delim n s h =
    split-token delim (format n) s (IsNumber-contains delim (format n) h (format-IsNumber n))

-- ParseModelID reads the parts of a model id back, if the texts have no colon and the version fits
-- into an int.
pub parse_model_id-model_id :
    (f n : Text) (v : ℕ) (m : ModelSession)
    → IsToken f
    → IsToken n
    → IsInt v
    → parse_model_id (model_id f n v) m
      ≡ ok (record m { framework = f; model_name = n; version = v })
unfolding parse_model_id model_id parse_tokens
parse_model_id-model_id f n v m hf hn hv =
    rw
      (
        split-token b':' f (n ++ (b':' ∷ format v)) hf,
        split-token b':' n (format v) hn,
        number_split b':' v (omega arith),
        stoi-format v hv,
      )
      refl

-- A session whose texts have no colon, whose numbers fit into an int, and that has no image width
-- without a height.
pub record IsPrintable (m : ModelSession) : Type 0 where
  pub framework_token : IsToken m.framework
  pub name_token : IsToken m.model_name
  pub version_int : IsInt m.version
  pub sla_int : IsInt m.latency_sla
  pub height_int : IsInt m.image_height
  pub width_int : IsInt m.image_width
  pub no_image : m.image_height ≡ 0 → m.image_width ≡ 0

contains-append : (c : ℕ) (s t : Text) → contains c (s ++ t) ≡ (contains c s || contains c t)
contains-append c [] t = refl
contains-append c (b ∷ s) t = ground (arith, contains-append c s t)

dims_front :
    (h w : ℕ) (s : Text)
    → split_string b':' (format h ++ (b'x' ∷ (format w ++ (b':' ∷ s))))
      ≡ (format h ++ (b'x' ∷ format w)) ∷ split_string b':' s
dims_front h w s =
    ap (split_string b':') (sym (append_assoc (format h) (b'x' ∷ format w) (b':' ∷ s)))
    ∙ split-token b':' (format h ++ (b'x' ∷ format w)) s (
        contains-append b':' (format h) (b'x' ∷ format w)
        ∙ ground (
          arith,
          IsNumber-contains b':' (format h) (omega arith) (format-IsNumber h),
          IsNumber-contains b':' (format w) (omega arith) (format-IsNumber w),
        ))

with_image :
    (m : ModelSession)
    → IsPrintable m
    → ltb 0 m.image_height ≡ true
    → parse_model_session (model_session_to_string m) no_session ≡ ok (true, m)
unfolding parse_model_session model_session_to_string image_size parse_session_tokens parse_dims
with_image m h e =
    rw
      (
        e,
        split-token b':' m.framework _ h.framework_token,
        split-token b':' m.model_name _ h.name_token,
        number_front b':' m.version _ (omega arith),
        dims_front m.image_height m.image_width (format m.latency_sla),
        number_split b':' m.latency_sla (omega arith),
        stoi-format m.version h.version_int,
        stoi-format m.latency_sla h.sla_int,
        number_front b'x' m.image_height (format m.image_width) (omega arith),
        number_split b'x' m.image_width (omega arith),
        stoi-format m.image_height h.height_int,
        stoi-format m.image_width h.width_int,
      )
      refl

without_image :
    (m : ModelSession)
    → IsPrintable m
    → ltb 0 m.image_height ≡ false
    → parse_model_session (model_session_to_string m) no_session ≡ ok (true, m)
unfolding parse_model_session model_session_to_string image_size parse_session_tokens
without_image m h e =
    let height : m.image_height ≡ 0 = ground arith in
    let width : m.image_width ≡ 0 = h.no_image height in
    rw
      (
        e,
        split-token b':' m.framework _ h.framework_token,
        split-token b':' m.model_name _ h.name_token,
        number_front b':' m.version (format m.latency_sla) (omega arith),
        number_split b':' m.latency_sla (omega arith),
        stoi-format m.version h.version_int,
        stoi-format m.latency_sla h.sla_int,
      )
      (cc (height, width))

-- ParseModelSession reads a printable session back from its string.
pub parse_model_session-to_string :
    (m : ModelSession)
    → IsPrintable m
    → parse_model_session (model_session_to_string m) no_session ≡ ok (true, m)
parse_model_session-to_string m h = elim (Bool-cases (ltb 0 m.image_height)) [
  | inl e ↦ with_image m h e
  | inr e ↦ without_image m h e
]

-- A version that does not fit into an int is printed, and not read back: std::stoi throws.
pub parse_model_id-overflow :
    (f n : Text) (v : ℕ) (m : ModelSession)
    → IsToken f
    → IsToken n
    → 2 ^ 31 ≤ v
    → parse_model_id (model_id f n v) m ≡ fault out_of_range
unfolding parse_model_id model_id parse_tokens
parse_model_id-overflow f n v m hf hn hv =
    rw
      (
        split-token b':' f (n ++ (b':' ∷ format v)) hf,
        split-token b':' n (format v) hn,
        number_split b':' v (omega arith),
        stoi-overflow v hv,
      )
      refl
