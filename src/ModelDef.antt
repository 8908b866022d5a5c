-- ===== src/ModelDef.antt =====
-- src/nexus/common/model_def.h: names of models and model sessions, with SplitString of
-- src/nexus/common/util.cpp. A text is the list of its bytes. `std::stoi`, `std::getline` and the
-- printing of numbers are written out as the standard has them, in the C locale.
pub mod Decimal
pub mod Tokens
pub mod RoundTrip
mod Tests
use nexuslb.Prelude.{
  ℕ, zero, suc, ◌+◌, ◌-◌, ◌*◌, ◌/◌, ◌%◌, ◌^◌, Bool, true, false, not, ◌&&◌, ◌||◌, Option, none,
  some, List, [], ◌∷◌, ◌++◌, ◌==◌, ltb, leb, length, if◌then◌else◌, Outcome, ok, fault,
  out_of_range, invalid_argument, undefined, require, ◌>>=◌, ◌>>◌,
}

abbrev pub Text : Type 0
Text = List ℕ

-- The digits of a number in front of a text, on fuel.
unfoldable pub digits : ℕ → ℕ → Text → Text
digits zero n out = out
digits (suc f) n out = elim (ltb n 10) [
  | true ↦ (b'0' + n) ∷ out
  | false ↦ digits f (n / 10) ((b'0' + n % 10) ∷ out)
]

unfoldable pub format : ℕ → Text
unfolding digits
format n = digits (suc n) n []

unfoldable pub is_digit : ℕ → Bool
is_digit c = leb b'0' c && leb c b'9'

unfoldable pub is_space : ℕ → Bool
is_space c = c == 32 || (leb 9 c && leb c 13)

unfoldable pub skip_spaces : Text → Text
unfolding is_space
skip_spaces [] = []
skip_spaces (c ∷ s) = let rest = skip_spaces s in if is_space c then rest else c ∷ s

-- The number that the digits at the front spell, behind `n`.
unfoldable pub value : ℕ → Text → ℕ
unfolding is_digit
value n [] = n
value n (c ∷ s) = let next = value (n * 10 + (c - b'0')) s in if is_digit c then next else n

unfoldable pub starts_digit : Text → Bool
unfolding is_digit
starts_digit [] = false
starts_digit (c ∷ s) = is_digit c

unfoldable pub read_positive : Text → Outcome ℕ
unfolding starts_digit value
read_positive s = do
  require (starts_digit s) invalid_argument
  require (ltb (value 0 s) (2 ^ 31)) out_of_range
  ok (value 0 s)

-- A negative number, as the 32-bit word that it is converted to.
unfoldable pub read_negative : Text → Outcome ℕ
unfolding starts_digit value
read_negative s = do
  require (starts_digit s) invalid_argument
  require (leb (value 0 s) (2 ^ 31)) out_of_range
  ok ((2 ^ 32 - value 0 s) % 2 ^ 32)

unfoldable pub read_signed : Text → Outcome ℕ
unfolding read_positive read_negative
read_signed [] = fault invalid_argument
read_signed (c ∷ s) =
    if c == b'-'
    then read_negative s
    else if c == b'+'
    then read_positive s
    else read_positive (c ∷ s)

-- `std::stoi`, converted to uint32_t.
unfoldable pub stoi : Text → Outcome ℕ
unfolding read_signed skip_spaces
stoi s = read_signed (skip_spaces s)

unfoldable pub add_to_first : ℕ → List Text → List Text
add_to_first c [] = (c ∷ []) ∷ []
add_to_first c (t ∷ ts) = (c ∷ t) ∷ ts

-- `SplitString`: as `std::getline` reads, there is no empty token at the end.
unfoldable pub split_string : ℕ → Text → List Text
unfolding add_to_first
split_string delim [] = []
split_string delim (c ∷ s) =
    let rest = split_string delim s in if c == delim then [] ∷ rest else add_to_first c rest

-- `ModelSession` of nnquery.proto, with the fields that are read here.
pub record ModelSession : Type 0 where
  pub framework : Text
  pub model_name : Text
  pub version : ℕ
  pub latency_sla : ℕ
  pub image_height : ℕ
  pub image_width : ℕ

abbrev pub no_session : ModelSession
no_session = record {
  framework = [];
  model_name = [];
  version = 0;
  latency_sla = 0;
  image_height = 0;
  image_width = 0;
}

-- `ModelID`.
unfoldable pub model_id : Text → Text → ℕ → Text
unfolding format
model_id framework model_name version =
    framework ++ (b':' ∷ (model_name ++ (b':' ∷ format version)))

-- `ParseModelID`: too few tokens are undefined behaviour.
unfoldable pub parse_tokens : List Text → ModelSession → Outcome ModelSession
unfolding stoi
parse_tokens (f ∷ n ∷ v ∷ rest) m =
    stoi v >>= λ version. ok (record m { framework = f; model_name = n; version = version })
parse_tokens other m = fault undefined

unfoldable pub parse_model_id : Text → ModelSession → Outcome ModelSession
unfolding split_string parse_tokens
parse_model_id s m = parse_tokens (split_string b':' s) m

-- `ModelSessionToModelID`.
unfoldable pub model_session_to_model_id : ModelSession → Text
unfolding model_id
model_session_to_model_id m = model_id m.framework m.model_name m.version

-- The image's size, if there is one, in front of the rest.
unfoldable pub image_size : ModelSession → Text → Text
unfolding format
image_size m rest =
    if ltb 0 m.image_height
    then b':' ∷ (format m.image_height ++ (b'x' ∷ (format m.image_width ++ rest)))
    else rest

-- `ModelSessionToProfileID`.
unfoldable pub model_session_to_profile_id : ModelSession → Text
unfolding image_size format
model_session_to_profile_id m =
    m.framework ++ (b':' ∷ (m.model_name ++ (b':' ∷ (format m.version ++ image_size m []))))

-- `ModelSessionToString`.
unfoldable pub model_session_to_string : ModelSession → Text
unfolding image_size format
model_session_to_string m =
    m.framework
    ++ (b':'
        ∷ (m.model_name
            ++ (b':' ∷ (format m.version ++ image_size m (b':' ∷ format m.latency_sla)))))

-- The size of the image, from its two parts.
unfoldable pub parse_dims : List Text → ModelSession → Outcome (Bool × ModelSession)
unfolding stoi
parse_dims (h ∷ w ∷ []) m = do
  height ← stoi h
  width ← stoi w
  ok (true, record m { image_height = height; image_width = width })
parse_dims other m = ok (false, m)

unfoldable pub parse_session_tokens : List Text → ModelSession → Outcome (Bool × ModelSession)
unfolding stoi parse_dims split_string
parse_session_tokens (f ∷ n ∷ v ∷ l ∷ []) m = do
  version ← stoi v
  sla ← stoi l
  ok (true, record m { framework = f; model_name = n; version = version; latency_sla = sla })
parse_session_tokens (f ∷ n ∷ v ∷ dims ∷ l ∷ rest) m = do
  version ← stoi v
  sla ← stoi l
  parse_dims (split_string b'x' dims)
      (record m { framework = f; model_name = n; version = version; latency_sla = sla })
parse_session_tokens other m = ok (false, m)

-- `ParseModelSession`.
unfoldable pub parse_model_session : Text → ModelSession → Outcome (Bool × ModelSession)
unfolding split_string parse_session_tokens
parse_model_session s m = parse_session_tokens (split_string b':' s) m
