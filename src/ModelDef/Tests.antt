-- ===== src/ModelDef/Tests.antt =====
-- model_def.h on short names.
use nexuslb.Prelude.{◌^◌, ◌≡◌, refl, true, [], ◌∷◌, ok, fault, out_of_range, arith}
use nexuslb.ModelDef.{
  Text, is_digit, is_space, skip_spaces, value, starts_digit, read_negative, read_signed, stoi,
  add_to_first, split_string, ModelSession, no_session, model_id, parse_model_id,
  model_session_to_string, parse_model_session,
}
use nexuslb.ModelDef.RoundTrip.{
  IsPrintable, parse_model_id-model_id, parse_model_session-to_string, parse_model_id-overflow,
}

abbrev net : Text
net = b'n' ∷ b'e' ∷ b't' ∷ []

abbrev tf : Text
tf = b't' ∷ b'f' ∷ []

abbrev session : ModelSession
session = record {
  framework = tf;
  model_name = net;
  version = 2;
  latency_sla = 50;
  image_height = 224;
  image_width = 300;
}

negative : stoi (32 ∷ b'-' ∷ b'3' ∷ []) ≡ ok 4294967293
unfolding stoi skip_spaces is_space read_signed read_negative starts_digit is_digit value
negative = refl

no_last_token : split_string b':' (b'a' ∷ b':' ∷ b':' ∷ []) ≡ (b'a' ∷ []) ∷ [] ∷ []
unfolding split_string add_to_first
no_last_token = refl

parse_model_id_example :
    parse_model_id (model_id tf net 12) no_session
    ≡ ok (record no_session { framework = tf; model_name = net; version = 12 })
parse_model_id_example = parse_model_id-model_id tf net 12 no_session refl refl (omega arith)

session-IsPrintable : IsPrintable session
session-IsPrintable = record {
  framework_token = refl;
  name_token = refl;
  version_int = omega arith;
  sla_int = omega arith;
  height_int = omega arith;
  width_int = omega arith;
  no_image = λ e. absurd (omega arith);
}

parse_model_session_example :
    parse_model_session (model_session_to_string session) no_session ≡ ok (true, session)
parse_model_session_example = parse_model_session-to_string session session-IsPrintable

overflow_example : parse_model_id (model_id tf net (2 ^ 31)) no_session ≡ fault out_of_range
overflow_example = parse_model_id-overflow tf net (2 ^ 31) no_session refl refl (omega arith)
