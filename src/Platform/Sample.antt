-- ===== src/Platform/Sample.antt =====
-- Functions in place of the standard library's, for the tests: they keep what they are given.
use aadapter.Base.{some, []}
use aadapter.Base.Outcome.{ok}
use aadapter.Platform.{Platform}

abbrev pub sample : Platform
sample = record {
  quote = λ s. s;
  to_lower = λ s. s;
  sha256_hex = λ s. s;
  parse_url = λ s. some ("https", s);
  mime_type_by_path = λ s. "image/png";
  marshal = λ v. "{}";
  unmarshal_object = λ s. ok [];
  encode_base64 = λ s. s;
  decode_base64 = λ s. some s;
  marshal_carrier = λ key signature. signature;
  unmarshal_carrier = λ s. some ("tool:1", s);
}
