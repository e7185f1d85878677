-- ===== src/Platform.antt =====
-- What pkg/adapter calls and this repository does not implement: Go's standard library. A record of
-- functions; a theorem that needs a law of one states it as a hypothesis.
pub mod Sample
use aadapter.Base.{String, Option}
use aadapter.Base.Outcome.{Outcome}
use aadapter.Json.{Value, Object}

pub record Platform : Type 0 where
  -- `%q` of `fmt`
  pub quote : String → String
  -- `strings.ToLower`
  pub to_lower : String → String
  -- `%x` of `sha256.Sum256`
  pub sha256_hex : String → String
  -- `url.Parse`: the scheme and the path of a URL that parses
  pub parse_url : String → Option (String × String)
  -- `mime.TypeByExtension(path.Ext(p))`
  pub mime_type_by_path : String → String
  -- `json.Marshal` of a decoded value, and `json.Unmarshal` into a `map[string]interface{}`
  pub marshal : Value → String
  pub unmarshal_object : String → Outcome Object
  -- `base64.RawURLEncoding`
  pub encode_base64 : String → String
  pub decode_base64 : String → Option String
  -- `json.Marshal` and `json.Unmarshal` of a `signatureCarrier`, by its key and its signature
  pub marshal_carrier : String → String → String
  pub unmarshal_carrier : String → Option (String × String)
