-- ===== src/Gemini/Carrier.antt =====
-- pkg/adapter/gemini.go: the keys of signatures, and the carrier blocks that hold one.
pub mod Laws
mod Tests
use aadapter.Base.{
  String, ◌++ₛ◌, Bool, true, false, ◌||◌, Option, none, some, List, [], ◌∷◌, if◌then◌else◌, str_eq,
  same_char,
}
use aadapter.Json.{Value, str, Object}
use aadapter.Platform.{Platform}

abbrev pub synthesized_tool_id_prefix : String
synthesized_tool_id_prefix = "gemini_synth_"

abbrev pub signature_carrier_prefix : String
signature_carrier_prefix = "aadapter-signature-v1:"

abbrev pub tool_signature_key : String → String
tool_signature_key id = "tool:" ++ₛ id

-- `strings.CutPrefix`, by the characters of both texts
unfoldable pub cut_prefix : String → String → Option String
cut_prefix s String.[] = some s
cut_prefix String.[] (String.◌∷◌ c t) = none
cut_prefix (String.◌∷◌ d s) (String.◌∷◌ c t) = if same_char d c then cut_prefix s t else none

module _ (p : Platform) where
  unfoldable pub text_signature_key : String → String
  text_signature_key text = "text:" ++ₛ p.sha256_hex text

  unfoldable pub signature_carrier_block : String → String → Object
  signature_carrier_block key signature =
      ("type", str "redacted_thinking")
      ∷ (
        "data",
        str (signature_carrier_prefix ++ₛ p.encode_base64 (p.marshal_carrier key signature)),
      )
      ∷ []

  abbrev pub full_carrier : Option (String × String) → Option (String × String)
  full_carrier none = none
  full_carrier (some (key, signature)) =
      if str_eq key "" || str_eq signature "" then none else some (key, signature)

  unfoldable pub decode_signature_carrier : String → Option (String × String)
  decode_signature_carrier text = elim (cut_prefix text signature_carrier_prefix) [
    | none ↦ none
    | some encoded ↦ elim (p.decode_base64 encoded) [
      | none ↦ none
      | some payload ↦ full_carrier (p.unmarshal_carrier payload)
    ]
  ]
