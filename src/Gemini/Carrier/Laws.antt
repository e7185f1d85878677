-- ===== src/Gemini/Carrier/Laws.antt =====
-- A signature that pkg/adapter/gemini.go puts in a carrier block comes back from it.
use text.Mathlib.TextLemmas.{nil-append, cons-append}
use aadapter.Base.{String, ◌++ₛ◌, ◌≡◌, ◌≢◌, ◌∙◌, Bool, some, arith, eq_iff, same_char}
use aadapter.Base.Maps.{get}
use aadapter.Json.{string_or_empty}
use aadapter.Platform.{Platform}
use aadapter.Gemini.Carrier.{
  signature_carrier_prefix, cut_prefix, signature_carrier_block, full_carrier,
  decode_signature_carrier,
}

pub cut_prefix-append : (t s : String) → cut_prefix (t ++ₛ s) t ≡ some s
unfolding cut_prefix
cut_prefix-append String.[] s = rw nil-append
cut_prefix-append (String.◌∷◌ c t) s =
    rw cons-append
      (let e : same_char c c ≡ Bool.true = ground arith in rw e (cut_prefix-append t s))

module _ (p : Platform) where
  decode_of :
      (given encoded payload : String)
      → cut_prefix given signature_carrier_prefix ≡ some encoded
      → p.decode_base64 encoded ≡ some payload
      → decode_signature_carrier p given ≡ full_carrier p (p.unmarshal_carrier payload)
  unfolding decode_signature_carrier
  decode_of given encoded payload cut base64 = ground arith

  full_carrier-of :
      (key signature : String)
      → key ≢ ""
      → signature ≢ ""
      → full_carrier p (some (key, signature)) ≡ some (key, signature)
  full_carrier-of key signature kne sne = ground (arith, eq_iff key "", eq_iff signature "")

  -- Decoding the data of a carrier block gives back the key and the signature that it was made
  -- of, where neither is empty, `base64` decodes what it encoded and `encoding/json` reads the
  -- carrier that it wrote.
  pub decode-signature_carrier_block :
      (key signature : String)
      → ((s : String) → p.decode_base64 (p.encode_base64 s) ≡ some s)
      → p.unmarshal_carrier (p.marshal_carrier key signature) ≡ some (key, signature)
      → key ≢ ""
      → signature ≢ ""
      → decode_signature_carrier p
          (string_or_empty (get "data" (signature_carrier_block p key signature)))
        ≡ some (key, signature)
  unfolding signature_carrier_block string_or_empty get
  decode-signature_carrier_block key signature base64 json kne sne =
      let payload = p.marshal_carrier key signature in
      let encoded = p.encode_base64 payload in
      decode_of (signature_carrier_prefix ++ₛ encoded) encoded payload
        (cut_prefix-append signature_carrier_prefix encoded) (base64 payload)
      ∙ rw json (full_carrier-of key signature kne sne)
