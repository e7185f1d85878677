-- ===== src/Gemini/Carrier/Tests.antt =====
-- Runs of the carrier blocks of pkg/adapter/gemini.go at concrete inputs.
use aadapter.Base.{◌≡◌, refl, none, some, arith, eq_iff}
use aadapter.Base.Maps.{get}
use aadapter.Json.{string_or_empty}
use aadapter.Platform.Sample.{sample}
use aadapter.Gemini.Carrier.{cut_prefix, signature_carrier_block, decode_signature_carrier}
use aadapter.Gemini.Carrier.Laws.{decode-signature_carrier_block}

-- Data without the prefix of a carrier is no carrier.
foreign : decode_signature_carrier sample "tool:1" ≡ none
unfolding decode_signature_carrier cut_prefix
foreign = refl

decode-signature_carrier_block_example :
    decode_signature_carrier sample
      (string_or_empty (get "data" (signature_carrier_block sample "tool:1" "abc")))
    ≡ some ("tool:1", "abc")
decode-signature_carrier_block_example =
    decode-signature_carrier_block sample "tool:1" "abc" (λ s. refl) refl
      (ground (arith, eq_iff "tool:1" "")) (ground (arith, eq_iff "abc" ""))
