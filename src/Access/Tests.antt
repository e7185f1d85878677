-- ===== src/Access/Tests.antt =====
-- Runs of the middleware and of the log of headers of pkg/adapter/server.go at concrete inputs.
use aadapter.Base.{
  String, ◌++ₛ◌, ◌≡◌, ◌⊎◌, refl, inl, inr, true, false, List, [], ◌∷◌, arith, eq_iff,
}
use aadapter.Base.Maps.{Map}
use aadapter.Gemini.Options.{among}
use aadapter.Gemini.Media.{join}
use aadapter.Gemini.Carrier.{cut_prefix}
use aadapter.Access.{
  Request, provided_key, is_admitted, is_sensitive_header, format_header, format_parts,
  format_headers,
}
use aadapter.Access.Laws.{is_admitted-key, format_headers-same}

program : Unit {0}
unfolding among join cut_prefix provided_key is_admitted is_sensitive_header format_header
    format_parts format_headers
program = tt

abbrev request : Request
request = record { path = "/v1/messages"; api_key = ""; authorization = "Bearer k" }

admits :
    (is_admitted "k" request ≡ true)
    × (is_admitted "k" (record request { api_key = "other" }) ≡ false)
unfolding program
admits = (refl, refl)

abbrev headers : String → Map (List String)
headers secret = ("accept", "a" ∷ "b" ∷ []) ∷ ("cookie", secret ∷ []) ∷ []

abbrev lower : String → String
lower s = s

logs : format_headers lower (headers "s") ≡ "accept: a,b | cookie: [REDACTED]"
unfolding program
logs = refl

is_admitted-key_example :
    (request.api_key ≡ "k")
    ⊎ ((request.api_key ≡ "")
        × ((request.authorization ≡ "k") ⊎ (request.authorization ≡ "Bearer " ++ₛ "k")))
is_admitted-key_example =
    is_admitted-key "k" request admits.0 (ground (arith, eq_iff "k" ""))
      (ground (arith, eq_iff "/v1/messages" "/healthz"))

format_headers-same_example :
    format_headers lower (headers "s") ≡ format_headers lower (headers "t")
format_headers-same_example =
    format_headers-same lower (headers "s") (headers "t")
      (refl, inr refl, (refl, inl (inr (inr (inr (inl refl)))), tt))
