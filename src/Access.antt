-- ===== src/Access.antt =====
-- pkg/adapter/server.go: `adapterAuthMiddleware`, which decides whether a request goes on, and
-- `formatHeaders`, which decides what of its headers is logged.
pub mod Laws
mod Tests
use aadapter.Base.{
  String, ◌++ₛ◌, Bool, true, not, ◌||◌, Option, none, some, List, [], ◌∷◌, if◌then◌else◌, str_eq,
}
use aadapter.Base.Maps.{Map}
use aadapter.Gemini.Options.{among}
use aadapter.Gemini.Media.{join}
use aadapter.Gemini.Carrier.{cut_prefix}

-- What the middleware reads of a request: its path and two headers, empty if they are missing.
pub record Request : Type 0 where
  pub path : String
  pub api_key : String
  pub authorization : String

-- `strings.TrimPrefix`
abbrev pub trim_prefix : String → String → String
trim_prefix s prefix = elim (cut_prefix s prefix) [ some rest ↦ rest | none ↦ s ]

unfoldable pub provided_key : Request → String
provided_key r = if str_eq r.api_key "" then trim_prefix r.authorization "Bearer " else r.api_key

-- Does the request go on? A comparison in constant time is one of the whole texts.
unfoldable pub is_admitted : String → Request → Bool
is_admitted api_key r =
    if str_eq api_key "" || str_eq r.path "/healthz" then true else str_eq (provided_key r) api_key

abbrev pub sensitive_headers : List String
sensitive_headers =
    "authorization" ∷ "proxy-authorization" ∷ "x-api-key" ∷ "cookie" ∷ "set-cookie" ∷ []

module _ (to_lower : String → String) where
  unfoldable pub is_sensitive_header : String → Bool
  is_sensitive_header name = among (to_lower name) sensitive_headers

  unfoldable pub format_header : String → List String → String
  format_header k values =
      if is_sensitive_header k then k ++ₛ ": [REDACTED]" else k ++ₛ (": " ++ₛ join "," values)

  unfoldable pub format_parts : Map (List String) → List String
  format_parts [] = []
  format_parts ((k, values) ∷ h) = format_header k values ∷ format_parts h

  unfoldable pub format_headers : Map (List String) → String
  format_headers h = join " | " (format_parts h)
