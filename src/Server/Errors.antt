-- ===== src/Server/Errors.antt =====
-- How `messages` of pkg/adapter/server.go passes on an upstream answer without a success status,
-- with `upstreamErrorToAnthropic` of pkg/adapter/http_helpers.go.
use Prim.Native.Char.{Char}
use aadapter.Base.{
  ℕ, ◌≤◌, ◌<◌, String, ◌++ₛ◌, ◌≡◌, refl, arith, ◌⊎◌, inl, inr, Bool, true, false, Bool-cases, List,
  if◌then◌else◌, ◌==◌, str_eq, eq_iff, chars, chars-append, sym, ap, ◌∙◌, [], ◌∷◌,
}
use aadapter.Base.Outcome.{Outcome-cases, ok, fail}
use aadapter.Base.Maps.{get, put}
use aadapter.Json.{str, object}
use aadapter.Capture.{read_response_body}
use aadapter.Config.{Config}
use aadapter.Server.{
  MessagesRequest, UpstreamResponse, Reply, Exchange, World, natural, error_type, error_reply,
  error_over, error_body, values_of, text, is_success, upstream_message, upstream_error,
}
use aadapter.Server.Handlers.{reply_of, read_upstream, answer_error, answer_messages}

-- A text that is replaced if it is empty.
filled :
    (given default : String)
    → str_eq default "" ≡ false
    → str_eq (if str_eq given "" then default else given) "" ≡ false
filled given default h = elim (Bool-cases (str_eq given "")) [
  | inl empty ↦ rw empty h
  | inr full ↦ rw full full
]

-- A text with a first character is not empty.
abbrev is_cons : List Char → Bool
is_cons [] = false
is_cons (c ∷ cs) = true

nonempty : (s : String) → is_cons (chars s) ≡ true → str_eq s "" ≡ false
nonempty s h = elim (Bool-cases (str_eq s "")) [
  | inr full ↦ full
  | inl empty ↦
      let e : s ≡ "" = (eq_iff s "").0 empty in
      let d : false ≡ true = sym (ap (λ t. is_cons (chars t)) e) ∙ h in absurd (cc)
]

-- The message is not empty, and is the one of the answer, if there is one that is not empty.
abbrev pub Message : World → String → String → Type 0
Message w body message =
    (str_eq message "" ≡ false)
    × ((w.parse_upstream_error body ≡ ok message)
        ⊎ ((w.parse_upstream_error body ≡ ok "")
            ⊎ ((reason : String) × (w.parse_upstream_error body ≡ fail reason))))

upstream_message-Message :
    (w : World) (body : String) (status : ℕ) → Message w body (upstream_message w body status)
unfolding upstream_message
upstream_message-Message w body status =
    let default = "upstream returned HTTP " ++ₛ w.decimal status in
    let full : str_eq default "" ≡ false =
      nonempty default (rw (chars-append "upstream returned HTTP " (w.decimal status)) refl) in
    let known = filled (w.status_text status) default full in
    elim (Outcome-cases (w.parse_upstream_error body)) [
      | inl (reason, fails) ↦ rw (fails, upstream_message) (known, inr (inr (reason, refl)))
      | inr (given, is) ↦ elim (Bool-cases (str_eq given "")) [
        | inl empty ↦
            let e : given ≡ "" = (eq_iff given "").0 empty in
            rw (is, empty, upstream_message) (known, inr (inl (rw e refl)))
        | inr there ↦ rw (is, there, there, upstream_message) (there, inl refl)
      ]
    ]

-- The types of the errors of the API by their status, and the type for a status.
abbrev pub types : List (ℕ × String)
types =
    (400, "invalid_request_error")
    ∷ (401, "authentication_error")
    ∷ (403, "permission_error")
    ∷ (404, "not_found_error")
    ∷ (422, "invalid_request_error")
    ∷ (429, "rate_limit_error")
    ∷ []

abbrev pub type_among : List (ℕ × String) → ℕ → String
type_among [] status = "api_error"
type_among ((n, kind) ∷ rest) status = if status == n then kind else type_among rest status

error_type-types : (status : ℕ) → error_type status ≡ type_among types status
unfolding error_type
error_type-types status = ground arith

-- The reply is an error of the API as JSON.
abbrev pub Reports : World → Reply → ℕ → String → String → Type 0
Reports w reply status kind message =
    (reply.status ≡ status)
    × (values_of "Content-Type" reply.headers ≡ "application/json" ∷ [])
    × (reply.content
        ≡ text (
            w.platform.marshal (
              object (
                ("type", str "error")
                ∷ ("error", object (("type", str kind) ∷ ("message", str message) ∷ []))
                ∷ []))
            ++ₛ "\n"))

error_reply-Reports :
    (w : World) (status : ℕ) (kind message : String)
    → Reports w (error_reply w status kind message) status kind message
unfolding error_over error_body get put
error_reply-Reports w status kind message = (refl, refl, refl)

abbrev pub Unsuccessful : ℕ → Type 0
Unsuccessful status = (status < 200) ⊎ (300 ≤ status)

module _ (w : World) (cfg : Config) where
  abbrev pub Refusal : UpstreamResponse → Exchange → Exchange × Reply → Type 0
  Refusal response x r =
      (r.0 ≡ x)
      × (((bytes : List ℕ) × (kind message : String) × (read_response_body
                (natural cfg.max_response_body_bytes) response.body
              ≡ ok bytes)
            × Reports w r.1 response.status kind message
            × (kind ≡ type_among types response.status)
            × Message w (w.of_bytes bytes) message)
          ⊎ ((message : String) × (read_response_body (natural cfg.max_response_body_bytes)
                  response.body
                ≡ fail message)
              × Reports w r.1 502 "api_error" ("failed to read upstream error: " ++ₛ message)))

  answer_error-Refusal :
      (response : UpstreamResponse) (x : Exchange)
      → Refusal response x
          (reply_of (answer_error w cfg response "failed to read upstream error: " x))
  unfolding answer_error read_upstream upstream_error
  answer_error-Refusal response x =
      elim (Outcome-cases
        (read_response_body (natural cfg.max_response_body_bytes) response.body)) [
          | inl (message, fails) ↦
              let said = "failed to read upstream error: " ++ₛ message in
              rw (fails, answer_error, read_upstream)
                (refl, inr (message, refl, error_reply-Reports w 502 "api_error" said))
          | inr (bytes, is) ↦
              let body = w.of_bytes bytes in
              let status = response.status in
              let kind = error_type status in
              let message = upstream_message w body status in
              rw (is, answer_error, read_upstream)
                (
                  refl,
                  inl (
                    bytes,
                    kind,
                    message,
                    refl,
                    error_reply-Reports w status kind message,
                    error_type-types status,
                    upstream_message-Message w body status,
                  ),
                )
        ]

-- An upstream answer to messages with a status below 200 or from 300 on, whatever was asked for, is
-- reported as an error of the API with that status; its type is invalid_request_error for 400 and 422,
-- authentication_error for 401, permission_error for 403, not_found_error for 404, rate_limit_error
-- for 429 and api_error otherwise; its message is not empty, and is the one of the error of the answer
-- where that has one that is not empty. Where the answer cannot be read, the error has the status 502
-- and says why. The state of the server stays as it is.
pub answer_messages-Refusal :
    (w : World) (cfg : Config) (response : UpstreamResponse) (session_id : String)
    (parsed : MessagesRequest) (model : String) (x : Exchange)
    → Unsuccessful response.status
    → Refusal w cfg response x (reply_of (answer_messages w cfg response session_id parsed model x))
unfolding answer_messages
answer_messages-Refusal w cfg response session_id parsed model x refused =
    let e : is_success response.status ≡ false = ground arith in
    rw (e, answer_messages) (answer_error-Refusal w cfg response x)
