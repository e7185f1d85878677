-- ===== src/Tokens/Tests.antt =====
-- Runs of pkg/adapter/token_provider.go at concrete inputs.
use aadapter.Base.{ℕ, ◌+◌, String, ◌≡◌, refl, some, none, List, [], ◌∷◌, All}
use aadapter.Base.Outcome.{ok, fail}
use aadapter.Tokens.{
  Answer, Event, get_call, reject_call, ask, receive, cancel, finish, Returns, new_pool, second,
  lifetime, add_duration, check_bearer, select_result, check_id_token, is_fresh, get_bearer_token,
  refresh_after_rejection, check_status, refresh, refreshed, step, run,
}
use aadapter.Tokens.Fresh.{Covers, run-Covers}
use aadapter.Tokens.Laws.{Issues, Exists, ReturnsToken, run-Issues}

program : Unit {0}
unfolding lifetime add_duration check_id_token is_fresh get_bearer_token refresh_after_rejection
    check_bearer select_result check_status refresh refreshed step run
program = tt

abbrev decimal : ℕ → String
decimal n = "503"

abbrev good : Answer
good = record { status = 200; body = ok (record { id_token = "t"; expires_in = 0 }) }

-- Two calls ask and share a refresh that the end of the first call's context does not stop; the third
-- has the token from the pool; a rejection of it starts another refresh, which fails. The last call
-- found no token before the first refresh ended, and asks after it.
abbrev events : List Event
events =
    get_call 1 0
    ∷ get_call 2 0
    ∷ get_call 5 0
    ∷ ask 1
    ∷ ask 2
    ∷ cancel 1 "context canceled"
    ∷ finish 5 (ok good)
    ∷ receive 2 0
    ∷ get_call 3 6
    ∷ reject_call 4 "Bearer t"
    ∷ ask 4
    ∷ ask 5
    ∷ finish 7 (ok (record { status = 503; body = fail "unread" }))
    ∷ receive 4 1
    ∷ []

abbrev end_returns : Returns
end_returns =
    (1, fail "context canceled")
    ∷ (2, ok "Bearer t")
    ∷ (3, ok "Bearer t")
    ∷ (4, fail "auth request failed: status=503")
    ∷ []

runs :
    ((run decimal second events new_pool).1 ≡ end_returns)
    × ((run decimal second events new_pool).0.waiting ≡ 5 ∷ [])
    × ((run decimal second events new_pool).0.provider
        ≡ record { bearer = "Bearer t"; expires_at = 300000000005 })
unfolding program
runs = (refl, refl, refl)

run-Issues_example :
    All
      (λ r. ReturnsToken (λ t. Exists (Issues t) events) r.1)
      (run decimal second events new_pool).1
run-Issues_example = run-Issues decimal second events

-- A second before the token ends it is not returned any more.
covers :
    (get_bearer_token second 6 (run decimal second events new_pool).0.provider ≡ some "Bearer t")
    × (get_bearer_token second 299000000005 (run decimal second events new_pool).0.provider ≡ none)
unfolding program
covers = (refl, refl)

run-Covers_example : Exists (Covers "Bearer t" (6 + second)) events
run-Covers_example = run-Covers decimal second 6 events "Bearer t" covers.0
