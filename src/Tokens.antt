-- ===== src/Tokens.antt =====
-- pkg/adapter/token_provider.go: the bearer token, its refresh, and the calls that wait for one. A
-- time is a number of nanoseconds since Go's zero time, more than 2 ^ 63 of them ago. What holds the
-- mutex is one event. Nothing is fixed of how singleflight shares refreshes: which of those that are
-- asked for are started, when one ends, and which result a call that waits is given is what the list
-- of events says. The request to the auth server has no part in the state but its answer, which
-- comes in at the end of a refresh.
pub mod Laws
pub mod Calls
pub mod Fresh
mod Tests
use aadapter.Base.{
  ℕ, zero, suc, ◌+◌, ◌-◌, ◌*◌, ◌^◌, ◌%◌, String, ◌++ₛ◌, Bool, true, false, not, ◌&&◌, ◌||◌, Option,
  none, some, List, [], ◌∷◌, ◌++◌, ltb, leb, if◌then◌else◌, str_eq, ◌==◌,
}
use aadapter.Base.Outcome.{Outcome, ok, fail, ◌>>=◌, ◌>>◌}

-- The fields of `tokenProvider` that change.
pub record TokenProvider : Type 0 where
  pub bearer : String
  pub expires_at : ℕ

abbrev pub new_token_provider : TokenProvider
new_token_provider = record { bearer = ""; expires_at = 0 }

-- The fields of a decoded answer that are used; a lifetime that is not positive is 0.
pub record AuthResponse : Type 0 where
  pub id_token : String
  pub expires_in : ℕ

-- What the auth server answers: its status, and what is made of the body when it is read.
pub record Answer : Type 0 where
  pub status : ℕ
  pub body : Outcome AuthResponse

abbrev pub second : ℕ
second = 1000000000

unfoldable pub lifetime : AuthResponse → ℕ
lifetime parsed = if parsed.expires_in == 0 then 300 else parsed.expires_in

-- `now.Add(d)`, for a product `d` that an `int64` holds modulo 2 ^ 64
unfoldable pub add_duration : ℕ → ℕ → ℕ
add_duration now d = let w = d % 2 ^ 64 in if ltb w (2 ^ 63) then now + w else now - (2 ^ 64 - w)

unfoldable pub check_id_token : AuthResponse → Outcome (Unit {0})
check_id_token parsed =
    if str_eq parsed.id_token "" then fail "auth response missing id_token" else ok tt

unfoldable pub is_fresh : ℕ → ℕ → TokenProvider → Bool
is_fresh skew now p = not (str_eq p.bearer "") && ltb (now + skew) p.expires_at

-- `none` goes on to `refreshSingleflight`.
unfoldable pub get_bearer_token : ℕ → ℕ → TokenProvider → Option String
get_bearer_token skew now p = if is_fresh skew now p then some p.bearer else none

unfoldable pub refresh_after_rejection : String → TokenProvider → Option String
refresh_after_rejection rejected p =
    if not (str_eq p.bearer "") && not (str_eq p.bearer rejected) then some p.bearer else none

-- The provider, the calls that found no token and have yet to ask for a refresh, those that wait for
-- what they asked for, and the results of the refreshes so far.
pub record Pool : Type 0 where
  pub provider : TokenProvider
  pub asking : List ℕ
  pub waiting : List ℕ
  pub results : List (Outcome String)

abbrev pub new_pool : Pool
new_pool = record { provider = new_token_provider; asking = []; waiting = []; results = [] }

-- A call by its number reads the provider; asks for a refresh; is given the n-th result; or finds its
-- context at its end, with its error. A refresh that was started ends.
pub data Event : Type 0 where
  get_call : ℕ → ℕ → Event
  reject_call : ℕ → String → Event
  ask : ℕ → Event
  receive : ℕ → ℕ → Event
  cancel : ℕ → String → Event
  finish : ℕ → Outcome Answer → Event

-- What a call returns, by its number.
abbrev pub Returns : Type 0
Returns = List (ℕ × Outcome String)

abbrev pub all_return : Outcome String → List ℕ → Returns
all_return result [] = []
all_return result (id ∷ ids) = (id, result) ∷ all_return result ids

abbrev pub without : ℕ → List ℕ → List ℕ
without id [] = []
without id (i ∷ ids) = if i == id then without id ids else i ∷ without id ids

abbrev pub only : ℕ → List ℕ → List ℕ
only id [] = []
only id (i ∷ ids) = if i == id then i ∷ only id ids else only id ids

-- The n-th of a list.
abbrev pub nth {ℓ} : {A : Type ℓ} → ℕ → List A → Option A
nth n [] = none
nth zero (a ∷ l) = some a
nth (suc n) (a ∷ l) = nth n l

-- A call that finds a token returns it; another goes on to `refreshSingleflight`.
unfoldable pub check_bearer : ℕ → Option String → Pool → Pool × Returns
check_bearer id (some token) pool = (pool, (id, ok token) ∷ [])
check_bearer id none pool = (record pool { asking = id ∷ pool.asking }, [])

-- The `select` of the calls with a number that wait: what they get is what they return.
unfoldable pub select_result : ℕ → Outcome String → Pool → Pool × Returns
select_result id result pool =
    (record pool { waiting = without id pool.waiting }, all_return result (only id pool.waiting))

module _ (decimal : ℕ → String) where
  unfoldable pub check_status : ℕ → Outcome (Unit {0})
  check_status status =
      if ltb status 200 || leb 300 status
      then fail ("auth request failed: status=" ++ₛ decimal status)
      else ok tt

  -- `refresh`, whose answer is decoded at the time `now`: the provider after it, and the token.
  unfoldable pub refresh : ℕ → Outcome Answer → Outcome (TokenProvider × String)
  refresh now answered = do
    answer ← answered
    check_status answer.status
    parsed ← answer.body
    check_id_token parsed
    let token = "Bearer " ++ₛ parsed.id_token
    ok (record { bearer = token; expires_at = add_duration now (lifetime parsed * second) }, token)

  -- A refresh that fails leaves the provider as it is.
  unfoldable pub refreshed : ℕ → Outcome Answer → TokenProvider → TokenProvider × Outcome String
  refreshed now answered p = elim (refresh now answered) [
    | fail message ↦ (p, fail message)
    | ok (p', token) ↦ (p', ok token)
  ]

  unfoldable pub step : ℕ → Event → Pool → Pool × Returns
  step skew (get_call id now) pool = check_bearer id (get_bearer_token skew now pool.provider) pool
  step skew (reject_call id rejected) pool =
      check_bearer id (refresh_after_rejection rejected pool.provider) pool
  step skew (ask id) pool = (
    record pool { asking = without id pool.asking; waiting = only id pool.asking ++ pool.waiting },
    [],
  )
  step skew (receive id n) pool = elim (nth n pool.results) [
    | some result ↦ select_result id result pool
    | none ↦ (pool, [])
  ]
  step skew (cancel id message) pool = select_result id (fail message) pool
  step skew (finish now answered) pool =
      let (p', result) = refreshed now answered pool.provider in
      (record pool { provider = p'; results = pool.results ++ result ∷ [] }, [])

  -- The pool after a list of events, and all that the calls returned.
  unfoldable pub run : ℕ → List Event → Pool → Pool × Returns
  run skew [] pool = (pool, [])
  run skew (e ∷ es) pool =
      let (pool', returns) = step skew e pool in
      let (pool'', more) = run skew es pool' in (pool'', returns ++ more)
