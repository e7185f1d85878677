-- ===== src/Tokens/Calls.antt =====
-- What becomes of the calls that wait for a refresh in pkg/adapter/token_provider.go.
use aadapter.Base.{ℕ, ◌+◌, ◌≡◌, List, [], ◌∷◌, if◌then◌else◌, ◌==◌}
use aadapter.Base.Outcome.{Outcome}
use aadapter.Tokens.{Pool, Event, get_call, reject_call, Returns}

-- How often a call is in a list of calls, makes a list of events, and has returned.
abbrev pub count : ℕ → List ℕ → ℕ
count id [] = 0
count id (i ∷ ids) = (if i == id then 1 else 0) + count id ids

abbrev pub called : ℕ → List Event → ℕ
called id [] = 0
called id (get_call i now ∷ es) = (if i == id then 1 else 0) + called id es
called id (reject_call i rejected ∷ es) = (if i == id then 1 else 0) + called id es
called id (_ ∷ es) = called id es

abbrev pub returned : ℕ → Returns → ℕ
returned id [] = 0
returned id ((i, _) ∷ rs) = (if i == id then 1 else 0) + returned id rs

-- The calls that are under way.
abbrev pub pending : ℕ → Pool → ℕ
pending id pool = count id pool.asking + count id pool.waiting

abbrev Balanced : ℕ → Event → Pool → Pool × Returns → Type 0
Balanced id e pool (pool', rs) =
    called id (e ∷ []) + pending id pool ≡ returned id rs + pending id pool'
