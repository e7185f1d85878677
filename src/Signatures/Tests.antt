-- ===== src/Signatures/Tests.antt =====
-- Runs of the cache of pkg/adapter/signature_store.go at concrete inputs.
use aadapter.Base.{String, ◌++ₛ◌, ◌≡◌, refl, ◌⊎◌, none, some, List, [], ◌∷◌, arith, eq_iff}
use aadapter.Base.Maps.{Map, get, put, delete}
use aadapter.Signatures.{
  SignatureStore, new_signature_store, elapsed, cleanup_sessions, cleanup, oldest_from,
  evict_oldest_session, evict_oldest_signature, make_room, remember_entry, remember_entries, values,
  open_session, remember_session, signature_session_key, snapshot, remember,
}
use aadapter.Signatures.Bounds.{IsValid, Call, snapshot_call, remember_call, run, run-IsValid}
use aadapter.Signatures.Recall.{live, snapshot-live, snapshot-remember, snapshot-remember_ne}

program : Unit {0}
unfolding get put delete elapsed cleanup_sessions cleanup oldest_from evict_oldest_session
    evict_oldest_signature make_room remember_entry remember_entries values open_session
    remember_session signature_session_key snapshot remember run
program = tt

-- A digest for the tests.
abbrev tag : String → String
tag s = "h" ++ₛ s

abbrev empty : SignatureStore
empty = new_signature_store 100 2 2

abbrev calls : List Call
calls =
    remember_call 1 "a" (("k", "1") ∷ ("l", "2") ∷ [])
    ∷ remember_call 2 "b" (("k", "3") ∷ [])
    ∷ remember_call 3 "a" (("m", "4") ∷ ("n", "") ∷ [])
    ∷ snapshot_call 4 "b"
    ∷ []

abbrev two : SignatureStore
two = record empty {
  sessions =
      (
        "ha",
        record {
          updated_at = 3;
          entries =
              ("l", record { value = "2"; updated_at = 1 })
              ∷ ("m", record { value = "4"; updated_at = 3 })
              ∷ [];
        },
      )
      ∷ (
        "hb",
        record { updated_at = 2; entries = ("k", record { value = "3"; updated_at = 2 }) ∷ [] },
      )
      ∷ [];
}

-- The third entry of a session pushes its oldest out, and an empty signature is skipped.
run-calls : run tag calls empty ≡ two
unfolding program
run-calls = refl

-- A third session pushes the oldest session out, and time removes the rest.
evicts :
    ((snapshot tag 5 "b" (remember tag 4 "c" (("k", "5") ∷ []) two)).1 ≡ none)
    × ((snapshot tag 103 "a" two).1 ≡ some (("l", "2") ∷ ("m", "4") ∷ []))
    × ((snapshot tag 104 "a" two).1 ≡ none)
unfolding program
evicts = (refl, refl, refl)

run-IsValid_example :
    IsValid (run tag calls empty)
    × ((run tag calls empty).max_sessions ≡ 2)
    × ((run tag calls empty).max_entries ≡ 2)
run-IsValid_example = run-IsValid tag 100 2 2 calls (omega arith) (omega arith)

two-IsValid : IsValid two
two-IsValid = rw (← run-calls) run-IsValid_example.0

snapshot-live_example :
    (snapshot tag 103 "a" two).1
    ≡ live 100 103 (
        some (record {
          updated_at = 3;
          entries =
              ("l", record { value = "2"; updated_at = 1 })
              ∷ ("m", record { value = "4"; updated_at = 3 })
              ∷ [];
        }))
unfolding program
snapshot-live_example = snapshot-live tag 103 "a" two two-IsValid

snapshot-remember_example :
    (m : Map String) × ((snapshot tag 90 "c"
        (remember tag 4 "c" (("j", "0") ∷ ("k", "5") ∷ []) two)).1
      ≡ some m)
    × (get "k" m ≡ some "5")
unfolding elapsed
snapshot-remember_example =
    snapshot-remember tag 4 90 "c" (("j", "0") ∷ []) "k" "5" two (ground (arith, eq_iff "c" ""))
      (ground (arith, eq_iff "hc" "")) (ground (arith, eq_iff "k" ""))
      (ground (arith, eq_iff "5" "")) (omega arith) (omega arith) two-IsValid (omega arith)

snapshot-remember_ne_example :
    ((snapshot tag 5 "b" (remember tag 4 "c" (("k", "5") ∷ []) two)).1 ≡ none)
    ⊎ ((snapshot tag 5 "b" (remember tag 4 "c" (("k", "5") ∷ []) two)).1
        ≡ (snapshot tag 5 "b" two).1)
unfolding signature_session_key
snapshot-remember_ne_example =
    snapshot-remember_ne tag 4 5 "c" "b" (("k", "5") ∷ []) two (ground (arith, eq_iff "hc" "hb"))
      (omega arith) (omega arith) two-IsValid
