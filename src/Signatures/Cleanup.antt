-- ===== src/Signatures/Cleanup.antt =====
-- What `cleanup` of pkg/adapter/signature_store.go leaves.
use aadapter.Base.{
  ℕ, ◌≤◌, String, ◌≡◌, refl, inl, inr, Bool-cases, none, some, [], ◌∷◌, arith, ltb, eq_iff, length,
  All, if◌then◌else◌,
}
use aadapter.Base.Maps.{Map, get, Distinct}
use aadapter.Signatures.{SessionSignatures, cleanup_sessions, elapsed}

-- The sessions that the time limit leaves.
module _ (ttl now : ℕ) where
  pub All-cleanup :
      (P : String × SessionSignatures → Type 0) (m : Map SessionSignatures)
      → All P m
      → All P (cleanup_sessions ttl now m)
  unfolding cleanup_sessions
  All-cleanup P [] a = tt
  All-cleanup P ((k, session) ∷ m) a =
      elim (Bool-cases (ltb ttl (elapsed now session.updated_at))) [
        | inl old ↦ rw old (All-cleanup P m a.1)
        | inr young ↦ rw young (a.0, All-cleanup P m a.1)
      ]

  pub length-cleanup-le :
      (m : Map SessionSignatures) → length (cleanup_sessions ttl now m) ≤ length m
  unfolding cleanup_sessions
  length-cleanup-le [] = omega arith
  length-cleanup-le ((k, session) ∷ m) = ground (arith, length-cleanup-le m)

  pub get-cleanup_none :
      (key : String) (m : Map SessionSignatures)
      → get key m ≡ none
      → get key (cleanup_sessions ttl now m) ≡ none
  unfolding cleanup_sessions get
  get-cleanup_none key [] h = refl
  get-cleanup_none key ((k, session) ∷ m) h = ground (arith, get-cleanup_none key m)

  pub cleanup-Distinct :
      (m : Map SessionSignatures) → Distinct m → Distinct (cleanup_sessions ttl now m)
  unfolding cleanup_sessions
  cleanup-Distinct [] d = tt
  cleanup-Distinct ((k, session) ∷ m) d =
      elim (Bool-cases (ltb ttl (elapsed now session.updated_at))) [
        | inl old ↦ rw old (cleanup-Distinct m d.1)
        | inr young ↦ rw young (get-cleanup_none k m d.0, cleanup-Distinct m d.1)
      ]

  -- A session is found exactly when it was there and its time has not run out.
  pub get-cleanup :
      (key : String) (m : Map SessionSignatures)
      → Distinct m
      → get key (cleanup_sessions ttl now m) ≡ (elim (get key m) [
        | none ↦ none
        | some session ↦ if ltb ttl (elapsed now session.updated_at) then none else some session
      ])
  unfolding cleanup_sessions get
  get-cleanup key [] d = refl
  get-cleanup key ((k, session) ∷ m) d =
      ground (arith, get-cleanup key m d.1, eq_iff k key, get-cleanup_none k m d.0)
