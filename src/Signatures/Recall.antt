-- ===== src/Signatures/Recall.antt =====
-- What pkg/adapter/signature_store.go gives back: `remember`, then `snapshot`.
use aadapter.Base.{
  ℕ, ◌≤◌, ◌<◌, String, ◌≡◌, ◌≢◌, refl, ◌⊎◌, inl, inr, Bool-cases, Option, none, some, [], ◌∷◌, ◌++◌,
  arith, ltb, eq_iff, str_eq, length, ◌==◌, ◌∙◌, length-append, ◌∙◌, ◌||◌, if◌then◌else◌,
}
use aadapter.Base.Maps.{Map, get, get-put, get-delete}
use aadapter.Signatures.{
  SignatureEntry, SessionSignatures, SignatureStore, cleanup, elapsed, oldest_from,
  evict_oldest_session, make_room, remember_entry, remember_entries, open_session, entries_of,
  snapshot, remember, remember_session, remember_session, remember_session, values,
  signature_session_key,
}
use aadapter.Signatures.Cleanup.{get-cleanup}
use aadapter.Signatures.Bounds.{
  IsValid, remember-IsValid, remember_session-IsValid, open_session_limits,
}

-- What a client finds in a session that may be missing or over its time.
abbrev pub live : ℕ → ℕ → Option SessionSignatures → Option (Map String)
live ttl now none = none
live ttl now (some session) =
    if ltb ttl (elapsed now session.updated_at) then none else some (values session.entries)

get-values :
    (k : String) (m : Map SignatureEntry)
    → get k (values m) ≡ (elim (get k m) [ none ↦ none | some entry ↦ some entry.value ])
unfolding get values
get-values k [] = refl
get-values k ((j, entry) ∷ m) = ground (arith, get-values k m)

remember_entries-append :
    (max now : ℕ) (xs ys : Map String) (m : Map SignatureEntry)
    → remember_entries max now (xs ++ ys) m
      ≡ remember_entries max now ys (remember_entries max now xs m)
unfolding remember_entries
remember_entries-append max now [] ys m = refl
remember_entries-append max now ((k, v) ∷ xs) ys m = remember_entries-append max now xs ys _

get-remember_entry :
    (max now : ℕ) (k v : String) (m : Map SignatureEntry)
    → k ≢ ""
    → v ≢ ""
    → get k (remember_entry max now k v m) ≡ some (record { value = v; updated_at = now })
unfolding remember_entry
get-remember_entry max now k v m kne vne = ground (
  arith,
  eq_iff k "",
  eq_iff v "",
  eq_iff k k,
  get-put k k (record { value = v; updated_at = now }) (make_room max k m),
)

get-open_session :
    (key j : String) (s : SignatureStore)
    → (get j (open_session key s).sessions ≡ get j s.sessions)
      ⊎ (get j (open_session key s).sessions ≡ none)
unfolding open_session evict_oldest_session
get-open_session key j s =
    let gone = oldest_from (λ (x : SessionSignatures). x.updated_at) "" 0 s.sessions in
    ground (arith, get-delete gone j s.sessions)

-- The sessions after a write: the session written to, and any other.
get-remember_session_self :
    (now : ℕ) (key : String) (signatures : Map String) (s : SignatureStore)
    → (m : Map SignatureEntry) × (get key (remember_session now key signatures s).sessions
        ≡ some (record {
          updated_at = now;
          entries = remember_entries s.max_entries now signatures m;
        }))
unfolding remember_session
get-remember_session_self now key signatures s = (
  entries_of (get key (cleanup now s).sessions),
  ground (
    arith,
    eq_iff key key,
    get-put key key
        (record {
          updated_at = now;
          entries =
              remember_entries s.max_entries now signatures
                (entries_of (get key (cleanup now s).sessions));
        })
        (open_session key (cleanup now s)).sessions,
  ),
)

ttl-remember_session :
    (now : ℕ) (key : String) (signatures : Map String) (s : SignatureStore)
    → (remember_session now key signatures s).ttl ≡ s.ttl
unfolding remember_session cleanup
ttl-remember_session now key signatures s = (open_session_limits key (cleanup now s)).0

get-remember_session_ne :
    (now : ℕ) (key j : String) (signatures : Map String) (s : SignatureStore)
    → key ≢ j
    → IsValid s
    → (get j (remember_session now key signatures s).sessions ≡ none)
      ⊎ (get j (remember_session now key signatures s).sessions ≡ get j s.sessions)
unfolding remember_session cleanup
get-remember_session_ne now key j signatures s ne v =
    let cleaned = cleanup now s in
    let written : SessionSignatures = record {
      updated_at = now;
      entries =
          remember_entries s.max_entries now signatures (entries_of (get key cleaned.sessions));
    } in
    ground (
      arith,
      eq_iff key j,
      get-put key j written (open_session key cleaned).sessions,
      get-open_session key j cleaned,
      get-cleanup s.ttl now j s.sessions v.distinct,
    )

module _ (sha256_hex : String → String) where
  -- A snapshot is what the session's entries hold at that time: nothing for the empty session
  -- id, for a session that is not there, and for one whose last write is more than the `ttl` ago.
  pub snapshot-live :
      (now : ℕ) (id : String) (s : SignatureStore)
      → IsValid s
      → (snapshot sha256_hex now id s).1 ≡ (
          if str_eq (signature_session_key sha256_hex id) ""
          then none
          else live s.ttl now (get (signature_session_key sha256_hex id) s.sessions))
  unfolding snapshot cleanup
  snapshot-live now id s v =
      ground
        (arith, get-cleanup s.ttl now (signature_session_key sha256_hex id) s.sessions v.distinct)

  session_key-ne :
      (id : String) → id ≢ "" → sha256_hex id ≢ "" → signature_session_key sha256_hex id ≢ ""
  unfolding signature_session_key
  session_key-ne id ine hne = ground (arith, eq_iff id "")

  remember-stores :
      (now : ℕ) (id : String) (signatures : Map String) (s : SignatureStore)
      → signature_session_key sha256_hex id ≢ ""
      → 0 < length signatures
      → remember sha256_hex now id signatures s
        ≡ remember_session now (signature_session_key sha256_hex id) signatures s
  unfolding remember
  remember-stores now id signatures s ne pos =
      ground (arith, eq_iff (signature_session_key sha256_hex id) "")

  -- What `remember` stores last in a session is what `snapshot` of that session gives back until
  -- the `ttl` has passed, if nothing else was remembered in between, however full the cache was:
  -- limits are positive, the session id, the key and the signature are not empty, and `sha256_hex`
  -- of the id is not empty.
  pub snapshot-remember :
      (now later : ℕ) (id : String) (before : Map String) (k v : String) (s : SignatureStore)
      → id ≢ ""
      → sha256_hex id ≢ ""
      → k ≢ ""
      → v ≢ ""
      → 0 < s.max_sessions
      → 0 < s.max_entries
      → IsValid s
      → elapsed later now ≤ s.ttl
      → (m : Map String) × ((snapshot sha256_hex later id
            (remember sha256_hex now id (before ++ (k, v) ∷ []) s)).1
          ≡ some m)
        × (get k m ≡ some v)
  snapshot-remember now later id before k v s ine hne kne vne ps pe valid young =
      let key = signature_session_key sha256_hex id in
      let ne = session_key-ne id ine hne in
      let signatures : Map String = before ++ (k, v) ∷ [] in
      let pos : 0 < length signatures = omega (arith, length-append {0} before ((k, v) ∷ [])) in
      let stores = remember-stores now id signatures s ne pos in
      let (m, there) = get-remember_session_self now key signatures s in
      let max = s.max_entries in
      (
        values (remember_entries max now signatures m),
        snapshot-live later id (remember sha256_hex now id signatures s)
              (remember-IsValid sha256_hex now id signatures s ps pe valid)
            ∙ rw (stores, there, ttl-remember_session) (ground (arith, eq_iff key "")),
        rw (get-values, remember_entries-append)
            (unfold remember_entries in
              rw (get-remember_entry max now k v (remember_entries max now before m) kne vne)),
      )

  -- Writing to one session never shows in another, whose key differs: a later snapshot of the
  -- other is as if nothing had been written, or nothing if the other was evicted or ran out.
  pub snapshot-remember_ne :
      (now later : ℕ) (id other : String) (signatures : Map String) (s : SignatureStore)
      → signature_session_key sha256_hex id ≢ signature_session_key sha256_hex other
      → 0 < s.max_sessions
      → 0 < s.max_entries
      → IsValid s
      → ((snapshot sha256_hex later other (remember sha256_hex now id signatures s)).1 ≡ none)
        ⊎ ((snapshot sha256_hex later other (remember sha256_hex now id signatures s)).1
            ≡ (snapshot sha256_hex later other s).1)
  unfolding remember
  snapshot-remember_ne now later id other signatures s ne ps pe v =
      let key = signature_session_key sha256_hex id in
      let j = signature_session_key sha256_hex other in
      let s' = remember_session now key signatures s in
      elim (Bool-cases (str_eq key "" || length signatures == 0)) [
        | inl skip ↦ rw skip (inr refl)
        | inr store ↦ rw store (
            rw
              (
                snapshot-live later other s v,
                snapshot-live later other s' (
                    remember_session-IsValid now key signatures s (ground (arith, eq_iff key "")) ps
                      pe v),
                ttl-remember_session,
              )
              (ground (arith, get-remember_session_ne now key j signatures s ne v)))
      ]
