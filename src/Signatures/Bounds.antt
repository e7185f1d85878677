-- ===== src/Signatures/Bounds.antt =====
-- The limits of pkg/adapter/signature_store.go: how much the cache holds after each operation.
use aadapter.Base.{
  ℕ, ◌≤◌, ◌<◌, String, ◌≡◌, ◌≢◌, refl, ◌⊎◌, inl, inr, Bool-cases, Option-cases, none, List, [], ◌∷◌,
  arith, leb, eq_iff, str_eq, length, All, ◌==◌, ◌∙◌, ◌||◌,
}
use aadapter.Base.Maps.{
  Map, get, put, delete, Distinct, All-put, All-delete, All-get, put-Distinct, delete-Distinct,
  length-put_old, length-put_new,
}
use aadapter.Signatures.{
  SessionSignatures, SignatureStore, new_signature_store, cleanup, oldest_from,
  evict_oldest_session, open_session, entries_of, snapshot, remember, remember_session,
  remember_session, signature_session_key,
}
use aadapter.Signatures.Eviction.{evict-oldest}
use aadapter.Signatures.Entries.{IsEntries, keys_of, remember_entries-IsEntries}
use aadapter.Signatures.Cleanup.{All-cleanup, length-cleanup-le, cleanup-Distinct}

abbrev pub IsSession : ℕ → String × SessionSignatures → Type 0
IsSession max_entries e = (e.0 ≢ "") × IsEntries max_entries e.1.entries

pub record IsValid (s : SignatureStore) : Type 0 where
  pub session : All (IsSession s.max_entries) s.sessions
  pub distinct : Distinct s.sessions
  pub bounded : length s.sessions ≤ s.max_sessions

pub cleanup-IsValid : (now : ℕ) (s : SignatureStore) → IsValid s → IsValid (cleanup now s)
unfolding cleanup
cleanup-IsValid now s v = record {
  session = All-cleanup s.ttl now (IsSession s.max_entries) s.sessions v.session;
  distinct = cleanup-Distinct s.ttl now s.sessions v.distinct;
  bounded = omega (arith, length-cleanup-le s.ttl now s.sessions, v.bounded);
}

evict_session-fits :
    (max : ℕ) (m : Map SessionSignatures)
    → 0 < length m
    → All (IsSession max) m
    → Distinct m
    → length (delete (oldest_from (λ (x : SessionSignatures). x.updated_at) "" 0 m) m) < length m
evict_session-fits max [] pos a d = absurd (omega arith)
evict_session-fits max ((k, session) ∷ m) pos a d =
    evict-oldest (λ (x : SessionSignatures). x.updated_at) k session m
      (keys_of (λ x. IsEntries max x.entries) ((k, session) ∷ m) a) d

evict_session-IsValid :
    (s : SignatureStore)
    → 0 < length s.sessions
    → IsValid s
    → IsValid (evict_oldest_session s)
      × (length (evict_oldest_session s).sessions < length s.sessions)
unfolding evict_oldest_session
evict_session-IsValid s pos v =
    let gone = evict_session-fits s.max_entries s.sessions pos v.session v.distinct in
    (
      record {
        session = All-delete (IsSession s.max_entries) _ s.sessions v.session;
        distinct = delete-Distinct _ s.sessions v.distinct;
        bounded = omega (arith, v.bounded);
      },
      gone,
    )

-- A new session finds room.
open_session-IsValid :
    (key : String) (s : SignatureStore)
    → 0 < s.max_sessions
    → IsValid s
    → IsValid (open_session key s)
      × ((get key (open_session key s).sessions ≢ none)
          ⊎ (length (open_session key s).sessions < s.max_sessions))
unfolding open_session
open_session-IsValid key s pos v = elim (Option-cases (get key s.sessions)) [
  | inr (w, old) ↦ rw (old, open_session) (v, inl (λ e. cc))
  | inl new ↦ elim (Bool-cases (leb s.max_sessions (length s.sessions))) [
    | inr small ↦ rw (new, small, open_session) (v, inr (ground arith))
    | inl big ↦
        let (v', gone) = evict_session-IsValid s (ground arith) v in
        rw (new, big, open_session) (v', inr (omega (arith, v.bounded)))
  ]
]

-- The limits are set once.
pub open_session_limits :
    (key : String) (s : SignatureStore)
    → ((open_session key s).ttl ≡ s.ttl)
      × ((open_session key s).max_sessions ≡ s.max_sessions)
      × ((open_session key s).max_entries ≡ s.max_entries)
unfolding open_session evict_oldest_session
open_session_limits key s = ground arith

entries_of-IsEntries :
    (max : ℕ) (key : String) (m : Map SessionSignatures)
    → All (IsSession max) m
    → IsEntries max (entries_of (get key m))
entries_of-IsEntries max key m a = elim (Option-cases (get key m)) [
  | inl missing ↦ rw missing (record { entry = tt; distinct = tt; bounded = omega arith })
  | inr (session, there) ↦ rw there (All-get (IsSession max) key session m a there).1
]

-- The store with a session written to it.
put-IsValid :
    (key : String) (session : SessionSignatures) (s : SignatureStore)
    → key ≢ ""
    → IsEntries s.max_entries session.entries
    → IsValid s
    → (get key s.sessions ≢ none) ⊎ (length s.sessions < s.max_sessions)
    → IsValid (record s { sessions = put key session s.sessions })
put-IsValid key session s k e v room = record {
  session = All-put (IsSession s.max_entries) key session s.sessions (k, e) v.session;
  distinct = put-Distinct key session s.sessions v.distinct;
  bounded = elim (Option-cases (get key s.sessions)) [
    | inr (w, old) ↦ omega (arith, length-put_old key session w s.sessions old, v.bounded)
    | inl new ↦ elim room [
      | inl there ↦ absurd (there new)
      | inr fits ↦ omega (arith, length-put_new key session s.sessions new)
    ]
  ];
}

pub remember_session-IsValid :
    (now : ℕ) (key : String) (signatures : Map String) (s : SignatureStore)
    → key ≢ ""
    → 0 < s.max_sessions
    → 0 < s.max_entries
    → IsValid s
    → IsValid (remember_session now key signatures s)
unfolding remember_session cleanup
remember_session-IsValid now key signatures s ne ps pe v =
    let cleaned = cleanup now s in
    let valid = cleanup-IsValid now s v in
    let (opened, room) = open_session-IsValid key cleaned ps valid in
    let (_, sessions, entries) = open_session_limits key cleaned in
    let before = entries_of-IsEntries s.max_entries key cleaned.sessions valid.session in
    put-IsValid key _ (open_session key cleaned) ne
      (rw entries (remember_entries-IsEntries s.max_entries now signatures _ pe before)) opened
      (elim room [ inl there ↦ inl there | inr fits ↦ inr (omega (arith, fits, sessions)) ])

-- The operations of the store, with the times at which they are called.
pub data Call : Type 0 where
  snapshot_call : ℕ → String → Call
  remember_call : ℕ → String → Map String → Call

module _ (sha256_hex : String → String) where
  unfoldable pub run : List Call → SignatureStore → SignatureStore
  run [] s = s
  run (snapshot_call now id ∷ calls) s = run calls (snapshot sha256_hex now id s).0
  run (remember_call now id signatures ∷ calls) s =
      run calls (remember sha256_hex now id signatures s)

  pub remember-IsValid :
      (now : ℕ) (id : String) (signatures : Map String) (s : SignatureStore)
      → 0 < s.max_sessions
      → 0 < s.max_entries
      → IsValid s
      → IsValid (remember sha256_hex now id signatures s)
  unfolding remember
  remember-IsValid now id signatures s ps pe v =
      let key = signature_session_key sha256_hex id in
      elim (Bool-cases (str_eq key "" || length signatures == 0)) [
        | inl skip ↦ rw skip v
        | inr store ↦
            rw store (
              remember_session-IsValid now key signatures s (ground (arith, eq_iff key "")) ps pe v)
      ]

  snapshot-IsValid :
      (now : ℕ) (id : String) (s : SignatureStore)
      → IsValid s
      → IsValid (snapshot sha256_hex now id s).0
  unfolding snapshot
  snapshot-IsValid now id s v =
      elim (Bool-cases (str_eq (signature_session_key sha256_hex id) "")) [
        | inl skip ↦ rw skip v
        | inr clean ↦ rw clean (cleanup-IsValid now s v)
      ]

  remember_limits :
      (now : ℕ) (id : String) (signatures : Map String) (s : SignatureStore)
      → ((remember sha256_hex now id signatures s).max_sessions ≡ s.max_sessions)
        × ((remember sha256_hex now id signatures s).max_entries ≡ s.max_entries)
  unfolding remember remember_session cleanup
  remember_limits now id signatures s =
      ground (arith, open_session_limits (signature_session_key sha256_hex id) (cleanup now s))

  snapshot_limits :
      (now : ℕ) (id : String) (s : SignatureStore)
      → ((snapshot sha256_hex now id s).0.max_sessions ≡ s.max_sessions)
        × ((snapshot sha256_hex now id s).0.max_entries ≡ s.max_entries)
  unfolding snapshot cleanup
  snapshot_limits now id s = ground arith

  run_bounds :
      (calls : List Call) (s : SignatureStore) (sessions entries : ℕ)
      → s.max_sessions ≡ sessions
      → s.max_entries ≡ entries
      → 0 < sessions
      → 0 < entries
      → IsValid s
      → IsValid (run calls s)
        × ((run calls s).max_sessions ≡ sessions)
        × ((run calls s).max_entries ≡ entries)
  unfolding run
  run_bounds [] s a b es ee pa pb v = (v, es, ee)
  run_bounds (snapshot_call now id ∷ calls) s a b es ee pa pb v =
      let (sessions, entries) = snapshot_limits now id s in
      run_bounds calls _ a b (sessions ∙ es) (entries ∙ ee) pa pb (snapshot-IsValid now id s v)
  run_bounds (remember_call now id signatures ∷ calls) s a b es ee pa pb v =
      let (sessions, entries) = remember_limits now id signatures s in
      run_bounds calls _ a b (sessions ∙ es) (entries ∙ ee) pa pb
        (remember-IsValid now id signatures s (omega arith) (omega arith) v)

  -- A cache made with positive limits stays within them whatever calls are made and at whatever
  -- times: never more sessions than `max_sessions`, in no session more entries than
  -- `max_entries`, no key twice, and no empty session key, entry key or signature.
  pub run-IsValid :
      (ttl max_sessions max_entries : ℕ) (calls : List Call)
      → 0 < max_sessions
      → 0 < max_entries
      → IsValid (run calls (new_signature_store ttl max_sessions max_entries))
        × ((run calls (new_signature_store ttl max_sessions max_entries)).max_sessions
            ≡ max_sessions)
        × ((run calls (new_signature_store ttl max_sessions max_entries)).max_entries ≡ max_entries)
  run-IsValid ttl a b calls pa pb =
      run_bounds calls (new_signature_store ttl a b) a b refl refl pa pb
        (record { session = tt; distinct = tt; bounded = omega arith })
