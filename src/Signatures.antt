-- ===== src/Signatures.antt =====
-- pkg/adapter/signature_store.go: the bounded cache of thought signatures, by session. A time is a
-- count of nanoseconds. `sha256_hex` stands for `crypto/sha256` with `encoding/hex`.
pub mod Eviction
pub mod Entries
pub mod Cleanup
pub mod Bounds
pub mod Recall
mod Tests
use aadapter.Base.{
  ℕ, ◌-◌, ◌^◌, min, String, Bool, ◌||◌, Option, none, some, List, [], ◌∷◌, ltb, leb, ◌==◌, str_eq,
  if◌then◌else◌, length,
}
use aadapter.Base.Maps.{Map, get, put, delete}

pub record SignatureEntry : Type 0 where
  pub value : String
  pub updated_at : ℕ

pub record SessionSignatures : Type 0 where
  pub updated_at : ℕ
  pub entries : Map SignatureEntry

pub record SignatureStore : Type 0 where
  pub ttl : ℕ
  pub max_sessions : ℕ
  pub max_entries : ℕ
  pub sessions : Map SessionSignatures

abbrev pub new_signature_store : ℕ → ℕ → ℕ → SignatureStore
new_signature_store ttl max_sessions max_entries = record {
  ttl = ttl;
  max_sessions = max_sessions;
  max_entries = max_entries;
  sessions = [];
}

-- `now.Sub(t)` stops at the longest `time.Duration`; a negative one is never over the `ttl`.
unfoldable pub elapsed : ℕ → ℕ → ℕ
elapsed now t = min (now - t) (2 ^ 63 - 1)

unfoldable pub cleanup_sessions : ℕ → ℕ → Map SessionSignatures → Map SessionSignatures
cleanup_sessions ttl now [] = []
cleanup_sessions ttl now ((key, session) ∷ rest) =
    let kept = cleanup_sessions ttl now rest in
    if ltb ttl (elapsed now session.updated_at) then kept else (key, session) ∷ kept

unfoldable pub cleanup : ℕ → SignatureStore → SignatureStore
cleanup now s = record s { sessions = cleanup_sessions s.ttl now s.sessions }

-- The loop of `evictOldestSession` and `evictOldestSignature`, from the key and time found so far.
module _ {V : Type 0} (stamp : V → ℕ) where
  unfoldable pub oldest_from : String → ℕ → Map V → String
  oldest_from oldest_key oldest [] = oldest_key
  oldest_from oldest_key oldest ((key, v) ∷ rest) =
      let older = str_eq oldest_key "" || ltb (stamp v) oldest in
      oldest_from (if older then key else oldest_key) (if older then stamp v else oldest) rest

unfoldable pub evict_oldest_session : SignatureStore → SignatureStore
evict_oldest_session s = record s {
  sessions = delete (oldest_from (λ session. session.updated_at) "" 0 s.sessions) s.sessions;
}

unfoldable pub evict_oldest_signature : Map SignatureEntry → Map SignatureEntry
evict_oldest_signature entries =
    delete (oldest_from (λ entry. entry.updated_at) "" 0 entries) entries

-- Room for a key in the entries of a session: a key that is there needs none.
unfoldable pub make_room : ℕ → String → Map SignatureEntry → Map SignatureEntry
make_room max_entries key entries =
    if leb max_entries (length entries)
    then (elim (get key entries) [ some _ ↦ entries | none ↦ evict_oldest_signature entries ])
    else entries

-- One round of the loop of `remember`, and the loop.
unfoldable pub remember_entry : ℕ → ℕ → String → String → Map SignatureEntry → Map SignatureEntry
remember_entry max_entries now key value entries =
    if str_eq key "" || str_eq value ""
    then entries
    else put key (record { value = value; updated_at = now }) (make_room max_entries key entries)

unfoldable pub remember_entries : ℕ → ℕ → Map String → Map SignatureEntry → Map SignatureEntry
remember_entries max_entries now [] entries = entries
remember_entries max_entries now ((key, value) ∷ rest) entries =
    remember_entries max_entries now rest (remember_entry max_entries now key value entries)

unfoldable pub values : Map SignatureEntry → Map String
values [] = []
values ((key, entry) ∷ rest) = (key, entry.value) ∷ values rest

-- The entries of a session that may be missing, and the store with room for it.
abbrev pub entries_of : Option SessionSignatures → Map SignatureEntry
entries_of none = []
entries_of (some session) = session.entries

unfoldable pub open_session : String → SignatureStore → SignatureStore
open_session key s = elim (get key s.sessions) [
  | some _ ↦ s
  | none ↦ if leb s.max_sessions (length s.sessions) then evict_oldest_session s else s
]

-- The body of `remember` under the lock.
unfoldable pub remember_session : ℕ → String → Map String → SignatureStore → SignatureStore
remember_session now key signatures s =
    let cleaned = cleanup now s in
    let opened = open_session key cleaned in
    let session : SessionSignatures = record {
      updated_at = now;
      entries =
          remember_entries s.max_entries now signatures (entries_of (get key cleaned.sessions));
    } in
    record opened { sessions = put key session opened.sessions }

module _ (sha256_hex : String → String) where
  unfoldable pub signature_session_key : String → String
  signature_session_key session_id = if str_eq session_id "" then "" else sha256_hex session_id

  -- `none` is the nil map.
  unfoldable pub snapshot : ℕ → String → SignatureStore → SignatureStore × Option (Map String)
  snapshot now session_id s =
      let key = signature_session_key session_id in
      let s' = cleanup now s in
      if str_eq key "" then (s, none) else (
        s',
        elim (get key s'.sessions) [ none ↦ none | some session ↦ some (values session.entries) ],
      )

  unfoldable pub remember : ℕ → String → Map String → SignatureStore → SignatureStore
  remember now session_id signatures s =
      let key = signature_session_key session_id in
      if str_eq key "" || length signatures == 0 then s else remember_session now key signatures s
