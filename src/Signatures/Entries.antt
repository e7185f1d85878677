-- ===== src/Signatures/Entries.antt =====
-- The entries of one session of pkg/adapter/signature_store.go: how many, and what holds of each.
use aadapter.Base.{
  ℕ, ◌≤◌, ◌<◌, String, ◌≢◌, ◌⊎◌, inl, inr, Bool-cases, Option-cases, none, [], ◌∷◌, arith, leb,
  eq_iff, str_eq, length, All, ◌||◌,
}
use aadapter.Base.Maps.{
  Map, get, put, Distinct, All-put, All-delete, put-Distinct, delete-Distinct, length-put_old,
  length-put_new,
}
use aadapter.Signatures.{
  SignatureEntry, evict_oldest_signature, make_room, remember_entry, remember_entries,
}
use aadapter.Signatures.Eviction.{NonemptyKeys, evict-oldest}

abbrev pub IsEntry : String × SignatureEntry → Type 0
IsEntry e = (e.0 ≢ "") × (e.1.value ≢ "")

pub record IsEntries (max_entries : ℕ) (entries : Map SignatureEntry) : Type 0 where
  pub entry : All IsEntry entries
  pub distinct : Distinct entries
  pub bounded : length entries ≤ max_entries

pub keys_of :
    {V : Type 0} (P : V → Type 0) (m : Map V) → All (λ e. (e.0 ≢ "") × P e.1) m → NonemptyKeys m
keys_of P [] a = tt
keys_of P (e ∷ m) a = (a.0.0, keys_of P m a.1)

evict-IsEntries :
    (max : ℕ) (entries : Map SignatureEntry)
    → 0 < length entries
    → IsEntries max entries
    → IsEntries max (evict_oldest_signature entries)
      × (length (evict_oldest_signature entries) < length entries)
unfolding evict_oldest_signature
evict-IsEntries max [] pos v = absurd (omega arith)
evict-IsEntries max ((k, e) ∷ m) pos v =
    let gone =
      evict-oldest (λ (e : SignatureEntry). e.updated_at) k e m
        (keys_of (λ e. e.value ≢ "") ((k, e) ∷ m) v.entry) v.distinct in
    (
      record {
        entry = All-delete IsEntry _ ((k, e) ∷ m) v.entry;
        distinct = delete-Distinct _ ((k, e) ∷ m) v.distinct;
        bounded = omega (arith, v.bounded);
      },
      gone,
    )

-- `make_room` keeps what holds of the entries, and a key that is new finds room.
make_room-IsEntries :
    (max : ℕ) (key : String) (entries : Map SignatureEntry)
    → 0 < max
    → IsEntries max entries
    → IsEntries max (make_room max key entries)
      × ((get key (make_room max key entries) ≢ none) ⊎ (length (make_room max key entries) < max))
unfolding make_room
make_room-IsEntries max key entries pos v = elim (Bool-cases (leb max (length entries))) [
  | inr small ↦ rw small (v, inr (ground arith))
  | inl big ↦ elim (Option-cases (get key entries)) [
    | inr (w, old) ↦ rw (big, old) (v, inl (λ e. cc))
    | inl new ↦
        let (v', gone) = evict-IsEntries max entries (ground arith) v in
        rw (big, new) (v', inr (omega (arith, v.bounded)))
  ]
]

put-IsEntries :
    (max now : ℕ) (key value : String) (m : Map SignatureEntry)
    → key ≢ ""
    → value ≢ ""
    → IsEntries max m
    → (get key m ≢ none) ⊎ (length m < max)
    → IsEntries max (put key (record { value = value; updated_at = now }) m)
put-IsEntries max now key value m k v h room =
    let entry : SignatureEntry = record { value = value; updated_at = now } in
    record {
      entry = All-put IsEntry key entry m (k, v) h.entry;
      distinct = put-Distinct key entry m h.distinct;
      bounded = elim (Option-cases (get key m)) [
        | inr (w, old) ↦ omega (arith, length-put_old key entry w m old, h.bounded)
        | inl new ↦ elim room [
          | inl there ↦ absurd (there new)
          | inr fits ↦ omega (arith, length-put_new key entry m new)
        ]
      ];
    }

pub remember_entry-IsEntries :
    (max now : ℕ) (key value : String) (m : Map SignatureEntry)
    → 0 < max
    → IsEntries max m
    → IsEntries max (remember_entry max now key value m)
unfolding remember_entry
remember_entry-IsEntries max now key value m pos h =
    elim (Bool-cases (str_eq key "" || str_eq value "")) [
      | inl skip ↦ rw skip h
      | inr store ↦
          let (h', room) = make_room-IsEntries max key m pos h in
          rw store (
            put-IsEntries max now key value _ (ground (arith, eq_iff key ""))
              (ground (arith, eq_iff value "")) h' room)
    ]

pub remember_entries-IsEntries :
    (max now : ℕ) (signatures : Map String) (m : Map SignatureEntry)
    → 0 < max
    → IsEntries max m
    → IsEntries max (remember_entries max now signatures m)
unfolding remember_entries
remember_entries-IsEntries max now [] m pos h = h
remember_entries-IsEntries max now ((key, value) ∷ rest) m pos h =
    remember_entries-IsEntries max now rest _ pos
      (remember_entry-IsEntries max now key value m pos h)
