-- ===== src/Signatures/Eviction.antt =====
-- What `evictOldestSession` and `evictOldestSignature` of pkg/adapter/signature_store.go remove.
use aadapter.Base.{
  ℕ, ◌≤◌, ◌<◌, String, ◌≡◌, ◌≢◌, refl, ◌⊎◌, inl, inr, Bool-cases, none, some, [], ◌∷◌, arith, ltb,
  ltb→lt, eq_iff, str_eq, length, All,
}
use aadapter.Base.Maps.{Map, get, delete, Distinct, length-delete-lt}
use aadapter.Signatures.{oldest_from}

abbrev pub NonemptyKeys : {V : Type 0} → Map V → Type 0
NonemptyKeys = All (λ e. e.0 ≢ "")

module _ {V : Type 0} (stamp : V → ℕ) where
  -- `k` has the least time among an entry found before, `key` at `t`, and the entries of `m`.
  pub record IsOldest (key : String) (t : ℕ) (m : Map V) (k : String) : Type 0 where
    pub time : ℕ
    pub found : ((k ≡ key) × (time ≡ t)) ⊎ ((v : V) × (get k m ≡ some v) × (time ≡ stamp v))
    pub before : time ≤ t
    pub least : (j : String) (w : V) → get j m ≡ some w → time ≤ stamp w

  IsOldest-older :
      (key k r : String) (t : ℕ) (v : V) (m : Map V)
      → stamp v < t
      → get k m ≡ none
      → IsOldest k (stamp v) m r
      → IsOldest key t ((k, v) ∷ m) r
  unfolding get
  IsOldest-older key k r t v m older fresh o = record {
    time = o.time;
    found = elim o.found [
      | inl (here, at) ↦ inr (v, ground (arith, eq_iff k r), at)
      | inr (w, there, at) ↦ inr (w, ground (arith, eq_iff k r), at)
    ];
    before = omega (arith, o.before);
    least = λ j w h. ground (arith, eq_iff k j, o.least j w, o.before);
  }

  IsOldest-newer :
      (key k r : String) (t : ℕ) (v : V) (m : Map V)
      → t ≤ stamp v
      → get k m ≡ none
      → IsOldest key t m r
      → IsOldest key t ((k, v) ∷ m) r
  unfolding get
  IsOldest-newer key k r t v m newer fresh o = record {
    time = o.time;
    found = elim o.found [
      | inl (here, at) ↦ inl (here, at)
      | inr (w, there, at) ↦ inr (w, ground (arith, eq_iff k r), at)
    ];
    before = o.before;
    least = λ j w h. ground (arith, eq_iff k j, o.least j w, o.before);
  }

  oldest_from-IsOldest :
      (key : String) (t : ℕ) (m : Map V)
      → key ≢ ""
      → NonemptyKeys m
      → Distinct m
      → IsOldest key t m (oldest_from stamp key t m)
  unfolding oldest_from
  oldest_from-IsOldest key t [] ne ks d = record {
    time = t;
    found = inl (refl, refl);
    before = omega arith;
    least = λ j w h. absurd (nothing j w h);
  }
    where
      nothing : (j : String) (w : V) → ¬ (get j [] ≡ some w)
      nothing j w h = unfold get in cc h
  oldest_from-IsOldest key t ((k, v) ∷ m) ne ks d = elim (Bool-cases (str_eq key "")) [
    | inl empty ↦ absurd (ne ((eq_iff key "").0 empty))
    | inr full ↦ elim (Bool-cases (ltb (stamp v) t)) [
      | inl older ↦
          rw (full, older)
            (IsOldest-older key k _ t v m (ltb→lt _ _ older) d.0
              (oldest_from-IsOldest k (stamp v) m ks.0 ks.1 d.1))
      | inr newer ↦
          rw (full, newer)
            (IsOldest-newer key k _ t v m (ground arith) d.0
              (oldest_from-IsOldest key t m ne ks.1 d.1))
    ]
  ]

  -- In a map that is not empty the loop ends with a key of the map, and no entry is older.
  pub oldest_from_lem :
      (k : String) (v : V) (m : Map V)
      → NonemptyKeys ((k, v) ∷ m)
      → Distinct ((k, v) ∷ m)
      → (w : V) × (get (oldest_from stamp "" 0 ((k, v) ∷ m)) ((k, v) ∷ m) ≡ some w)
        × ((j : String) (u : V) → get j ((k, v) ∷ m) ≡ some u → stamp w ≤ stamp u)
  unfolding oldest_from get
  oldest_from_lem k v m ks d =
      let r = oldest_from stamp k (stamp v) m in
      let o = oldest_from-IsOldest k (stamp v) m ks.0 ks.1 d.1 in
      elim o.found [
        | inl (here, at) ↦ (
          v,
          ground (arith, eq_iff k r),
          λ j u h. ground (arith, eq_iff k j, o.before, o.least j u),
        )
        | inr (w, there, at) ↦ (
          w,
          ground (arith, eq_iff k r),
          λ j u h. ground (arith, eq_iff k j, o.before, o.least j u),
        )
      ]

  -- Eviction drops one entry, an oldest one, and keeps every other.
  pub evict-oldest :
      (k : String) (v : V) (m : Map V)
      → NonemptyKeys ((k, v) ∷ m)
      → Distinct ((k, v) ∷ m)
      → length (delete (oldest_from stamp "" 0 ((k, v) ∷ m)) ((k, v) ∷ m)) < length ((k, v) ∷ m)
  evict-oldest k v m ks d =
      let (w, there, least) = oldest_from_lem k v m ks d in
      length-delete-lt (oldest_from stamp "" 0 ((k, v) ∷ m)) w ((k, v) ∷ m) there
