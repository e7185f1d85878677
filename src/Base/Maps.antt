-- ===== src/Base/Maps.antt =====
-- Go's `map[string]V` as an association list. The order of the list is the order of a `range`.
use aadapter.Base.{
  String, ◌+◌, ◌≤◌, ◌<◌, ◌≡◌, refl, Option, none, some, List, [], ◌∷◌, arith, eq_iff, str_eq,
  if◌then◌else◌, length, All, Bool-cases, inl, inr,
}

abbrev pub Map {ℓ} : Type ℓ → Type ℓ
Map V = List (String × V)

module _ {ℓ} {V : Type ℓ} where
  -- `m[k]` with its presence flag
  unfoldable pub get : String → Map V → Option V
  get k [] = none
  get k ((j, v) ∷ m) = if str_eq j k then some v else get k m

  -- `m[k] = v`
  unfoldable pub put : String → V → Map V → Map V
  put k v [] = (k, v) ∷ []
  put k v ((j, w) ∷ m) = if str_eq j k then (j, v) ∷ m else (j, w) ∷ put k v m

  -- `delete(m, k)`
  unfoldable pub delete : String → Map V → Map V
  delete k [] = []
  delete k ((j, v) ∷ m) = let rest = delete k m in if str_eq j k then rest else (j, v) ∷ rest

  -- No key stands twice.
  abbrev pub Distinct : Map V → Type ℓ
  Distinct [] = Unit
  Distinct ((k, v) ∷ m) = (get k m ≡ none) × Distinct m

  pub get-put :
      (k j : String) (v : V) (m : Map V)
      → get j (put k v m) ≡ (if str_eq k j then some v else get j m)
  unfolding get put
  get-put k j v [] = refl
  get-put k j v ((h, old) ∷ m) = ground (arith, eq_iff h j, eq_iff h k, eq_iff k j, get-put k j v m)

  pub get-delete :
      (k j : String) (m : Map V) → get j (delete k m) ≡ (if str_eq k j then none else get j m)
  unfolding get delete
  get-delete k j [] = ground arith
  get-delete k j ((h, old) ∷ m) =
      ground (arith, eq_iff h j, eq_iff h k, eq_iff k j, get-delete k j m)

  pub put-Distinct : (k : String) (v : V) (m : Map V) → Distinct m → Distinct (put k v m)
  unfolding get put
  put-Distinct k v [] d = (refl, tt)
  put-Distinct k v ((j, w) ∷ m) d =
      ground (arith, eq_iff j k, get-put k j v m, eq_iff k j, put-Distinct k v m d.1)

  pub delete-Distinct : (k : String) (m : Map V) → Distinct m → Distinct (delete k m)
  unfolding get delete
  delete-Distinct k [] d = tt
  delete-Distinct k ((j, w) ∷ m) d =
      ground (arith, get-delete k j m, eq_iff k j, delete-Distinct k m d.1)

  pub length-put_old :
      (k : String) (v w : V) (m : Map V) → get k m ≡ some w → length (put k v m) ≡ length m
  unfolding get put
  length-put_old k v w [] h = cc
  length-put_old k v w ((j, u) ∷ m) h = ground (arith, length-put_old k v w m)

  pub length-put_new :
      (k : String) (v : V) (m : Map V) → get k m ≡ none → length (put k v m) ≡ length m + 1
  unfolding get put
  length-put_new k v [] h = omega arith
  length-put_new k v ((j, u) ∷ m) h = ground (arith, length-put_new k v m)

  pub length-delete-le : (k : String) (m : Map V) → length (delete k m) ≤ length m
  unfolding delete
  length-delete-le k [] = omega arith
  length-delete-le k ((j, u) ∷ m) = ground (arith, length-delete-le k m)

  pub length-delete-lt :
      (k : String) (w : V) (m : Map V) → get k m ≡ some w → length (delete k m) < length m
  unfolding get delete
  length-delete-lt k w [] h = cc
  length-delete-lt k w ((j, u) ∷ m) h = ground (arith, length-delete-lt k w m, length-delete-le k m)

module _ {ℓ κ} {V : Type ℓ} (P : String × V → Type κ) where
  pub All-put : (k : String) (v : V) (m : Map V) → P (k, v) → All P m → All P (put k v m)
  unfolding put
  All-put k v [] p a = (p, tt)
  All-put k v ((j, w) ∷ m) p a = elim (Bool-cases (str_eq j k)) [
    | inl here ↦ rw here (let e : j ≡ k = (eq_iff j k).0 here in (rw e p, a.1))
    | inr there ↦ rw there (a.0, All-put k v m p a.1)
  ]

  pub All-delete : (k : String) (m : Map V) → All P m → All P (delete k m)
  unfolding delete
  All-delete k [] a = tt
  All-delete k ((j, w) ∷ m) a = elim (Bool-cases (str_eq j k)) [
    | inl here ↦ rw here (All-delete k m a.1)
    | inr there ↦ rw there (a.0, All-delete k m a.1)
  ]

  pub All-get : (k : String) (v : V) (m : Map V) → All P m → get k m ≡ some v → P (k, v)
  unfolding get
  All-get k v [] a h = cc
  All-get k v ((j, w) ∷ m) a h = elim (Bool-cases (str_eq j k)) [
    | inl here ↦
        let e : j ≡ k = (eq_iff j k).0 here in
        let same : w ≡ v = ground arith in rw (← e, ← same) a.0
    | inr there ↦ All-get k v m a.1 (ground arith)
  ]
