-- ===== src/HashMap/Values.antt =====
-- Tables in which every value has a property, and tables without a repeated key.
use oxide_cast.Prelude.{
  ◌≡◌, refl, false, none, some, Option, [], ◌∷◌, if◌then◌else◌, arith, Bool, Bool-cases, inl, inr,
}
use oxide_cast.HashMap.{
  KeyEq, ◌==◌, HashMap, get, contains_key, insert, remove, modify, map_values, retain,
}
use oxide_cast.HashMap.Laws.{get_of_not_contains_key}

abbrev pub AllValues {ℓ κ μ} : {K : Type ℓ} {V : Type κ} → (V → Type μ) → HashMap K V → Type μ
AllValues P [] = Unit
AllValues P ((k, v) ∷ m) = P v × AllValues P m

-- `Option::filter`.
abbrev pub keep_if {κ} : {V : Type κ} → (V → Bool) → Option V → Option V
keep_if p none = none
keep_if p (some v) = if p v then some v else none

module _ {ℓ κ μ} {K : Type ℓ} {V : Type κ} (P : V → Type μ) where
  pub map_values-AllValues :
      (f : V → V) (m : HashMap K V)
      → ((v : V) → P v → P (f v))
      → AllValues P m
      → AllValues P (map_values f m)
  unfolding map_values
  map_values-AllValues f [] keep h = tt
  map_values-AllValues f ((k, v) ∷ m) keep h = (keep v h.0, map_values-AllValues f m keep h.1)

  pub retain-AllValues : (p : V → Bool) (m : HashMap K V) → AllValues P m → AllValues P (retain p m)
  unfolding retain
  retain-AllValues p [] h = tt
  retain-AllValues p ((k, v) ∷ m) h = elim (Bool-cases (p v)) [
    | inl e ↦ rw e (h.0, retain-AllValues p m h.1)
    | inr e ↦ rw e (retain-AllValues p m h.1)
  ]

module _ {ℓ κ μ} {K : Type ℓ} {V : Type κ} ⦃e : KeyEq K⦄ (P : V → Type μ) where
  pub get-AllValues : (k : K) (v : V) (m : HashMap K V) → AllValues P m → get k m ≡ some v → P v
  unfolding get
  get-AllValues k v [] h q = absurd (cc)
  get-AllValues k v ((j, w) ∷ m) h q = ground (arith, h.0, get-AllValues k v m h.1)

  pub insert-AllValues :
      (k : K) (v : V) (m : HashMap K V) → P v → AllValues P m → AllValues P (insert k v m)
  unfolding insert
  insert-AllValues k v [] p h = (p, tt)
  insert-AllValues k v ((j, w) ∷ m) p h = elim (Bool-cases (j == k)) [
    | inl q ↦ rw q (p, h.1)
    | inr q ↦ rw q (h.0, insert-AllValues k v m p h.1)
  ]

  pub remove-AllValues : (k : K) (m : HashMap K V) → AllValues P m → AllValues P (remove k m)
  unfolding remove
  remove-AllValues k [] h = tt
  remove-AllValues k ((j, w) ∷ m) h = elim (Bool-cases (j == k)) [
    | inl q ↦ rw q (remove-AllValues k m h.1)
    | inr q ↦ rw q (h.0, remove-AllValues k m h.1)
  ]

  pub modify-AllValues :
      (k : K) (f : V → V) (m : HashMap K V)
      → ((v : V) → P v → P (f v))
      → AllValues P m
      → AllValues P (modify k f m)
  unfolding modify
  modify-AllValues k f [] keep h = tt
  modify-AllValues k f ((j, w) ∷ m) keep h = elim (Bool-cases (j == k)) [
    | inl q ↦ rw q (keep w h.0, h.1)
    | inr q ↦ rw q (h.0, modify-AllValues k f m keep h.1)
  ]

module _ {ℓ κ} {K : Type ℓ} {V : Type κ} ⦃e : KeyEq K⦄ where
  -- No key twice: what a `HashMap` is.
  abbrev pub IsUnique : HashMap K V → Type 0
  IsUnique [] = Unit
  IsUnique ((k, v) ∷ m) = (contains_key k m ≡ false) × IsUnique m

  contains_key-insert :
      (k j : K) (v : V) (m : HashMap K V)
      → contains_key j m ≡ false
      → (j == k) ≡ false
      → contains_key j (insert k v m) ≡ false
  unfolding contains_key insert
  contains_key-insert k j v [] h n = ground (arith, e.same_iff k j, e.same_iff j k)
  contains_key-insert k j v ((i, w) ∷ m) h n =
      ground (arith, e.same_iff k j, e.same_iff j k, e.same_iff i k, contains_key-insert k j v m)

  contains_key-remove :
      (k j : K) (m : HashMap K V) → contains_key j m ≡ false → contains_key j (remove k m) ≡ false
  unfolding contains_key remove
  contains_key-remove k j [] h = refl
  contains_key-remove k j ((i, w) ∷ m) h = ground (arith, contains_key-remove k j m)

  contains_key-modify :
      (k j : K) (f : V → V) (m : HashMap K V)
      → contains_key j m ≡ false
      → contains_key j (modify k f m) ≡ false
  unfolding contains_key modify
  contains_key-modify k j f [] h = refl
  contains_key-modify k j f ((i, w) ∷ m) h = ground (arith, contains_key-modify k j f m)

  contains_key-map_values :
      (j : K) (f : V → V) (m : HashMap K V)
      → contains_key j m ≡ false
      → contains_key j (map_values f m) ≡ false
  unfolding contains_key map_values
  contains_key-map_values j f [] h = refl
  contains_key-map_values j f ((i, w) ∷ m) h = ground (arith, contains_key-map_values j f m)

  contains_key-retain :
      (j : K) (p : V → Bool) (m : HashMap K V)
      → contains_key j m ≡ false
      → contains_key j (retain p m) ≡ false
  unfolding contains_key retain
  contains_key-retain j p [] h = refl
  contains_key-retain j p ((i, w) ∷ m) h = ground (arith, contains_key-retain j p m)

  pub insert-IsUnique : (k : K) (v : V) (m : HashMap K V) → IsUnique m → IsUnique (insert k v m)
  unfolding insert
  insert-IsUnique k v [] h = unfold contains_key in (refl, tt)
  insert-IsUnique k v ((j, w) ∷ m) h = elim (Bool-cases (j == k)) [
    | inl q ↦ rw q (rw (← (e.same_iff j k).0 q) h.0, h.1)
    | inr q ↦ rw q (contains_key-insert k j v m h.0 q, insert-IsUnique k v m h.1)
  ]

  pub remove-IsUnique : (k : K) (m : HashMap K V) → IsUnique m → IsUnique (remove k m)
  unfolding remove
  remove-IsUnique k [] h = tt
  remove-IsUnique k ((j, w) ∷ m) h = elim (Bool-cases (j == k)) [
    | inl q ↦ rw q (remove-IsUnique k m h.1)
    | inr q ↦ rw q (contains_key-remove k j m h.0, remove-IsUnique k m h.1)
  ]

  pub modify-IsUnique : (k : K) (f : V → V) (m : HashMap K V) → IsUnique m → IsUnique (modify k f m)
  unfolding modify
  modify-IsUnique k f [] h = tt
  modify-IsUnique k f ((j, w) ∷ m) h = elim (Bool-cases (j == k)) [
    | inl q ↦ rw q (h.0, h.1)
    | inr q ↦ rw q (contains_key-modify k j f m h.0, modify-IsUnique k f m h.1)
  ]

  pub map_values-IsUnique : (f : V → V) (m : HashMap K V) → IsUnique m → IsUnique (map_values f m)
  unfolding map_values
  map_values-IsUnique f [] h = tt
  map_values-IsUnique f ((j, w) ∷ m) h =
      (contains_key-map_values j f m h.0, map_values-IsUnique f m h.1)

  pub retain-IsUnique : (p : V → Bool) (m : HashMap K V) → IsUnique m → IsUnique (retain p m)
  unfolding retain
  retain-IsUnique p [] h = tt
  retain-IsUnique p ((j, w) ∷ m) h = elim (Bool-cases (p w)) [
    | inl q ↦ rw q (contains_key-retain j p m h.0, retain-IsUnique p m h.1)
    | inr q ↦ rw q (retain-IsUnique p m h.1)
  ]

  pub get-retain :
      (k : K) (p : V → Bool) (m : HashMap K V)
      → IsUnique m
      → get k (retain p m) ≡ keep_if p (get k m)
  unfolding get retain
  get-retain k p [] h = refl
  get-retain k p ((j, w) ∷ m) h =
      ground (arith, e.same_iff j k, get-retain k p m h.1, get_of_not_contains_key k m, h.0)
