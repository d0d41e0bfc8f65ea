-- ===== src/HashMap/Entries.antt =====
-- A property of every entry of a table, its key included.
use oxide_cast.Prelude.{◌≡◌, Bool, inl, inr, some, [], ◌∷◌, Bool-cases, arith}
use oxide_cast.HashMap.{KeyEq, ◌==◌, HashMap, get, insert, remove, modify, retain}

abbrev pub AllEntries {ℓ κ μ} : {K : Type ℓ} {V : Type κ} → (K → V → Type μ) → HashMap K V → Type μ
AllEntries P [] = Unit
AllEntries P ((k, v) ∷ m) = P k v × AllEntries P m

module _ {ℓ κ μ} {K : Type ℓ} {V : Type κ} ⦃e : KeyEq K⦄ (P : K → V → Type μ) where
  pub get-AllEntries : (k : K) (v : V) (m : HashMap K V) → AllEntries P m → get k m ≡ some v → P k v
  unfolding get
  get-AllEntries k v [] h q = absurd cc
  get-AllEntries k v ((j, w) ∷ m) h q = elim (Bool-cases (j == k)) [
    | inl same ↦ ground (arith, e.same_iff j k)
    | inr other ↦ get-AllEntries k v m h.1 (ground arith)
  ]

  pub insert-AllEntries :
      (k : K) (v : V) (m : HashMap K V) → P k v → AllEntries P m → AllEntries P (insert k v m)
  unfolding insert
  insert-AllEntries k v [] p h = (p, tt)
  insert-AllEntries k v ((j, w) ∷ m) p h = elim (Bool-cases (j == k)) [
    | inl same ↦ rw same (p, h.1)
    | inr other ↦ rw other (h.0, insert-AllEntries k v m p h.1)
  ]

  pub remove-AllEntries : (k : K) (m : HashMap K V) → AllEntries P m → AllEntries P (remove k m)
  unfolding remove
  remove-AllEntries k [] h = h
  remove-AllEntries k ((j, w) ∷ m) h = elim (Bool-cases (j == k)) [
    | inl same ↦ rw same (remove-AllEntries k m h.1)
    | inr other ↦ rw other (h.0, remove-AllEntries k m h.1)
  ]

  pub modify-AllEntries :
      (k : K) (f : V → V) (m : HashMap K V)
      → ((j : K) (v : V) → P j v → P j (f v))
      → AllEntries P m
      → AllEntries P (modify k f m)
  unfolding modify
  modify-AllEntries k f [] q h = h
  modify-AllEntries k f ((j, w) ∷ m) q h = elim (Bool-cases (j == k)) [
    | inl same ↦ rw same (q j w h.0, h.1)
    | inr other ↦ rw other (h.0, modify-AllEntries k f m q h.1)
  ]

module _ {ℓ κ μ} {K : Type ℓ} {V : Type κ} (P : K → V → Type μ) where
  pub retain-AllEntries :
      (p : V → Bool) (m : HashMap K V) → AllEntries P m → AllEntries P (retain p m)
  unfolding retain
  retain-AllEntries p [] h = h
  retain-AllEntries p ((j, w) ∷ m) h = elim (Bool-cases (p w)) [
    | inl kept ↦ rw kept (h.0, retain-AllEntries p m h.1)
    | inr dropped ↦ rw dropped (retain-AllEntries p m h.1)
  ]
