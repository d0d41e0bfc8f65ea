-- ===== src/HashMap/Laws.antt =====
-- What a read finds after each operation of a table, and how many entries a table has.
use oxide_cast.Prelude.{
  ◌≡◌, refl, true, false, none, some, [], ◌∷◌, if◌then◌else◌, arith, length, ◌≤◌, ◌<◌, inl, inr,
  Bool-cases,
}
use oxide_cast.HashMap.{KeyEq, ◌==◌, HashMap, get, contains_key, insert, remove, modify, map_values}
use mathlib.Core.Option

module _ {ℓ} {K : Type ℓ} ⦃e : KeyEq K⦄ where
  pub beq_refl : (k : K) → (k == k) ≡ true
  beq_refl k = (e.same_iff k k).1 refl

module _ {ℓ κ} {K : Type ℓ} {V : Type κ} ⦃e : KeyEq K⦄ where
  pub get-insert :
      (k j : K) (v : V) (m : HashMap K V)
      → get j (insert k v m) ≡ (if k == j then some v else get j m)
  unfolding get insert
  get-insert k j v [] = refl
  get-insert k j v ((i, w) ∷ m) =
      ground (arith, e.same_iff k j, e.same_iff i k, e.same_iff i j, get-insert k j v m)

  pub get-remove :
      (k j : K) (m : HashMap K V) → get j (remove k m) ≡ (if k == j then none else get j m)
  unfolding get remove
  get-remove k j [] = ground arith
  get-remove k j ((i, w) ∷ m) =
      ground (arith, e.same_iff k j, e.same_iff i k, e.same_iff i j, get-remove k j m)

  pub get-modify :
      (k j : K) (f : V → V) (m : HashMap K V)
      → get j (modify k f m) ≡ (if k == j then Option.map f (get j m) else get j m)
  unfolding get modify
  get-modify k j f [] = ground arith
  get-modify k j f ((i, w) ∷ m) =
      ground (arith, e.same_iff k j, e.same_iff i k, e.same_iff i j, get-modify k j f m)

  pub get-map_values :
      (j : K) (f : V → V) (m : HashMap K V) → get j (map_values f m) ≡ Option.map f (get j m)
  unfolding get map_values
  get-map_values j f [] = refl
  get-map_values j f ((i, w) ∷ m) = ground (arith, get-map_values j f m)

  pub contains_key_iff :
      (k : K) (m : HashMap K V)
      → contains_key k m ≡ (elim (get k m) [ none ↦ false | some _ ↦ true ])
  unfolding contains_key get
  contains_key_iff k [] = refl
  contains_key_iff k ((j, v) ∷ m) = ground (arith, contains_key_iff k m)

  pub contains_key_of_get :
      (k : K) (v : V) (m : HashMap K V) → get k m ≡ some v → contains_key k m ≡ true
  contains_key_of_get k v m h = rw (contains_key_iff k m, h) refl

  pub length-remove-le : (k : K) (m : HashMap K V) → length (remove k m) ≤ length m
  unfolding remove
  length-remove-le k [] = omega arith
  length-remove-le k ((j, v) ∷ m) = ground (arith, length-remove-le k m)

  -- Removing a key that is there shortens the table.
  pub length-remove-lt :
      (k : K) (m : HashMap K V) → contains_key k m ≡ true → length (remove k m) < length m
  unfolding remove contains_key
  length-remove-lt k [] h = cc
  length-remove-lt k ((j, v) ∷ m) h = ground (arith, length-remove-le k m, length-remove-lt k m)

  pub contains_key-remove_ne :
      (k j : K) (m : HashMap K V)
      → (k == j) ≡ false
      → contains_key j m ≡ true
      → contains_key j (remove k m) ≡ true
  unfolding remove contains_key
  contains_key-remove_ne k j [] n h = cc
  contains_key-remove_ne k j ((i, v) ∷ m) n h =
      ground (arith, e.same_iff k j, e.same_iff i k, e.same_iff i j, contains_key-remove_ne k j m)

  pub get_of_contains_key :
      (k : K) (m : HashMap K V) → contains_key k m ≡ true → (v : V) × (get k m ≡ some v)
  unfolding contains_key get
  get_of_contains_key k [] h = cc
  get_of_contains_key k ((j, v) ∷ m) h = elim (Bool-cases (j == k)) [
    | inl e ↦ (v, rw e)
    | inr e ↦ rw e (get_of_contains_key k m (ground arith))
  ]

  pub get_of_not_contains_key :
      (k : K) (m : HashMap K V) → contains_key k m ≡ false → get k m ≡ none
  unfolding contains_key get
  get_of_not_contains_key k [] h = refl
  get_of_not_contains_key k ((j, v) ∷ m) h = ground (arith, get_of_not_contains_key k m)

  -- What a removal leaves was there, under another key.
  pub get_of_get-remove :
      (k j : K) (v : V) (m : HashMap K V)
      → get j (remove k m) ≡ some v
      → (get j m ≡ some v) × ((k == j) ≡ false)
  get_of_get-remove k j v m h = ground (arith, get-remove k j m)

  pub remove_of_absent : (k : K) (m : HashMap K V) → get k m ≡ none → remove k m ≡ m
  unfolding get remove
  remove_of_absent k [] h = refl
  remove_of_absent k ((j, v) ∷ m) h = elim (Bool-cases (j == k)) [
    | inl same ↦ absurd (ground (arith, same))
    | inr other ↦ ground (arith, other, remove_of_absent k m)
  ]

  -- A read after a change of an entry that is there.
  pub get-modify_self :
      (k : K) (v : V) (f : V → V) (m : HashMap K V)
      → get k m ≡ some v
      → get k (modify k f m) ≡ some (f v)
  get-modify_self k v f m h = ground (arith, get-modify k k f m, beq_refl k, h)

  pub contains_key-insert : (k : K) (v : V) (m : HashMap K V) → contains_key k (insert k v m) ≡ true
  unfolding contains_key insert
  contains_key-insert k v [] = ground (arith, beq_refl k)
  contains_key-insert k v ((j, w) ∷ m) = elim (Bool-cases (j == k)) [
    | inl same ↦ ground (arith, same, beq_refl k)
    | inr other ↦ ground (arith, other, contains_key-insert k v m)
  ]
