-- ===== src/Api/Paging.antt =====
-- Which rows a page shows.
use oxide_cast.Prelude.{
  ℕ, zero, suc, ◌+◌, ◌-◌, ◌*◌, ◌/◌, ◌^◌, ◌≤◌, ◌<◌, ◌≡◌, refl, ◌↔◌, List, [], ◌∷◌, get_elem?, take,
  drop, arith,
}
use native.Mathlib.Nat.{le-div_iff_mul-le, div-lt_iff_lt-mul}
use oxide_cast.Api.{PaginationParams, page, limit, offset, find_live_streams, list_streams}

limit_bounds : (params : PaginationParams) → (1 ≤ limit params) × (limit params ≤ 100)
unfolding limit
limit_bounds params = (ground arith, ground arith)

page-pos : (params : PaginationParams) → 1 ≤ page params
unfolding page
page-pos params = ground arith

-- The offset is that of the page exactly as long as it fits into 32 bits.
pub offset_iff :
    (params : PaginationParams)
    → (offset params ≡ (page params - 1) * limit params)
      ↔ ((page params - 1) * limit params < 2 ^ 32)
unfolding offset
offset_iff params = (λ e. omega arith, λ h. omega arith)

module _ {ℓ} {Row : Type ℓ} where
  get_elem?-drop : (n i : ℕ) (rows : List Row) → get_elem? (drop n rows) i ≡ get_elem? rows (n + i)
  get_elem?-drop zero i rows = rw (zero_plus i) refl
    where
      zero_plus : (k : ℕ) → zero + k ≡ k
      zero_plus k = omega arith
  get_elem?-drop (suc n) i [] = refl
  get_elem?-drop (suc n) i (x ∷ rows) = rw (suc_plus n i) (get_elem?-drop n i rows)
    where
      suc_plus : (a b : ℕ) → suc a + b ≡ suc (a + b)
      suc_plus a b = omega arith

  get_elem?-take :
      (n i : ℕ) (rows : List Row) → i < n → get_elem? (take n rows) i ≡ get_elem? rows i
  get_elem?-take zero i rows h = absurd (omega arith)
  get_elem?-take (suc n) i [] h = refl
  get_elem?-take (suc n) zero (x ∷ rows) h = refl
  get_elem?-take (suc n) (suc i) (x ∷ rows) h = get_elem?-take n i rows (omega arith)

  -- A page whose offset fits into 32 bits shows, at each place `i` below the limit, the row at the
  -- place `(page - 1) * limit + i` of all rows.
  pub get_elem?-list_streams :
      (params : PaginationParams) (rows : List Row) (i : ℕ)
      → (page params - 1) * limit params < 2 ^ 32
      → i < limit params
      → get_elem? (list_streams params rows) i
        ≡ get_elem? rows ((page params - 1) * limit params + i)
  unfolding list_streams find_live_streams
  get_elem?-list_streams params rows i fits h =
      rw
        (
          get_elem?-take (limit params) i (drop (offset params) rows) h,
          get_elem?-drop (offset params) i rows,
          (offset_iff params).1 fits,
        )
        refl

add_one-mul : (a b : ℕ) → (a + 1) * b ≡ a * b + b
add_one-mul a b = omega arith

-- A row is in the window of a page exactly when the page is that of its place: every row is on one
-- page and on no other, if the offset fits into 32 bits.
pub page_iff :
    (params : PaginationParams) (row : ℕ)
    → (page params - 1) * limit params < 2 ^ 32
    → ((offset params ≤ row) × (row < offset params + limit params))
      ↔ (page params ≡ row / limit params + 1)
page_iff params row fits =
    let e = (offset_iff params).1 fits in
    let p = page-pos params in
    let l : 0 < limit params = (limit_bounds params).0 in
    let low = le-div_iff_mul-le {k = limit params} {x = page params - 1} {y = row} l in
    let high = div-lt_iff_lt-mul {k = limit params} {x = row} {y = page params - 1 + 1} l in
    let next = add_one-mul (page params - 1) (limit params) in ground (arith, e, p, low, high, next)
