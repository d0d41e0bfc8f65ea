-- ===== src/Api.antt =====
-- The paging of src/api/mod.rs and the window of src/database.rs that `list_streams` of
-- src/api/streams.rs asks for with it.
pub mod Paging
pub mod Streams
pub mod Accounts
pub mod Viewers
mod Tests
use oxide_cast.Prelude.{
  ℕ, ◌+◌, ◌-◌, ◌*◌, ◌%◌, ◌^◌, Option, none, some, List, take, drop, ltb, if◌then◌else◌,
}

pub record PaginationParams : Type 0 where
  pub page : Option ℕ
  pub limit : Option ℕ

abbrev pub unwrap_or : ℕ → Option ℕ → ℕ
unwrap_or default none = default
unwrap_or default (some n) = n

abbrev pub max : ℕ → ℕ → ℕ
max a b = if ltb a b then b else a

abbrev pub clamp : ℕ → ℕ → ℕ → ℕ
clamp low high n = if ltb n low then low else if ltb high n then high else n

unfoldable pub page : PaginationParams → ℕ
page params = max (unwrap_or 1 params.page) 1

unfoldable pub limit : PaginationParams → ℕ
limit params = clamp 1 100 (unwrap_or 20 params.limit)

-- The product is one of u32, which wraps in a release build.
unfoldable pub offset : PaginationParams → ℕ
offset params = ((page params - 1) * limit params) % 2 ^ 32

-- `LIMIT $1 OFFSET $2` on the rows of the query in their order.
unfoldable pub find_live_streams {ℓ} : {Row : Type ℓ} → ℕ → ℕ → List Row → List Row
find_live_streams limit offset rows = take limit (drop offset rows)

-- The rows that `list_streams` answers with.
unfoldable pub list_streams {ℓ} : {Row : Type ℓ} → PaginationParams → List Row → List Row
list_streams params rows = find_live_streams (limit params) (offset params) rows
