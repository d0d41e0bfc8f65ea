-- ===== src/Database.antt =====
-- src/database.rs, over the tables of migrations/20250603065327_initial.sql: the rows of `users`,
-- `streams` and `stream_sessions` by their ids, and the statements of the source on them. A statement
-- that PostgreSQL refuses, or that does not reach it, changes nothing.
pub mod Users
pub mod Streams
use oxide_cast.Prelude.{
  ℕ, ◌≡◌, Bool, true, false, Option, none, some, List, [], ◌∷◌, String, if◌then◌else◌, ok, err, ℤ,
  pos, ltb_int, not, ◌&&◌,
}
use oxide_cast.Action.{Action, ◌>>=◌, ◌>>◌, pure, require, gets, changes}
use oxide_cast.HashMap.{string_eq, nat_eq, ◌==◌, HashMap, get, contains_key, insert, modify, values}
use oxide_cast.Auth.{User, UserRole}

pub record Stream : Type 0 where
  pub id : ℕ
  pub user_id : ℕ
  pub title : String
  pub description : Option String
  pub category : Option String
  pub is_live : Bool
  pub is_private : Bool
  pub stream_key : String
  pub multicast_address : Option String
  pub multicast_port : Option ℤ
  pub created_at : ℕ
  pub updated_at : ℕ
  pub started_at : Option ℕ
  pub ended_at : Option ℕ
  pub viewer_count : ℤ
  pub max_viewers : ℤ
  pub thumbnail_url : Option String
  pub recording_enabled : Bool
  pub transcoding_profiles : List String

-- `Json` is `serde_json::Value`.
pub record StreamSession (Json : Type 0) : Type 0 where
  pub id : ℕ
  pub stream_id : ℕ
  pub started_at : ℕ
  pub ended_at : Option ℕ
  pub duration_seconds : Option ℤ
  pub peak_viewers : ℤ
  pub total_viewers : ℤ
  pub bytes_transmitted : ℤ
  pub quality_metrics : Json

pub record CreateStreamRequest : Type 0 where
  pub title : String
  pub description : Option String
  pub category : Option String
  pub is_private : Bool
  pub recording_enabled : Bool
  pub transcoding_profiles : List String

pub record UpdateStreamRequest : Type 0 where
  pub title : Option String
  pub description : Option String
  pub category : Option String
  pub is_private : Option Bool
  pub recording_enabled : Option Bool
  pub transcoding_profiles : Option (List String)

pub record Database (Json : Type 0) : Type 0 where
  pub users : HashMap ℕ User
  pub streams : HashMap ℕ Stream
  pub stream_sessions : HashMap ℕ (StreamSession Json)

pub record CreateUserRequest : Type 0 where
  pub username : String
  pub email : String
  pub password : String
  pub role : UserRole

-- The statements of the source by what they do.
pub data Statement : Type 0 where
  select_user select_username select_email insert_user : Statement
  select_stream select_by_key insert_stream update_stream : Statement
  set_live set_ended set_count delete_stream insert_session : Statement

-- A query that returned an error.
pub data DbError : Type 0 where
  query_failed : Statement → DbError

-- Which statements get an answer.
abbrev pub Answers : Type 0
Answers = Statement → Bool

-- `fetch_optional`: the first row that fits.
abbrev pub first_with {ℓ} : {A : Type ℓ} → (A → Bool) → List A → Option A
first_with p [] = none
first_with p (a ∷ rest) = if p a then some a else first_with p rest

abbrev pub or_else {ℓ} : {A : Type ℓ} → Option A → A → A
or_else none a = a
or_else (some b) a = b

abbrev pub or_some {ℓ} : {A : Type ℓ} → Option A → Option A → Option A
or_some none o = o
or_some (some b) o = some b

module _ {Json : Type 0} where
  abbrev pub query : Answers → Statement → Action DbError (Database Json) (Unit {0})
  query answers q = require (answers q) (query_failed q)

  -- The update of a stream's row; the trigger of the table sets `updated_at` at each.
  abbrev pub update_row : ℕ → ℕ → (Stream → Stream) → Database Json → Database Json
  update_row now id change db = record db {
    streams = modify id (λ row. record (change row) { updated_at = now }) db.streams;
  }

module _ {Json : Type 0} where
  -- The INSERT of `finalize_stream_session`; the id is the table's primary key, and the stream has to
  -- be in its table.
  unfoldable pub save_session :
      Answers → StreamSession Json → Action DbError (Database Json) (Unit {0})
  save_session answers row = do
    query answers insert_session
    there ← gets (λ db. contains_key row.id db.stream_sessions)
    require (not there) (query_failed insert_session)
    known ← gets (λ db. contains_key row.stream_id db.streams)
    require known (query_failed insert_session)
    changes (λ db. record db { stream_sessions = insert row.id row db.stream_sessions })
