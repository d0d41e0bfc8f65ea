-- ===== src/Api/Accounts.antt =====
-- The handlers of src/api/auth.rs, with create_login_response of src/auth.rs.
pub mod Register
use oxide_cast.Prelude.{
  ℕ, ◌/◌, Bool, true, false, not, ◌||◌, Option, none, some, String, ltb, if◌then◌else◌, Result, ok,
  err,
}
use oxide_cast.Action.{Action, ◌>>=◌, ◌>>◌, pure, require, require_some, on_result, within, map_err}
use oxide_cast.Auth.{
  User, UserRole, streamer, AuthConfig, TokenOps, TokenType, access, refresh, generate_tokens,
  verify_token,
}
use oxide_cast.Database.{Database, DbError, Answers}
use oxide_cast.Database.Users
use oxide_cast.Database.Users.{is_nobody}

pub record LoginRequest : Type 0 where
  pub username : String
  pub password : String

pub record RegisterRequest : Type 0 where
  pub username : String
  pub email : String
  pub password : String

pub record UserInfo : Type 0 where
  pub id : ℕ
  pub username : String
  pub email : String
  pub role : UserRole
  pub stream_key : Option String
  pub created_at : ℕ

pub record LoginResponse : Type 0 where
  pub access_token : String
  pub refresh_token : String
  pub user : UserInfo
  pub expires_in : ℕ

-- The statuses of the errors: 400, 401, 403, 409 and 500.
pub data AccountError : Type 0 where
  bad_request unauthorized forbidden conflict internal_server_error : AccountError

-- `hash` and `verify` of bcrypt, the tokens, and `len()` and `contains('@')` of a string.
pub record AccountOps : Type 0 where
  pub config : AuthConfig
  pub tokens : TokenOps
  pub hash_password : String → Option String
  pub verify_password : String → String → Option Bool
  pub len : String → ℕ
  pub has_at : String → Bool

abbrev pub create_login_response : AuthConfig → User → String × String → LoginResponse
create_login_response config user (access_token, refresh_token) = record {
  access_token = access_token;
  refresh_token = refresh_token;
  user = record {
    id = user.id;
    username = user.username;
    email = user.email;
    role = user.role;
    stream_key = user.stream_key;
    created_at = user.created_at;
  };
  expires_in = config.jwt_expiry;
}

-- The tokens at an instant in nanoseconds; theirs are in seconds.
abbrev pub tokens_of : AccountOps → User → ℕ → Option (String × String)
tokens_of ops user now = generate_tokens ops.tokens ops.config user (now / 1_000_000_000)

abbrev pub is_name : AccountOps → String → Bool
is_name ops name = not (ltb (ops.len name) 3 || ltb 50 (ops.len name))

abbrev pub is_refresh : TokenType → Bool
is_refresh refresh = true
is_refresh access = false

module _ {Json A : Type 0} where
  abbrev pub on_users : Action DbError (Database Json) A → Action AccountError (Database Json) A
  on_users = within (λ db. db) (λ db' db. db') (λ e. internal_server_error)

module _ {Json : Type 0} where
  -- What each of the handlers ends with.
  abbrev pub answer : AccountOps → ℕ → User → Action AccountError (Database Json) LoginResponse
  answer ops now user = do
    tokens ← require_some (tokens_of ops user now) internal_server_error
    pure (create_login_response ops.config user tokens)

  unfoldable pub login :
      AccountOps → Answers → ℕ → LoginRequest → Action AccountError (Database Json) LoginResponse
  login ops answers now request = do
    found ← on_users (Users.find_by_username answers request.username)
    user ← require_some found unauthorized
    valid ←
        require_some (ops.verify_password request.password user.password_hash) internal_server_error
    require valid unauthorized
    require user.is_active forbidden
    answer ops now user

  unfoldable pub register :
      AccountOps
      → Answers
      → ℕ
      → String
      → ℕ
      → RegisterRequest
      → Action AccountError (Database Json) LoginResponse
  register ops answers id key now request = do
    require (is_name ops request.username) bad_request
    require (not (ltb (ops.len request.password) 8)) bad_request
    require (ops.has_at request.email) bad_request
    same_name ← on_users (Users.find_by_username answers request.username)
    require (is_nobody same_name) conflict
    same_email ← on_users (Users.find_by_email answers request.email)
    require (is_nobody same_email) conflict
    hash ← require_some (ops.hash_password request.password) internal_server_error
    user ← on_users (
        Users.create answers id now key (record {
          username = request.username;
          email = request.email;
          password = hash;
          role = streamer;
        }))
    answer ops now user

  unfoldable pub refresh_token :
      AccountOps → Answers → ℕ → String → Action AccountError (Database Json) LoginResponse
  refresh_token ops answers now token = do
    claims ← require_some (verify_token ops.tokens (now / 1_000_000_000) token) unauthorized
    require (is_refresh claims.token_type) unauthorized
    user_id ← require_some (ops.tokens.parse_str claims.sub) unauthorized
    found ← on_users (Users.find_by_id answers user_id)
    user ← require_some found unauthorized
    require user.is_active forbidden
    answer ops now user
