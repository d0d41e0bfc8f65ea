-- ===== src/Auth.antt =====
-- src/auth.rs: the tokens and the guards of the requests, with `User` of src/database.rs. Times are
-- in seconds.
pub mod Sound
pub mod Tokens
pub mod Launched
mod Tests
use oxide_cast.Prelude.{
  ℕ, ◌+◌, Bool, true, Option, none, some, String, ltb, if◌then◌else◌, List, [], ◌∷◌, Result, ok,
  err, ok_or, guard, ◌>>=◌, ◌>>◌, not,
}
use Prim.Native.String.{slice, len}
use text.Mathlib.Text.{starts_with}

pub data UserRole : Type 0 where
  admin streamer viewer : UserRole

pub record User : Type 0 where
  pub id : ℕ
  pub username : String
  pub email : String
  pub password_hash : String
  pub created_at : ℕ
  pub updated_at : ℕ
  pub is_active : Bool
  pub is_verified : Bool
  pub stream_key : Option String
  pub role : UserRole

pub record AuthConfig : Type 0 where
  pub jwt_secret : String
  pub jwt_expiry : ℕ
  pub refresh_expiry : ℕ
  pub bcrypt_cost : ℕ
  pub require_email_verification : Bool

pub data TokenType : Type 0 where
  access refresh : TokenType

pub record Claims : Type 0 where
  pub sub : String
  pub username : String
  pub role : UserRole
  pub exp : ℕ
  pub iat : ℕ
  pub token_type : TokenType

-- `encode` and `decode` of jsonwebtoken with the keys of the manager, `decode` at a time, and the
-- text of a `Uuid`.
pub record TokenOps : Type 0 where
  pub encode : Claims → Option String
  pub decode : ℕ → String → Option Claims
  pub to_string : ℕ → String
  pub parse_str : String → Option ℕ

pub data AuthError : Type 0 where
  missing_token invalid_token invalid_format wrong_token_type : AuthError

pub data Status : Type 0 where
  unauthorized forbidden internal_server_error : Status

pub record AuthenticatedUser : Type 0 where
  pub id : ℕ
  pub username : String
  pub role : UserRole

-- What stops a request: `Outcome::Error` and `Outcome::Forward` of Rocket.
pub data Refusal : Type 0 where
  error : Status → AuthError → Refusal
  forward : Status → Refusal

-- The outcome of a guard.
abbrev pub Outcome : Type 0 → Type 0
Outcome A = Result Refusal A

abbrev pub expiry_of : AuthConfig → TokenType → ℕ
expiry_of config access = config.jwt_expiry
expiry_of config refresh = config.refresh_expiry

abbrev pub claims_of : TokenOps → AuthConfig → User → ℕ → TokenType → Claims
claims_of ops config user now kind = record {
  sub = ops.to_string user.id;
  username = user.username;
  role = user.role;
  exp = now + expiry_of config kind;
  iat = now;
  token_type = kind;
}

-- The access token and the refresh token.
unfoldable pub generate_tokens : TokenOps → AuthConfig → User → ℕ → Option (String × String)
generate_tokens ops config user now = elim (ops.encode (claims_of ops config user now access)) [
  | none ↦ none
  | some access_token ↦ elim (ops.encode (claims_of ops config user now refresh)) [
    | none ↦ none
    | some refresh_token ↦ some (access_token, refresh_token)
  ]
]

unfoldable pub verify_token : TokenOps → ℕ → String → Option Claims
verify_token ops now token = elim (ops.decode now token) [
  | none ↦ none
  | some claims ↦ if ltb claims.exp now then none else some claims
]

unfoldable pub extract_token_from_header : String → Option String
extract_token_from_header authorization =
    if starts_with authorization "Bearer "
    then some (slice authorization 7 (len authorization))
    else none

-- What `from_request` does with claims that are valid.
abbrev pub user_of : TokenOps → Claims → TokenType → Outcome AuthenticatedUser
user_of ops claims refresh = err (error unauthorized wrong_token_type)
user_of ops claims access = elim (ops.parse_str claims.sub) [
  | none ↦ err (error unauthorized invalid_token)
  | some id ↦ ok (record { id = id; username = claims.username; role = claims.role })
]

-- What `from_request` does with the header `Authorization` once it has the manager.
unfoldable pub authenticate : TokenOps → ℕ → Option String → Outcome AuthenticatedUser
authenticate ops now none = err (error unauthorized missing_token)
authenticate ops now (some authorization) = elim (extract_token_from_header authorization) [
  | none ↦ err (error unauthorized invalid_format)
  | some token ↦ elim (verify_token ops now token) [
    | none ↦ err (error unauthorized invalid_token)
    | some claims ↦ user_of ops claims claims.token_type
  ]
]

-- `AuthenticatedUser::from_request`, on the outcome of the guard `&State<Arc<AppState>>`, which finds
-- the manager, and on the header.
unfoldable pub from_request : Outcome TokenOps → ℕ → Option String → Outcome AuthenticatedUser
from_request (ok ops) now header = authenticate ops now header
from_request (err refusal) now header = err refusal

abbrev pub for_admin : AuthenticatedUser → UserRole → Outcome AuthenticatedUser
for_admin user admin = ok user
for_admin user _ = err (error forbidden invalid_token)

abbrev pub for_streamer : AuthenticatedUser → UserRole → Outcome AuthenticatedUser
for_streamer user viewer = err (error forbidden invalid_token)
for_streamer user _ = ok user

-- `AdminUser::from_request` and `StreamerUser::from_request`.
unfoldable pub admin_from_request : Outcome TokenOps → ℕ → Option String → Outcome AuthenticatedUser
admin_from_request state now header = elim (from_request state now header) [
  | ok user ↦ for_admin user user.role
  | err e ↦ err e
]

unfoldable pub streamer_from_request :
    Outcome TokenOps → ℕ → Option String → Outcome AuthenticatedUser
streamer_from_request state now header = elim (from_request state now header) [
  | ok user ↦ for_streamer user user.role
  | err e ↦ err e
]

-- The types of which Rocket manages a value. `manage(app_state)` of src/main.rs enters the first,
-- `attach(Db::init())` the pool.
pub data StateType : Type 0 where
  app_state arc_app_state database_pool : StateType

abbrev pub managed : List StateType
managed = app_state ∷ database_pool ∷ []

-- The guards of the users, admins and streamers in the program that src/main.rs launches, by what
-- Rocket's guard of a state finds among the managed types.
unfoldable pub launched_guards :
    (List StateType → StateType → Outcome TokenOps)
    → ℕ
    → Option String
    → List (Outcome AuthenticatedUser)
launched_guards state_guard now header =
    let state = state_guard managed arc_app_state in
    from_request state now header
    ∷ admin_from_request state now header
    ∷ streamer_from_request state now header
    ∷ []
