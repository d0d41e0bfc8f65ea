-- ===== src/Database/Users.antt =====
-- The queries of `impl User` of src/database.rs that the stream manager and the accounts make.
use oxide_cast.Prelude.{ℕ, Bool, true, false, not, ◌&&◌, Option, none, some, String}
use oxide_cast.Action.{Action, ◌>>=◌, ◌>>◌, pure, require, gets, changes}
use oxide_cast.HashMap.{string_eq, nat_eq, ◌==◌, get, contains_key, insert, values}
use oxide_cast.Auth.{User}
use oxide_cast.Database.{
  CreateUserRequest, Database, DbError, query_failed, Answers, select_user, select_username,
  select_email, insert_user, first_with, query,
}

abbrev pub has_username : String → User → Bool
has_username name user = user.username == name

abbrev pub has_email : String → User → Bool
has_email email user = user.email == email

abbrev pub has_stream_key : String → User → Bool
has_stream_key key user = elim user.stream_key [ none ↦ false | some own ↦ own == key ]

abbrev pub is_nobody : Option User → Bool
is_nobody none = true
is_nobody (some user) = false

-- The row of `User::create`.
abbrev pub created_user : ℕ → ℕ → String → CreateUserRequest → User
created_user id now stream_key req = record {
  id = id;
  username = req.username;
  email = req.email;
  password_hash = req.password;
  created_at = now;
  updated_at = now;
  is_active = true;
  is_verified = false;
  stream_key = some stream_key;
  role = req.role;
}

module _ {Json : Type 0} where
  unfoldable pub find_by_id : Answers → ℕ → Action DbError (Database Json) (Option User)
  find_by_id answers id = query answers select_user >> gets (λ db. get id db.users)

  unfoldable pub find_by_username : Answers → String → Action DbError (Database Json) (Option User)
  find_by_username answers name =
      query answers select_username >> gets (λ db. first_with (has_username name) (values db.users))

  unfoldable pub find_by_email : Answers → String → Action DbError (Database Json) (Option User)
  find_by_email answers email =
      query answers select_email >> gets (λ db. first_with (has_email email) (values db.users))

  -- The id, the name, the address and the key are unique in the table.
  abbrev pub is_free_for : User → Database Json → Bool
  is_free_for user db =
      not (contains_key user.id db.users)
      && is_nobody (first_with (has_username user.username) (values db.users))
      && is_nobody (first_with (has_email user.email) (values db.users))
      && (elim user.stream_key [
        | none ↦ true
        | some key ↦ is_nobody (first_with (has_stream_key key) (values db.users))
      ])

  abbrev pub add_user : User → Database Json → Database Json
  add_user user db = record db { users = insert user.id user db.users }

  unfoldable pub create :
      Answers → ℕ → ℕ → String → CreateUserRequest → Action DbError (Database Json) User
  create answers id now stream_key req = do
    query answers insert_user
    let user = created_user id now stream_key req
    free ← gets (is_free_for user)
    require free (query_failed insert_user)
    changes (add_user user)
    pure user
