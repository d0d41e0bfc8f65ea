-- ===== src/Api/Accounts/Register.antt =====
-- A new account, and the first login with it.
use oxide_cast.Prelude.{
  ℕ, ◌≡◌, refl, ap, Bool, true, false, not, ◌&&◌, none, some, [], ◌∷◌, String, ltb, ok, arith, inl,
  inr, Bool-cases,
}
use oxide_cast.HashMap.{KeyEq, string_eq, nat_eq, ◌==◌, HashMap, contains_key, insert, values}
use oxide_cast.HashMap.Laws.{beq_refl}
use oxide_cast.Auth.{User, streamer, generate_tokens}
use oxide_cast.Database.{Database, Statement, Answers, first_with}
use oxide_cast.Database.Users.{
  has_username, has_email, created_user, find_by_username, find_by_email, is_free_for, add_user,
  create,
}
use oxide_cast.Api.Accounts.{
  AccountOps, RegisterRequest, LoginRequest, create_login_response, tokens_of, is_name, answer,
  login, register,
}

module _ {ℓ κ} {K : Type ℓ} {V : Type κ} ⦃e : KeyEq K⦄ where
  -- A new entry that alone fits is the first that fits.
  first_with-insert :
      (p : V → Bool) (k : K) (v : V) (m : HashMap K V)
      → contains_key k m ≡ false
      → first_with p (values m) ≡ none
      → p v ≡ true
      → first_with p (values (insert k v m)) ≡ some v
  unfolding values insert contains_key
  first_with-insert p k v [] free nobody fits = rw fits refl
  first_with-insert p k v ((j, w) ∷ m) free nobody fits = elim (Bool-cases (j == k)) [
    | inl same ↦ absurd (ground (arith, same))
    | inr other ↦ ground (arith, other, first_with-insert p k v m)
  ]

-- The row of a request, with the hash of its password.
abbrev pub user_row : ℕ → ℕ → String → RegisterRequest → String → User
user_row id now key request hash = created_user id now key (record {
  username = request.username;
  email = request.email;
  password = hash;
  role = streamer;
})

abbrev pub is_valid : AccountOps → RegisterRequest → Bool
is_valid ops request =
    is_name ops request.username
    && not (ltb (ops.len request.password) 8)
    && ops.has_at request.email

module _ {Json : Type 0} (ops : AccountOps) (answers : Answers)
    (connected : (q : Statement) → answers q ≡ true) where
  register-added :
      (id now : ℕ) (key : String) (request : RegisterRequest) (hash : String)
      (pair : String × String) (db : Database Json)
      → is_valid ops request ≡ true
      → first_with (has_username request.username) (values db.users) ≡ none
      → first_with (has_email request.email) (values db.users) ≡ none
      → is_free_for (user_row id now key request hash) db ≡ true
      → ops.hash_password request.password ≡ some hash
      → tokens_of ops (user_row id now key request hash) now ≡ some pair
      → register ops answers id key now request db ≡ (
        ok (create_login_response ops.config (user_row id now key request hash) pair),
        add_user (user_row id now key request hash) db,
      )
  unfolding register find_by_username find_by_email create
  register-added id now key request hash pair db valid new_name new_email free hashed tokens =
      let name : is_name ops request.username ≡ true = ground (arith, valid) in
      let long : not (ltb (ops.len request.password) 8) ≡ true = ground (arith, valid) in
      let at : ops.has_at request.email ≡ true = ground (arith, valid) in
      rw (name, register)
        (rw (long, register)
          (rw (at, register)
            (rw (connected Statement.select_username, register, find_by_username)
              (rw (new_name, register, find_by_username)
                (rw (connected Statement.select_email, register, find_by_email)
                  (rw (new_email, register, find_by_email)
                    (rw (hashed, register)
                      (rw (connected Statement.insert_user, register, create)
                        (rw (free, register, create) (rw (tokens, register, answer) refl))))))))))

  login-found :
      (now : ℕ) (request : LoginRequest) (user : User) (pair : String × String) (db : Database Json)
      → first_with (has_username request.username) (values db.users) ≡ some user
      → ops.verify_password request.password user.password_hash ≡ some true
      → user.is_active ≡ true
      → tokens_of ops user now ≡ some pair
      → login ops answers now request db ≡ (ok (create_login_response ops.config user pair), db)
  unfolding login find_by_username generate_tokens
  login-found now request user pair db found verified active tokens =
      rw (connected Statement.select_username, login, find_by_username)
        (rw (found, login, find_by_username)
          (rw (verified, login) (rw (active, login) (rw (tokens, login, answer) refl))))

  -- When the database answers: a request with a valid name, password and address that no user has,
  -- with an id and a key that are free, registers a user, if its password can be hashed and tokens
  -- can be made. A login with the same name and password then succeeds for the same user and changes
  -- nothing, if the password verifies against its hash and tokens can be made.
  pub register-login :
      (id now later : ℕ) (key : String) (request : RegisterRequest) (hash : String)
      (pair pair' : String × String) (db : Database Json)
      → is_valid ops request ≡ true
      → first_with (has_username request.username) (values db.users) ≡ none
      → first_with (has_email request.email) (values db.users) ≡ none
      → is_free_for (user_row id now key request hash) db ≡ true
      → ops.hash_password request.password ≡ some hash
      → ops.verify_password request.password hash ≡ some true
      → tokens_of ops (user_row id now key request hash) now ≡ some pair
      → tokens_of ops (user_row id now key request hash) later ≡ some pair'
      → let (r, db') = register ops answers id key now request db in
        let user = user_row id now key request hash in
        (r ≡ ok (create_login_response ops.config user pair))
        × (login ops answers later
              (record { username = request.username; password = request.password })
              db'
            ≡ (ok (create_login_response ops.config user pair'), db'))
  register-login id now later key request hash pair pair' db valid new_name new_email free hashed
        verified tokens tokens' =
      let user = user_row id now key request hash in
      let run =
        register-added id now key request hash pair db valid new_name new_email free hashed
          tokens in
      let vacant : contains_key id db.users ≡ false = ground (arith, free) in
      (
        ap (λ r. r.0) run,
        rw run (
            login-found later (record { username = request.username; password = request.password })
              user pair' (add_user user db)
              (first_with-insert (has_username request.username) id user db.users vacant new_name
                (beq_refl request.username))
              verified refl tokens'),
      )
