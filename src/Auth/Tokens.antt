-- ===== src/Auth/Tokens.antt =====
-- The tokens that the manager issues, used in a request.
use oxide_cast.Prelude.{
  ℕ, ◌+◌, ◌≤◌, ◌≡◌, refl, false, some, String, ltb, Option-cases, ok, err, inl, inr, arith, ◌∙◌, ap,
}
use Prim.Native.String.{◌++◌}
use text.Mathlib.TextPositions.{starts_with-append, slice-append_right, len-append}
use oxide_cast.Auth.{
  TokenOps, AuthConfig, User, Claims, TokenType, access, refresh, unauthorized, wrong_token_type,
  claims_of, expiry_of, generate_tokens, verify_token, extract_token_from_header, user_of,
  from_request, authenticate, Outcome, AuthenticatedUser, error,
}

extract_token-bearer :
    (token : String) → extract_token_from_header ("Bearer " ++ token) ≡ some token
unfolding extract_token_from_header
extract_token-bearer token =
    rw (starts_with-append "Bearer " token, len-append "Bearer " token)
      (ap some (slice-append_right "Bearer " token))

-- What `decode` and `parse_str` do with the tokens of a user: within its time, a token that was
-- encoded decodes to its claims, and the text of an id to the id.
pub record Decodes (ops : TokenOps) (config : AuthConfig) (user : User) (issued now : ℕ)
    : Type 0 where
  pub decodes :
      (kind : TokenType) (token : String)
      → ops.encode (claims_of ops config user issued kind) ≡ some token
      → now ≤ issued + expiry_of config kind
      → ops.decode now token ≡ some (claims_of ops config user issued kind)
  pub parses : ops.parse_str (ops.to_string user.id) ≡ some user.id

generate_tokens-encode :
    (ops : TokenOps) (config : AuthConfig) (user : User) (issued : ℕ) (a r : String)
    → generate_tokens ops config user issued ≡ some (a, r)
    → (ops.encode (claims_of ops config user issued access) ≡ some a)
      × (ops.encode (claims_of ops config user issued refresh) ≡ some r)
unfolding generate_tokens
generate_tokens-encode ops config user issued a r e =
    elim (Option-cases (ops.encode (claims_of ops config user issued access))) [
      | inl p ↦ absurd (ground arith)
      | inr (t, p) ↦ elim (Option-cases (ops.encode (claims_of ops config user issued refresh))) [
        | inl q ↦ absurd (ground arith)
        | inr (u, q) ↦ ground arith
      ]
    ]

authenticate-decoded :
    (ops : TokenOps) (now : ℕ) (token : String) (claims : Claims)
    → ops.decode now token ≡ some claims
    → now ≤ claims.exp
    → authenticate ops now (some ("Bearer " ++ token)) ≡ user_of ops claims claims.token_type
unfolding authenticate verify_token
authenticate-decoded ops now token claims e h =
    let fresh : ltb claims.exp now ≡ false = ground arith in
    rw (extract_token-bearer token, authenticate, e, verify_token, fresh) refl

-- How a request ends that comes with a token, by the outcome of the guard of the state.
abbrev pub ends_in : Outcome TokenOps → Outcome AuthenticatedUser → Outcome AuthenticatedUser
ends_in (ok _) answer = answer
ends_in (err refusal) answer = err refusal

-- Requests with the two tokens that were issued to a user, within the time of both, when `decode` and
-- `parse_str` undo `encode` and `to_string`, and the guard of the state finds no other manager than
-- the one that issued them: where it finds that one, the access token lets the user in, with id, name
-- and role, and the refresh token is refused for its type; where it fails or forwards, both requests
-- end as it does.
pub from_request-generate_tokens :
    (state : Outcome TokenOps) (issuer : TokenOps) (config : AuthConfig) (user : User)
    (issued now : ℕ) (a r : String)
    → ((ops : TokenOps) → state ≡ ok ops → ops ≡ issuer)
    → Decodes issuer config user issued now
    → generate_tokens issuer config user issued ≡ some (a, r)
    → now ≤ issued + config.jwt_expiry
    → now ≤ issued + config.refresh_expiry
    → (from_request state now (some ("Bearer " ++ a))
        ≡ ends_in state (ok (record { id = user.id; username = user.username; role = user.role })))
      × (from_request state now (some ("Bearer " ++ r))
          ≡ ends_in state (err (error unauthorized wrong_token_type)))
unfolding from_request
from_request-generate_tokens (err refusal) issuer config user issued now a r found d e h k =
    (refl, refl)
from_request-generate_tokens (ok ops) issuer config user issued now a r found d e h k =
    let (p, q) = generate_tokens-encode issuer config user issued a r e in
    rw (found ops refl) (
      authenticate-decoded issuer now a _ (d.decodes access a p h) h ∙ rw (d.parses, user_of) refl,
      authenticate-decoded issuer now r _ (d.decodes refresh r q k) k,
    )
