-- ===== src/Auth/Sound.antt =====
-- Whom the guards let through.
use oxide_cast.Prelude.{
  ℕ, ◌≤◌, ◌≡◌, refl, Option, none, some, String, Option-cases, Result-cases, ok, err, inl, inr,
  arith, ◌↔◌, ◌⊎◌, ap,
}
use mathlib.Core.Path.{subst}
use oxide_cast.Auth.{
  TokenOps, Claims, TokenType, access, refresh, AuthenticatedUser, UserRole, admin, streamer,
  viewer, verify_token, extract_token_from_header, user_of, from_request, for_admin, for_streamer,
  admin_from_request, streamer_from_request, Outcome, authenticate,
}

-- What stands behind a user who is let through.
pub record IsAuthentic (state : Outcome TokenOps) (now : ℕ) (header : Option String)
    (user : AuthenticatedUser) : Type 0 where
  pub ops : TokenOps
  pub authorization : String
  pub token : String
  pub claims : Claims
  pub found : state ≡ ok ops
  pub sent : header ≡ some authorization
  pub bearer : extract_token_from_header authorization ≡ some token
  pub decoded : ops.decode now token ≡ some claims
  pub in_time : now ≤ claims.exp
  pub kind : claims.token_type ≡ access
  pub id : ops.parse_str claims.sub ≡ some user.id
  pub username : user.username ≡ claims.username
  pub role : user.role ≡ claims.role

verify_token-some :
    (ops : TokenOps) (now : ℕ) (token : String) (claims : Claims)
    → verify_token ops now token ≡ some claims
    → (ops.decode now token ≡ some claims) × (now ≤ claims.exp)
unfolding verify_token
verify_token-some ops now token claims e = ground arith

user_of-ok :
    (ops : TokenOps) (claims : Claims) (kind : TokenType) (user : AuthenticatedUser)
    → user_of ops claims kind ≡ ok user
    → (kind ≡ access)
      × (ops.parse_str claims.sub ≡ some user.id)
      × (user.username ≡ claims.username)
      × (user.role ≡ claims.role)
user_of-ok ops claims refresh user e = absurd cc
user_of-ok ops claims access user e = ground arith

-- A request that passes found the manager, and has a bearer token that decodes to claims that are not
-- past their time, are those of an access token, and are those of the user.
pub from_request-IsAuthentic :
    (state : Outcome TokenOps) (now : ℕ) (header : Option String) (user : AuthenticatedUser)
    → from_request state now header ≡ ok user
    → IsAuthentic state now header user
unfolding from_request authenticate
from_request-IsAuthentic (err refusal) now header user e = absurd cc
from_request-IsAuthentic (ok ops) now none user e = absurd cc
from_request-IsAuthentic (ok ops) now (some authorization) user e =
    elim (Option-cases (extract_token_from_header authorization)) [
      | inl p ↦ absurd (ground arith)
      | inr (token, p) ↦ elim (Option-cases (verify_token ops now token)) [
        | inl q ↦ absurd (ground arith)
        | inr (claims, q) ↦
            let passed : user_of ops claims claims.token_type ≡ ok user = ground arith in
            let (decoded, in_time) = verify_token-some ops now token claims q in
            let (kind, id, username, role) = user_of-ok ops claims claims.token_type user passed in
            record {
              ops = ops;
              authorization = authorization;
              token = token;
              claims = claims;
              found = refl;
              sent = refl;
              bearer = p;
              decoded = decoded;
              in_time = in_time;
              kind = kind;
              id = id;
              username = username;
              role = role;
            }
      ]
    ]

for_admin-ok :
    (user u : AuthenticatedUser) (role : UserRole)
    → for_admin user role ≡ ok u
    → (user ≡ u) × (role ≡ admin)
for_admin-ok user u admin e = ground arith
for_admin-ok user u _ e = absurd cc

for_streamer-ok :
    (user u : AuthenticatedUser) (role : UserRole)
    → for_streamer user role ≡ ok u
    → (user ≡ u) × ((role ≡ admin) ⊎ (role ≡ streamer))
for_streamer-ok user u admin e = (ground arith, inl refl)
for_streamer-ok user u streamer e = (ground arith, inr refl)
for_streamer-ok user u viewer e = absurd cc

for_admin-role : (u : AuthenticatedUser) (role : UserRole) → role ≡ admin → for_admin u role ≡ ok u
for_admin-role u role e = rw (e, for_admin) refl

for_streamer-role :
    (u : AuthenticatedUser) (role : UserRole)
    → (role ≡ admin) ⊎ (role ≡ streamer)
    → for_streamer u role ≡ ok u
for_streamer-role u _ (inl e) = rw e refl
for_streamer-role u _ (inr e) = rw e refl

-- The guard of the admins passes just the authenticated users with the role `admin`, and the guard
-- of the streamers just those with the role `admin` or `streamer`.
pub guards_iff :
    (state : Outcome TokenOps) (now : ℕ) (header : Option String) (u : AuthenticatedUser)
    → ((admin_from_request state now header ≡ ok u)
        ↔ ((from_request state now header ≡ ok u) × (u.role ≡ admin)))
      × ((streamer_from_request state now header ≡ ok u)
          ↔ ((from_request state now header ≡ ok u) × ((u.role ≡ admin) ⊎ (u.role ≡ streamer))))
unfolding admin_from_request streamer_from_request
guards_iff state now header u = elim (Result-cases (from_request state now header)) [
  | inl (user, e) ↦
      rw (e, admin_from_request, streamer_from_request)
        (
          (
            λ p.
                let (q, r) = for_admin-ok user u user.role p in
                (ap ok q, subst (λ v. v.role ≡ admin) q r),
            λ p. let q : user ≡ u = ground arith in rw (q) (for_admin-role u u.role p.1),
          ),
          (
            λ p.
                let (q, r) = for_streamer-ok user u user.role p in
                (ap ok q, subst (λ v. (v.role ≡ admin) ⊎ (v.role ≡ streamer)) q r),
            λ p. let q : user ≡ u = ground arith in rw (q) (for_streamer-role u u.role p.1),
          ),
        )
  | inr (why, e) ↦
      rw (e, admin_from_request, streamer_from_request)
        ((λ p. absurd cc, λ p. absurd cc), (λ p. absurd cc, λ p. absurd cc))
]
