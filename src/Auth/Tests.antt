-- ===== src/Auth/Tests.antt =====
-- Concrete requests, and the theorems on the guards at concrete inputs.
use oxide_cast.Prelude.{
  ◌+◌, ◌≤◌, ◌≡◌, refl, true, false, none, some, String, if◌then◌else◌, ok, err, arith, ◌↔◌, ◌⊎◌,
  Bool, Bool-cases, List, [], ◌∷◌, inl, inr,
}
use Prim.Native.String.{◌++◌}
use text.Mathlib.Text.{◌==◌}
use oxide_cast.Auth.{
  TokenOps, AuthConfig, User, Claims, TokenType, access, refresh, AuthenticatedUser, streamer,
  admin, generate_tokens, from_request, unauthorized, wrong_token_type, admin_from_request,
  streamer_from_request, error, Outcome, AuthError, StateType, app_state, arc_app_state,
  database_pool, internal_server_error, invalid_token, launched_guards,
}
use oxide_cast.Auth.Sound.{IsAuthentic, from_request-IsAuthentic, guards_iff}
use oxide_cast.Auth.Tokens.{Decodes, from_request-generate_tokens}
use oxide_cast.Auth.Launched.{Documented, launched_guards_fail}
use mathlib.Core.List.{mem-cons_self, mem-cons_of_mem}

abbrev config : AuthConfig
config = record {
  jwt_secret = "secret";
  jwt_expiry = 3600;
  refresh_expiry = 604800;
  bcrypt_cost = 12;
  require_email_verification = false;
}

abbrev alice : User
alice = record {
  id = 7;
  username = "alice";
  email = "alice@example.com";
  password_hash = "hash";
  created_at = 0;
  updated_at = 0;
  is_active = true;
  is_verified = true;
  stream_key = none;
  role = streamer;
}

abbrev token_of : TokenType → String
token_of access = "a"
token_of refresh = "r"

abbrev alice_claims : TokenType → Claims
alice_claims kind = record {
  sub = "7";
  username = "alice";
  role = streamer;
  exp = 1000 + (elim kind [ access ↦ 3600 | refresh ↦ 604800 ]);
  iat = 1000;
  token_type = kind;
}

abbrev ops : TokenOps
ops = record {
  encode = λ c. some (token_of c.token_type);
  decode = λ now token.
      if token == "a"
      then some (alice_claims access)
      else if token == "r"
      then some (alice_claims refresh)
      else none;
  to_string = λ id. "7";
  parse_str = λ text. some 7;
}

issued : generate_tokens ops config alice 1000 ≡ some ("a", "r")
unfolding generate_tokens
issued = refl

ops-Decodes : Decodes ops config alice 1000 2000
ops-Decodes = record { decodes = back; parses = refl }
  where
    back :
        (kind : TokenType) (token : String)
        → some (token_of kind) ≡ some token
        → 2000 ≤ 1000 + (elim kind [ access ↦ 3600 | refresh ↦ 604800 ])
        → ops.decode 2000 token ≡ some (alice_claims kind)
    back access token e h = let q : token ≡ "a" = cc in rw (q) refl
    back refresh token e h = let q : token ≡ "r" = cc in rw (q) refl

from_request-generate_tokens_example :
    (from_request (ok ops) 2000 (some ("Bearer " ++ "a"))
      ≡ ok (record { id = 7; username = "alice"; role = streamer }))
    × (from_request (ok ops) 2000 (some ("Bearer " ++ "r"))
        ≡ err (error unauthorized wrong_token_type))
from_request-generate_tokens_example =
    from_request-generate_tokens (ok ops) ops config alice 1000 2000 "a" "r" (λ o e. cc) ops-Decodes
      issued (omega arith) (omega arith)

abbrev alice_in : AuthenticatedUser
alice_in = record { id = 7; username = "alice"; role = streamer }

from_request-IsAuthentic_example : IsAuthentic (ok ops) 2000 (some ("Bearer " ++ "a")) alice_in
from_request-IsAuthentic_example =
    from_request-IsAuthentic (ok ops) 2000 (some ("Bearer " ++ "a")) alice_in
      from_request-generate_tokens_example.0

guards_iff_example :
    ((admin_from_request (ok ops) 2000 (some "Bearer a") ≡ ok alice_in)
      ↔ ((from_request (ok ops) 2000 (some "Bearer a") ≡ ok alice_in) × (streamer ≡ admin)))
    × ((streamer_from_request (ok ops) 2000 (some "Bearer a") ≡ ok alice_in) ↔ (
        (from_request (ok ops) 2000 (some "Bearer a") ≡ ok alice_in)
        × ((streamer ≡ admin) ⊎ (streamer ≡ streamer))))
guards_iff_example = guards_iff (ok ops) 2000 (some "Bearer a") alice_in

-- A guard of a state that looks a type up among the managed ones.
abbrev same : StateType → StateType → Bool
same app_state app_state = true
same arc_app_state arc_app_state = true
same database_pool database_pool = true
same _ _ = false

same-eq : (t u : StateType) → same t u ≡ true → t ≡ u
same-eq app_state app_state e = refl
same-eq arc_app_state arc_app_state e = refl
same-eq database_pool database_pool e = refl
same-eq _ _ e = absurd cc

state_guard : List StateType → StateType → Outcome TokenOps
state_guard [] t = err (error internal_server_error invalid_token)
state_guard (u ∷ us) t = if same t u then ok ops else state_guard us t

state_guard-Documented : Documented state_guard
unfolding state_guard
state_guard-Documented [] t absent = (invalid_token, refl)
state_guard-Documented (u ∷ us) t absent = elim (Bool-cases (same t u)) [
  | inl found ↦ absurd (absent (rw (same-eq t u found) mem-cons_self))
  | inr other ↦ rw other (state_guard-Documented us t (λ there. absent (mem-cons_of_mem u there)))
]

launched_guards_fail_example :
    (e : AuthError) × (launched_guards state_guard 2000 (some "Bearer a")
      ≡ err (error internal_server_error e)
        ∷ err (error internal_server_error e)
        ∷ err (error internal_server_error e)
        ∷ [])
launched_guards_fail_example =
    launched_guards_fail state_guard 2000 (some "Bearer a") state_guard-Documented
