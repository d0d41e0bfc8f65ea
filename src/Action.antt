-- ===== src/Action.antt =====
-- A call that changes a state and may fail, for the parts of the program that chain such calls with
-- `?`: what was changed before a failure stays changed.
pub mod Keeps
use oxide_cast.Prelude.{Bool, true, false, Option, none, some, Result, ok, err}

abbrev pub Action {ℓ κ μ} : Type ℓ → Type κ → Type μ → Type (ℓ ⊔ κ ⊔ μ)
Action E S A = S → Result E A × S

abbrev pub pure {ℓ κ μ} : {E : Type ℓ} {S : Type κ} {A : Type μ} → A → Action E S A
pure a s = (ok a, s)

abbrev pub fail {ℓ κ μ} : {E : Type ℓ} {S : Type κ} {A : Type μ} → E → Action E S A
fail e s = (err e, s)

abbrev pub on_result {ℓ κ μ ν} :
    {E : Type ℓ} {S : Type κ} {A : Type μ} {B : Type ν}
    → (A → Action E S B)
    → Result E A × S
    → Result E B × S
on_result f (ok a, s) = f a s
on_result f (err e, s) = (err e, s)

infixl 5 ◌>>=◌ ◌>>◌
abbrev pub ◌>>=◌ {ℓ κ μ ν} :
    {E : Type ℓ} {S : Type κ} {A : Type μ} {B : Type ν}
    → Action E S A
    → (A → Action E S B)
    → Action E S B
◌>>=◌ m f s = on_result f (m s)

abbrev pub ◌>>◌ {ℓ κ μ} :
    {E : Type ℓ} {S : Type κ} {B : Type μ} → Action E S (Unit {0}) → Action E S B → Action E S B
m >> k = m >>= λ _. k

abbrev pub require {ℓ κ} : {E : Type ℓ} {S : Type κ} → Bool → E → Action E S (Unit {0})
require true e s = (ok tt, s)
require false e s = (err e, s)

abbrev pub require_some {ℓ κ μ} :
    {E : Type ℓ} {S : Type κ} {A : Type μ} → Option A → E → Action E S A
require_some (some a) e s = (ok a, s)
require_some none e s = (err e, s)

abbrev pub gets {ℓ κ μ} : {E : Type ℓ} {S : Type κ} {A : Type μ} → (S → A) → Action E S A
gets f s = (ok (f s), s)

abbrev pub changes {ℓ κ} : {E : Type ℓ} {S : Type κ} → (S → S) → Action E S (Unit {0})
changes f s = (ok tt, f s)

abbrev pub map_err {ℓ κ μ} :
    {E : Type ℓ} {F : Type κ} {A : Type μ} → (E → F) → Result E A → Result F A
map_err f (ok a) = ok a
map_err f (err e) = err (f e)

-- A call of a component that is a part of the state, with its errors in the caller's.
abbrev pub within {ℓ κ μ ν ξ} :
    {E : Type ℓ} {F : Type κ} {S : Type μ} {T : Type ν} {A : Type ξ}
    → (S → T)
    → (T → S → S)
    → (F → E)
    → Action F T A
    → Action E S A
within part put wrap m s = let (r, t) = m (part s) in (map_err wrap r, put t s)
