-- ===== src/Action/Keeps.antt =====
-- What every run of a chain of calls keeps, whether it fails or not: one rule for each link of a
-- chain, for `search`.
use oxide_cast.Prelude.{◌≡◌, refl, Bool, true, false, Option, none, some, Result, ok, err}
use oxide_cast.Action.{Action, pure, ◌>>=◌, ◌>>◌, on_result, require, require_some, gets, changes}

pub record Keeps {ℓ κ μ ρ} {E : Type ℓ} {S : Type κ} {A : Type μ} (P : S → Type ρ)
    (m : Action E S A) : Type (κ ⊔ ρ) where
  pub after : (s : S) → P s → P (m s).1

module _ {ℓ κ μ ν ρ} {E : Type ℓ} {S : Type κ} {A : Type μ} {B : Type ν} {P : S → Type ρ} where
  on_result_lem :
      (f : A → Action E S B) (r : Result E A × S)
      → P r.1
      → ((a : A) → Keeps P (f a))
      → P (on_result f r).1
  on_result_lem f (ok a, s) p k = (k a).after s p
  on_result_lem f (err e, s) p k = p

  pub >>=-Keeps :
      (m : Action E S A) (f : A → Action E S B)
      → Keeps P m
      → ((a : A) → Keeps P (f a))
      → Keeps P (m >>= f)
  >>=-Keeps m f p k = record { after = λ s h. on_result_lem f (m s) (p.after s h) k }

module _ {ℓ κ μ ρ} {E : Type ℓ} {S : Type κ} {B : Type μ} {P : S → Type ρ} where
  pub >>-Keeps :
      (m : Action E S (Unit {0})) (n : Action E S B) → Keeps P m → Keeps P n → Keeps P (m >> n)
  >>-Keeps m n p q = >>=-Keeps m (λ u. n) p (λ u. q)

module _ {ℓ κ μ ρ} {E : Type ℓ} {S : Type κ} {A : Type μ} {P : S → Type ρ} where
  pub pure-Keeps : (a : A) → Keeps {E = E} P (pure a)
  pure-Keeps a = record { after = λ s h. h }

  pub gets-Keeps : (f : S → A) → Keeps {E = E} P (gets f)
  gets-Keeps f = record { after = λ s h. h }

  pub require_some-Keeps : (o : Option A) (e : E) → Keeps P (require_some o e)
  require_some-Keeps none e = record { after = λ s h. h }
  require_some-Keeps (some a) e = record { after = λ s h. h }

module _ {ℓ κ μ ν ρ} {E : Type ℓ} {S : Type κ} {A : Type μ} {B : Type ν} {P : S → Type ρ} where
  -- The rest of the chain may use what was found.
  pub >>=-require_some-Keeps :
      (o : Option A) (e : E) (f : A → Action E S B)
      → ((a : A) → o ≡ some a → Keeps P (f a))
      → Keeps P (require_some o e >>= f)
  >>=-require_some-Keeps none e f k = record { after = λ s h. h }
  >>=-require_some-Keeps (some a) e f k = record { after = λ s h. (k a refl).after s h }

module _ {ℓ κ ρ} {E : Type ℓ} {S : Type κ} {P : S → Type ρ} where
  pub require-Keeps : (b : Bool) (e : E) → Keeps P (require b e)
  require-Keeps true e = record { after = λ s h. h }
  require-Keeps false e = record { after = λ s h. h }

  pub changes-Keeps : (f : S → S) → ((s : S) → P s → P (f s)) → Keeps {E = E} P (changes f)
  changes-Keeps f k = record { after = k }

pub ruleset keeps_rules =
    (>>=-Keeps, >>-Keeps, pure-Keeps, gets-Keeps, require-Keeps, require_some-Keeps)
