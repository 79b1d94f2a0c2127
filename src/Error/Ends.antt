-- ===== src/Error/Ends.antt =====
-- Postconditions of outcomes: the fuel was enough, and what is returned has a property.
use pt_reseeder.Base.{◌≡◌, refl, subst, ◌≢◌, Bool, true, false, Option, none, some, if◌then◌else◌}
use pt_reseeder.Error.{Outcome, returned, failed, panicked, out_of_fuel, CoreError}
use pt_reseeder.Error.Results.{or_fail, ◌>>=◌}

pub data Ends {ℓ κ} {A : Type ℓ} (P : A → Type κ) : Outcome A → Type (ℓ ⊔ κ) where
  returns : {a : A} → P a → Ends P (returned a)
  fails : {e : CoreError} → Ends P (failed e)
  panics : Ends P panicked

module _ {ℓ κ} {A : Type ℓ} {P : A → Type κ} where
  pub Ends-returned : {r : Outcome A} {a : A} → Ends P r → r ≡ returned a → P a
  Ends-returned (returns h) e = subst P (cc) h
  Ends-returned fails e = cc
  Ends-returned panics e = cc

  pub Ends-out_of_fuel : {r : Outcome A} → Ends P r → r ≢ out_of_fuel
  Ends-out_of_fuel (returns h) = cc
  Ends-out_of_fuel fails = cc
  Ends-out_of_fuel panics = cc

  pub Ends-if :
      (b : Bool) {x y : Outcome A}
      → (b ≡ true → Ends P x)
      → (b ≡ false → Ends P y)
      → Ends P (if b then x else y)
  Ends-if true hx hy = hx refl
  Ends-if false hx hy = hy refl

  pub Ends-or_fail :
      (o : Option A) (e : CoreError) → ((a : A) → o ≡ some a → P a) → Ends P (or_fail o e)
  Ends-or_fail none e h = fails
  Ends-or_fail (some a) e h = returns (h a refl)

  pub Ends-bind {ℓ' κ'} :
      {B : Type ℓ'} {Q : B → Type κ'} {r : Outcome A} {f : A → Outcome B}
      → Ends P r
      → ((a : A) → P a → Ends Q (f a))
      → Ends Q (r >>= f)
  Ends-bind (returns {a} h) k = k a h
  Ends-bind fails k = fails
  Ends-bind panics k = panics

pub Ends-weaken {ℓ κ κ'} :
    {A : Type ℓ} {P : A → Type κ} {Q : A → Type κ'} {r : Outcome A}
    → Ends P r
    → ((a : A) → P a → Ends Q (returned a))
    → Ends Q r
Ends-weaken (returns {a} h) k = k a h
Ends-weaken fails k = fails
Ends-weaken panics k = panics
