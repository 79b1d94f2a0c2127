-- ===== src/Error/Results.antt =====
-- The `?` operator: do blocks over results and outcomes.
use pt_reseeder.Base.{◌≡◌, ◌⊎◌, inl, inr, refl, Option, none, some}
use pt_reseeder.Error.{Result, ok, err, Outcome, returned, failed, panicked, out_of_fuel, CoreError}

abbrev pub or_fail {ℓ} : {A : Type ℓ} → Option A → CoreError → Outcome A
or_fail none e = failed e
or_fail (some a) e = returned a

abbrev pub ok_or {ℓ} : {A : Type ℓ} → Option A → CoreError → Result A
ok_or none e = err e
ok_or (some a) e = ok a

infixl 5 ◌>>=◌
abbrev pub ◌>>=◌ {ℓ κ} : {A : Type ℓ} {B : Type κ} → Outcome A → (A → Outcome B) → Outcome B
returned a >>= f = f a
failed e >>= f = failed e
panicked >>= f = panicked
out_of_fuel >>= f = out_of_fuel

-- To split on an answer and keep the equation.
pub Result-cases {ℓ} :
    {A : Type ℓ} (r : Result A) → ((a : A) × (r ≡ ok a)) ⊎ ((e : CoreError) × (r ≡ err e))
Result-cases (ok a) = inl (a, refl)
Result-cases (err e) = inr (e, refl)

pub err-ne-ok {ℓ} : {A : Type ℓ} (e : CoreError) (a : A) → ◌≡◌ {A = Result A} (err e) (ok a) → ⊥
err-ne-ok e a h = cc
