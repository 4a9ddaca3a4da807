-- ===== src/Base/Results.antt =====
-- The result of code that can raise: a value, or an error.
use mathlib.Core.Path.{◌≡◌, refl}
use mathlib.Core.Logic.{◌⊎◌, inl, inr}
use mathlib.Core.Bool.{Bool, true, false}

pub data Result {ℓ κ} (E : Type ℓ) (A : Type κ) : Type (ℓ ⊔ κ) where
  ok : A → Result E A
  err : E → Result E A

infixl 5 ◌>>=◌ ◌>>◌
abbrev pub ◌>>=◌ {ℓ κ μ} :
    {E : Type ℓ} {A : Type κ} {B : Type μ} → Result E A → (A → Result E B) → Result E B
ok a >>= f = f a
err e >>= f = err e

abbrev pub ◌>>◌ {ℓ κ} : {E : Type ℓ} {B : Type κ} → Result E (Unit {0}) → Result E B → Result E B
m >> k = m >>= λ _. k

-- `if not test: raise e`
abbrev pub guard {ℓ} : {E : Type ℓ} → Bool → E → Result E (Unit {0})
guard true e = ok tt
guard false e = err e

pub Result-cases {ℓ κ} :
    {E : Type ℓ} {A : Type κ} (r : Result E A) → ((a : A) × (r ≡ ok a)) ⊎ ((e : E) × (r ≡ err e))
Result-cases (ok a) = inl (a, refl)
Result-cases (err e) = inr (e, refl)

-- what is known when code behind a guard succeeds
pub guard-ok {ℓ κ} :
    {E : Type ℓ} {A : Type κ} (b : Bool) (e : E) (rest : Result E A) {a : A}
    → (guard b e >> rest) ≡ ok a
    → (b ≡ true) × (rest ≡ ok a)
guard-ok true e rest h = (refl, h)
guard-ok false e rest h = cc

-- every value that the code returns fulfils a predicate
abbrev pub Ensures {ℓ κ μ} :
    {E : Type ℓ} {A : Type κ} → (A → Type μ) → Result E A → Type (ℓ ⊔ κ ⊔ μ)
Ensures {A} P r = (a : A) → r ≡ ok a → P a

module _ {ℓ κ μ} {E : Type ℓ} {A : Type κ} (P : A → Type μ) where
  pub ok-Ensures : (v : A) → P v → Ensures {E = E} P (ok v)
  ok-Ensures v p a h = let e : v ≡ a = cc in rw (← e) p

  pub err-Ensures : (e : E) → Ensures P (err e)
  err-Ensures e a h = cc

  pub guard-Ensures :
      (b : Bool) (e : E) (rest : Result E A)
      → (b ≡ true → Ensures P rest)
      → Ensures P (guard b e >> rest)
  guard-Ensures true e rest k = k refl
  guard-Ensures false e rest k = err-Ensures e
