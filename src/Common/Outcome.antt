-- ===== src/Common/Outcome.antt =====
-- The results of Rust functions: `Result<A, E>`, and the panic that an index out of bounds, an
-- `unwrap` of nothing, or an arithmetic overflow (in a build that checks it) raises.
use mathlib.Core.Option.{Option, none, some}
use mathlib.Core.Path.{◌≡◌, refl, subst}
use mathlib.Core.Bool.{Bool, true, false}

pub data Outcome {ℓ κ} (E : Type ℓ) (A : Type κ) : Type (ℓ ⊔ κ) where
  ok : A → Outcome E A
  err : E → Outcome E A
  panic : Outcome E A

infixl 5 ◌>>=◌ ◌>>◌
abbrev pub ◌>>=◌ {ℓ κ μ} :
    {E : Type ℓ} {A : Type κ} {B : Type μ} → Outcome E A → (A → Outcome E B) → Outcome E B
ok a >>= f = f a
err e >>= f = err e
panic >>= f = panic

abbrev pub ◌>>◌ {ℓ κ} : {E : Type ℓ} {B : Type κ} → Outcome E (Unit {0}) → Outcome E B → Outcome E B
m >> k = m >>= λ _. k

-- `o.unwrap()`, `xs[i]`: nothing there is a panic
abbrev pub expect {ℓ κ} : {E : Type ℓ} {A : Type κ} → Option A → Outcome E A
expect none = panic
expect (some a) = ok a

-- `o.ok_or(e)?`
abbrev pub ok_or {ℓ κ} : {E : Type ℓ} {A : Type κ} → Option A → E → Outcome E A
ok_or none e = err e
ok_or (some a) e = ok a

-- `if test { return Err(e) }`
abbrev pub fail_if {ℓ} : {E : Type ℓ} → Bool → E → Outcome E (Unit {0})
fail_if true e = err e
fail_if false e = ok tt

-- Inversion of successful steps.
module _ {ℓ} {E : Type ℓ} where
  pub >>=-eq-ok {κ μ} :
      {A : Type κ} {B : Type μ} (first : Outcome E A) (next : A → Outcome E B) {result : B}
      → (first >>= next) ≡ ok result
      → (value : A) × (first ≡ ok value) × (next value ≡ ok result)
  >>=-eq-ok panic next same = cc
  >>=-eq-ok (err e) next same = cc
  >>=-eq-ok (ok value) next same = (value, refl, same)

  pub fail_if-eq-ok {μ} :
      {B : Type μ} (test : Bool) (e : E) (k : Outcome E B) {b : B}
      → (fail_if test e >> k) ≡ ok b
      → (test ≡ false) × (k ≡ ok b)
  fail_if-eq-ok true e k h = cc
  fail_if-eq-ok false e k h = (refl, h)

  pub expect-eq-ok {κ μ} :
      {A : Type κ} {B : Type μ} (o : Option A) (f : A → Outcome E B) {b : B}
      → (expect o >>= f) ≡ ok b
      → (a : A) × (o ≡ some a) × (f a ≡ ok b)
  expect-eq-ok none f h = cc
  expect-eq-ok (some a) f h = (a, refl, h)

-- What every `ok` result of a computation satisfies, with a rule for each way to build one.
pub record Ensures {ℓ κ μ} {E : Type ℓ} {A : Type κ} (P : A → Type μ) (o : Outcome E A)
    : Type (ℓ ⊔ κ ⊔ μ) where
  pub at : (a : A) → o ≡ ok a → P a

module _ {ℓ κ μ} {E : Type ℓ} {A : Type κ} {P : A → Type μ} where
  pub Ensures-ok : (a : A) → P a → Ensures {E = E} P (ok a)
  Ensures-ok a h = record { at = λ b e. subst P (cc) h }

  pub Ensures-err : (e : E) → Ensures P (err e)
  Ensures-err e = record { at = λ a h. cc }

  pub Ensures-panic : Ensures {E = E} P panic
  Ensures-panic = record { at = λ a h. cc }

module _ {ℓ κ ν μ} {E : Type ℓ} {A : Type κ} {B : Type ν} {P : B → Type μ} where
  pub Ensures-bind :
      (m : Outcome E A) (f : A → Outcome E B)
      → ((a : A) → m ≡ ok a → Ensures P (f a))
      → Ensures P (m >>= f)
  Ensures-bind (ok a) f k = k a refl
  Ensures-bind (err e) f k = Ensures-err e
  Ensures-bind panic f k = Ensures-panic
