-- ===== src/Common/Action.antt =====
-- A fallible computation that reads and changes a state, such as a function on a database connection.
use phono_junk.Common.Outcome.{Outcome, ok, err, panic}

abbrev pub Action {ℓ κ μ} : Type ℓ → Type κ → Type μ → Type (ℓ ⊔ κ ⊔ μ)
Action W E A = W → Outcome E A × W

abbrev pub continue_with {ℓ κ μ ν} :
    {W : Type ℓ} {E : Type κ} {A : Type μ} {B : Type ν}
    → (A → Action W E B)
    → Outcome E A × W
    → Outcome E B × W
continue_with f (ok a, w) = f a w
continue_with f (err e, w) = (err e, w)
continue_with f (panic, w) = (panic, w)

infixl 5 ◌>>=◌ ◌>>◌
abbrev pub ◌>>=◌ {ℓ κ μ ν} :
    {W : Type ℓ} {E : Type κ} {A : Type μ} {B : Type ν}
    → Action W E A
    → (A → Action W E B)
    → Action W E B
(m >>= f) w = continue_with f (m w)

abbrev pub ◌>>◌ {ℓ κ ν} :
    {W : Type ℓ} {E : Type κ} {B : Type ν} → Action W E (Unit {0}) → Action W E B → Action W E B
m >> k = m >>= λ _. k

-- A result that needs no state.
abbrev pub lift {ℓ κ μ} : {W : Type ℓ} {E : Type κ} {A : Type μ} → Outcome E A → Action W E A
lift o w = (o, w)

abbrev pub caught {ℓ κ μ ν} :
    {W : Type ℓ} {E : Type κ} {A : Type μ} {F : Type ν}
    → Outcome E A × W
    → Outcome F (Outcome E A) × W
caught (ok a, w) = (ok (ok a), w)
caught (err e, w) = (ok (err e), w)
caught (panic, w) = (panic, w)

-- `res = (|| …)()`: an error is a value, a panic stays one.
abbrev pub attempt {ℓ κ μ ν} :
    {W : Type ℓ} {E : Type κ} {A : Type μ} {F : Type ν} → Action W E A → Action W F (Outcome E A)
attempt m w = caught (m w)

abbrev pub with_error {ℓ κ μ} :
    {E : Type ℓ} {F : Type κ} {A : Type μ} → (E → F) → Outcome E A → Outcome F A
with_error f (ok a) = ok a
with_error f (err e) = err (f e)
with_error f panic = panic

-- `.map_err(f)`
abbrev pub map_err {ℓ κ μ ν} :
    {W : Type ℓ} {E : Type κ} {F : Type μ} {A : Type ν} → (E → F) → Action W E A → Action W F A
map_err f m w = let (o, v) = m w in (with_error f o, v)
