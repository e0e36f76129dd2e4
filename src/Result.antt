-- ===== src/Result.antt =====
-- Go's `(value, error)` pairs. An error is its message, and `fmt.Errorf("…: %w", e)` wraps `e`; the
-- values that a message prints (`%d`, `%s`) are left out.
use burnafter.Prelude.{◌⊎◌, inl, inr, ◌≡◌, refl, String, Option, none, some}

pub data Error : Type 0 where
  errorf : String → Error
  wrap : String → Error → Error

pub data Result {ℓ} (A : Type ℓ) : Type ℓ where
  err : Error → Result A
  ok : A → Result A

-- What follows an `if err != nil` that returns the error.
infixl 5 ◌>>=◌
abbrev pub ◌>>=◌ {ℓ κ} : {V : Type ℓ} {W : Type κ} → Result V → (V → Result W) → Result W
err e >>= k = err e
ok v >>= k = k v

-- `if err != nil { return fmt.Errorf("msg: %w", err) }`
abbrev pub context {ℓ} : {A : Type ℓ} → String → Result A → Result A
context msg (ok a) = ok a
context msg (err e) = err (wrap msg e)

-- A call whose failure the program only reports: `none` is the failure.
abbrev pub or_error {ℓ} : {A : Type ℓ} → String → Option A → Result A
or_error msg none = err (errorf msg)
or_error msg (some a) = ok a

-- A function that returned a value got one at each call.
pub >>=-eq-ok {ℓ κ} :
    {V : Type ℓ} {W : Type κ} (r : Result V) (k : V → Result W) {w : W}
    → (r >>= k) ≡ ok w
    → (v : V) × (r ≡ ok v) × (k v ≡ ok w)
>>=-eq-ok (err e) k returned = cc
>>=-eq-ok (ok v) k returned = (v, refl, returned)

pub or_error-eq-ok {ℓ} :
    {A : Type ℓ} (msg : String) (o : Option A) {a : A} → or_error msg o ≡ ok a → o ≡ some a
or_error-eq-ok msg none h = cc
or_error-eq-ok msg (some a) h = cc

pub Result-cases {ℓ} :
    {A : Type ℓ} (r : Result A) → ((a : A) × (r ≡ ok a)) ⊎ ((e : Error) × (r ≡ err e))
Result-cases (ok a) = inl (a, refl)
Result-cases (err e) = inr (e, refl)

pub context-eq-ok {ℓ} :
    {A : Type ℓ} (msg : String) (r : Result A) {a : A} → context msg r ≡ ok a → r ≡ ok a
context-eq-ok msg (ok a) h = cc
context-eq-ok msg (err e) h = cc
