-- ===== src/Base/Error.antt =====
-- Python's exceptions as values: a function that may raise returns a `Result`.
use mathlib.Core.Path.{◌≡◌, refl, subst}

pub data Exn : Type 0 where
  value_error eof_error overflow_error assertion_error index_error type_error : Exn
  key_error attribute_error unbound_local_error zero_division system_error struct_error exception :
      Exn

-- `undefined` is the behaviour of C code that the C standard leaves open.
pub data Result {ℓ} (A : Type ℓ) : Type ℓ where
  ok : A → Result A
  err : Exn → Result A
  undefined : Result A

infixl 5 ◌>>=◌ ◌>>◌
abbrev pub ◌>>=◌ {ℓ κ} : {A : Type ℓ} {B : Type κ} → Result A → (A → Result B) → Result B
ok a >>= f = f a
err e >>= f = err e
undefined >>= f = undefined

abbrev pub ◌>>◌ {ℓ} : {B : Type ℓ} → Result (Unit {0}) → Result B → Result B
m >> k = m >>= λ _. k

-- What holds of the value, if nothing was raised.
abbrev pub IfOk {ℓ κ} : {A : Type ℓ} → (A → Type κ) → Result A → Type κ
IfOk P (ok a) = P a
IfOk P (err e) = Unit
IfOk P undefined = Unit

module _ {ℓ} {A : Type ℓ} where
  pub IfOk-refl : (r : Result A) → IfOk (λ a. r ≡ ok a) r
  IfOk-refl (ok a) = refl
  IfOk-refl (err e) = tt
  IfOk-refl undefined = tt

  pub IfOk-bind {κ μ ν} :
      {B : Type κ} (P : A → Type μ) (Q : B → Type ν) (r : Result A) (f : A → Result B)
      → IfOk P r
      → ((a : A) → P a → IfOk Q (f a))
      → IfOk Q (r >>= f)
  IfOk-bind P Q (ok a) f h k = k a h
  IfOk-bind P Q (err e) f h k = tt
  IfOk-bind P Q undefined f h k = tt

  pub IfOk-both {κ μ} :
      (P : A → Type κ) (Q : A → Type μ) (r : Result A)
      → IfOk P r
      → IfOk Q r
      → IfOk (λ a. P a × Q a) r
  IfOk-both P Q (ok a) h k = (h, k)
  IfOk-both P Q (err e) h k = tt
  IfOk-both P Q undefined h k = tt

  pub IfOk-map {κ μ} :
      (P : A → Type κ) (Q : A → Type μ) (r : Result A) → IfOk P r → ((a : A) → P a → Q a) → IfOk Q r
  IfOk-map P Q (ok a) h k = k a h
  IfOk-map P Q (err e) h k = tt
  IfOk-map P Q undefined h k = tt

  pub IfOk-ok {κ} : (P : A → Type κ) (r : Result A) (a : A) → IfOk P r → r ≡ ok a → P a
  IfOk-ok P r a h e = subst (IfOk P) e h

-- A value is returned, of which P holds.
abbrev pub Returns : {A : Type 0} → (A → Type 0) → Result A → Type 0
Returns {A = A} P r = (a : A) × (r ≡ ok a) × P a

pub Returns-bind :
    {A B : Type 0} (P : A → Type 0) (Q : B → Type 0) (r : Result A) (f : A → Result B)
    → Returns P r
    → ((a : A) → P a → Returns Q (f a))
    → Returns Q (r >>= f)
Returns-bind P Q r f (a, e, h) k = let (b, e', h') = k a h in (b, rw e e', h')
