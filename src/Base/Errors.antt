-- ===== src/Base/Errors.antt =====
-- The exceptions of @nestjs/common that the services throw, with their messages, and a handler's
-- result. `internal_error` is an exception of the database client. `range_error` is the language's own, of `BigInt` at a number that is no integer.
use Prim.Native.String.{String}
use mathlib.Core.Path.{◌≡◌, refl}
use mathlib.Core.Logic.{◌⊎◌, inl, inr}
use mathlib.Core.Bool.{Bool, true, false}
use mathlib.Core.Option.{Option, none, some}

pub data HttpError : Type 0 where
  bad_request not_found forbidden unauthorized conflict range_error internal_error bad_gateway
        gateway_timeout service_unavailable :
      String → HttpError

pub data Result {ℓ} (A : Type ℓ) : Type ℓ where
  ok : A → Result A
  err : HttpError → Result A

-- `if (o === null) throw error`.
abbrev pub or_throw {ℓ} : {A : Type ℓ} → Option A → HttpError → Result A
or_throw none error = err error
or_throw (some a) error = ok a

-- `if (b) throw error`.
abbrev pub throw_if : Bool → HttpError → Result (Unit {0})
throw_if true error = err error
throw_if false error = ok tt

infixl 5 ◌>>=◌ ◌>>◌
-- What follows a call that may throw.
abbrev pub ◌>>=◌ {ℓ κ} : {A : Type ℓ} {B : Type κ} → Result A → (A → Result B) → Result B
err error >>= next = err error
ok a >>= next = next a

abbrev pub ◌>>◌ {ℓ} : {B : Type ℓ} → Result (Unit {0}) → Result B → Result B
first >> next = first >>= λ _. next

-- A chain that succeeds has had a first call that succeeded.
pub >>=-eq-ok {ℓ κ} :
    {A : Type ℓ} {B : Type κ} (first : Result A) (next : A → Result B) {b : B}
    → (first >>= next) ≡ ok b
    → (a : A) × (first ≡ ok a) × (next a ≡ ok b)
>>=-eq-ok (err error) next h = cc
>>=-eq-ok (ok a) next h = (a, refl, h)

pub or_throw-eq-ok {ℓ} :
    {A : Type ℓ} (o : Option A) (error : HttpError) {a : A} → or_throw o error ≡ ok a → o ≡ some a
or_throw-eq-ok none error h = cc
or_throw-eq-ok (some a) error h = cc

pub throw_if-eq-ok :
    (b : Bool) (error : HttpError) {u : Unit {0}} → throw_if b error ≡ ok u → b ≡ false
throw_if-eq-ok true error h = cc
throw_if-eq-ok false error h = refl

pub >>-eq-ok {ℓ} :
    {B : Type ℓ} (first : Result (Unit {0})) (next : Result B) {b : B}
    → (first >> next) ≡ ok b
    → (first ≡ ok tt) × (next ≡ ok b)
>>-eq-ok (err error) next h = cc
>>-eq-ok (ok u) next h = (refl, h)

pub Result-cases {ℓ} :
    {A : Type ℓ} (r : Result A) → ((a : A) × (r ≡ ok a)) ⊎ ((error : HttpError) × (r ≡ err error))
Result-cases (ok a) = inl (a, refl)
Result-cases (err error) = inr (error, refl)

-- The state in the reply of a handler that succeeds.
pub ok-first {ℓ κ} :
    {A : Type ℓ} {B : Type κ} {a b : A} {x y : B}
    → ◌≡◌ {A = Result (A × B)} (ok (a, x)) (ok (b, y))
    → b ≡ a
ok-first h = cc

pub ok-first_of_three {ℓ κ μ} :
    {A : Type ℓ} {B : Type κ} {C : Type μ} {a b : A} {x y : B} {u v : C}
    → ◌≡◌ {A = Result (A × B × C)} (ok (a, x, u)) (ok (b, y, v))
    → b ≡ a
ok-first_of_three h = cc

pub ok_injective {ℓ} : {A : Type ℓ} {a b : A} → ◌≡◌ {A = Result A} (ok a) (ok b) → b ≡ a
ok_injective h = cc

pub ok-second {ℓ κ} :
    {A : Type ℓ} {B : Type κ} {a b : A} {x y : B}
    → ◌≡◌ {A = Result (A × B)} (ok (a, x)) (ok (b, y))
    → y ≡ x
ok-second h = cc
