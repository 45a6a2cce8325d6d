-- ===== src/Base/Results.antt =====
-- Nest's HTTP exceptions as values, and handlers that run on a state and keep it when they throw.
use Prim.Native.String.{String}
use mathlib.Core.Path.{◌≡◌, refl, ap}
use mathlib.Core.Logic.{◌⊎◌, inl, inr}
use mathlib.Core.Bool.{Bool, true, false}
use mathlib.Core.Option.{Option, none, some}

-- The message is the one that the source passes to the exception's constructor.
pub data HttpError : Type 0 where
  bad_request unauthorized forbidden not_found conflict unprocessable : String → HttpError
  -- An error that is none of Nest's, thrown on as it is; the global filter answers 500.
  unhandled : HttpError

-- What a handler answers, or the exception that it throws.
pub data Result {ℓ} (Answer : Type ℓ) : Type ℓ where
  err : (thrown : HttpError) → Result Answer
  ok : (answer : Answer) → Result Answer

module _ {ℓ κ} {A : Type ℓ} {B : Type κ} where
  infixl 5 ◌>>=◌
  -- `next(await call)`: what `call` throws is thrown on.
  abbrev pub ◌>>=◌ : Result A → (A → Result B) → Result B
  err thrown >>= next = err thrown
  ok answer >>= next = next answer

  -- A call that is followed by another one answered too.
  pub >>=-eq-ok :
      (call : Result A) (next : A → Result B) {b : B}
      → (call >>= next) ≡ ok b
      → (a : A) × (call ≡ ok a) × (next a ≡ ok b)
  >>=-eq-ok (err thrown) next answered = cc
  >>=-eq-ok (ok answer) next answered = (answer, refl, answered)

infixl 5 ◌>>◌
-- A check, and what follows it.
abbrev pub ◌>>◌ {ℓ} : {A : Type ℓ} → Result (Unit {0}) → Result A → Result A
check >> rest = check >>= λ passed. rest

-- `if (test) throw e;`
abbrev pub throw_if : Bool → HttpError → Result (Unit {0})
throw_if true e = err e
throw_if false e = ok tt

-- `if (!found) throw e;`
abbrev pub or_throw {ℓ} : {A : Type ℓ} → Option A → HttpError → Result A
or_throw none e = err e
or_throw (some a) e = ok a

pub or_throw-eq-ok {ℓ} :
    {A : Type ℓ} (o : Option A) (e : HttpError) {a : A} → or_throw o e ≡ ok a → o ≡ some a
or_throw-eq-ok none e h = cc
or_throw-eq-ok (some a) e h = cc

pub throw_if-eq-ok : (b : Bool) (e : HttpError) {u : Unit {0}} → throw_if b e ≡ ok u → b ≡ false
throw_if-eq-ok true e h = cc
throw_if-eq-ok false e h = refl

pub ok-injective {ℓ} : {A : Type ℓ} {a b : A} → ok a ≡ ok b → a ≡ b
ok-injective {A} {a} e = ap value_of e
  where
    value_of : Result A → A
    value_of (ok x) = x
    value_of (err _) = a

pub Result-cases {ℓ} :
    {A : Type ℓ} (r : Result A) → ((a : A) × (r ≡ ok a)) ⊎ ((thrown : HttpError) × (r ≡ err thrown))
Result-cases (ok a) = inl (a, refl)
Result-cases (err thrown) = inr (thrown, refl)
