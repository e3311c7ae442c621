-- ===== src/Common/Http.antt =====
-- Nest's HTTP exceptions as values, and the handlers' effects: a service method reads and writes
-- its state and returns or throws. What was written before a throw stays written.
use Prim.Native.String.{String}
use mathlib.Core.Path.{◌≡◌, refl}
use mathlib.Core.Logic.{◌⊎◌, inl, inr}
use mathlib.Core.Bool.{Bool, true, false}
use mathlib.Core.Option.{Option, none, some}

pub data HttpError : Type 0 where
  bad_request : String → HttpError
  unauthorized : String → HttpError
  forbidden : String → HttpError
  not_found : String → HttpError
  conflict : String → HttpError
  too_many_requests : String → HttpError
  bad_gateway : String → HttpError
  service_unavailable : String → HttpError
  internal : String → HttpError

pub data Result {ℓ} (A : Type ℓ) : Type ℓ where
  ok : A → Result A
  err : HttpError → Result A

pub ok-injective {ℓ} : {A : Type ℓ} {a b : A} → ok a ≡ ok b → a ≡ b
ok-injective h = cc

pub err-injective {ℓ} : {A : Type ℓ} {a b : HttpError} → ◌≡◌ {A = Result A} (err a) (err b) → a ≡ b
err-injective h = cc

abbrev pub Exec : Type 0 → Type 0 → Type 0
Exec S A = S → Result A × S

abbrev pub chain {ℓ κ} :
    {S : Type 0} {A : Type ℓ} {B : Type κ} → Result A × S → (A → S → Result B × S) → Result B × S
chain (ok a, s) f = f a s
chain (err e, s) f = (err e, s)

infixl 5 ◌>>=◌ ◌>>◌
abbrev pub ◌>>=◌ : {S A B : Type 0} → Exec S A → (A → Exec S B) → Exec S B
◌>>=◌ m f s = chain (m s) f

abbrev pub ◌>>◌ : {S A B : Type 0} → Exec S A → Exec S B → Exec S B
◌>>◌ m k s = chain (m s) (λ _. k)

abbrev pub pure : {S A : Type 0} → A → Exec S A
pure a s = (ok a, s)

abbrev pub throw : {S A : Type 0} → HttpError → Exec S A
throw e s = (err e, s)

abbrev pub gets : {S A : Type 0} → (S → A) → Exec S A
gets f s = (ok (f s), s)

abbrev pub modify : {S : Type 0} → (S → S) → Exec S (Unit {0})
modify f s = (ok tt, f s)

-- `if (b) { throw e; }`
abbrev pub throw_if : {S : Type 0} → Bool → HttpError → Exec S (Unit {0})
throw_if true e s = (err e, s)
throw_if false e s = (ok tt, s)

-- `if (!x) { throw e; }` on a value that may be null
abbrev pub require : {S A : Type 0} → Option A → HttpError → Exec S A
require none e s = (err e, s)
require (some a) e s = (ok a, s)

-- The guard that failed, if one did.
abbrev pub throw_some : {S : Type 0} → Option HttpError → Exec S (Unit {0})
throw_some none s = (ok tt, s)
throw_some (some e) s = (err e, s)

-- A chain that returns took its first step.
pub chain_ok :
    {S A B : Type 0} (m : Result A × S) (f : A → S → Result B × S) {b : B}
    → (chain m f).0 ≡ ok b
    → (a : A) × (m.0 ≡ ok a) × (chain m f ≡ f a m.1)
chain_ok (ok a, s) f h = (a, refl, refl)
chain_ok (err e, s) f h = cc

pub Result-cases {ℓ} :
    {A : Type ℓ} (r : Result A) → ((a : A) × (r ≡ ok a)) ⊎ ((e : HttpError) × (r ≡ err e))
Result-cases (ok a) = inl (a, refl)
Result-cases (err e) = inr (e, refl)
