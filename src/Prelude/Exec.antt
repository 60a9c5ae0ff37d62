-- ===== src/Prelude/Exec.antt =====
-- Methods that change a shared state and may raise. What was written before a raise stays written,
-- so the state comes back beside the error too.
use mathlib.Core.Bool.{Bool, true, false}
use mathlib.Core.Option.{Option, none, some}
use mathlib.Core.Path.{◌≡◌, refl, ap}
use mathlib.Core.Logic.{◌⊎◌, inl, inr}

-- The exception classes of core/errors.py, `KeyError` (of the language) and the `ValidationError` of
-- pydantic. Where one class is
-- raised in different situations, the constructors of its argument tell them apart.
pub data Fault : Type 0 where
  not_found wrong_state invalid_input gates_failed missing_proof content_changed : Fault
  already_voted no_signature bad_target limit_reached disabled cycle self_transfer : Fault

pub data Error : Type 0 where
  config_error : Fault → Error
  authentication_error : Error
  key_store_error : Error
  authorization_error : Error
  key_error : Error
  validation_error : Error

pub data Result {ℓ} (A : Type ℓ) : Type ℓ where
  ok : A → Result A
  err : Error → Result A

abbrev pub Exec {ℓ} : Type ℓ → Type ℓ → Type ℓ
Exec S A = S → Result A × S

module _ {ℓ} {S A : Type ℓ} where
  abbrev pub pure : A → Exec S A
  pure a s = (ok a, s)

  abbrev pub raise : Error → Exec S A
  raise e s = (err e, s)

  abbrev pub lift : Result A → Exec S A
  lift r s = (r, s)

  abbrev pub gets : (S → A) → Exec S A
  gets f s = (ok (f s), s)

  -- `if x is None: raise e`
  abbrev pub required : Error → Option A → Exec S A
  required e none s = (err e, s)
  required e (some a) s = (ok a, s)

module _ {ℓ} {S A B : Type ℓ} where
  abbrev pub continue : Result A → (A → Exec S B) → Exec S B
  continue (ok a) f s = f a s
  continue (err e) f s = (err e, s)

  infixl 5 ◌>>=◌ ◌>>◌
  abbrev pub ◌>>=◌ : Exec S A → (A → Exec S B) → Exec S B
  ◌>>=◌ m f s = continue (m s).0 f (m s).1

  abbrev pub ◌>>◌ : Exec S A → Exec S B → Exec S B
  m >> n = m >>= λ _. n

module _ {S : Type 0} where
  -- `if not b: raise e`
  abbrev pub guard : Bool → Error → Exec S Unit
  guard true e s = (ok tt, s)
  guard false e s = (err e, s)

  abbrev pub modify : (S → S) → Exec S Unit
  modify f s = (ok tt, f s)

-- What a step has done when the rest of the method returns.
module _ {S A B : Type 0} where
  continue-ok :
      (q : Result A) (f : A → Exec S B) (t : S) {b : B} {v : S}
      → continue q f t ≡ (ok b, v)
      → (a : A) × (q ≡ ok a) × (f a t ≡ (ok b, v))
  continue-ok (ok a) f t h = (a, refl, h)
  continue-ok (err e) f t h = absurd (cc)

  pub bind-ok :
      (m : Exec S A) {f : A → Exec S B} {s : S} {b : B} {v : S}
      → (m >>= f) s ≡ (ok b, v)
      → (a : A) × (t : S) × (m s ≡ (ok a, t)) × (f a t ≡ (ok b, v))
  bind-ok m {f} {s} h =
      let (a, e, g) = continue-ok (m s).0 f (m s).1 h in (a, (m s).1, ap (λ q. (q, (m s).1)) e, g)

  pub required-ok :
      (e : Error) (o : Option A) (f : A → Exec S B) {s : S} {b : B} {v : S}
      → (required e o >>= f) s ≡ (ok b, v)
      → (a : A) × (o ≡ some a) × (f a s ≡ (ok b, v))
  required-ok e none f h = absurd (cc)
  required-ok e (some a) f h = (a, refl, h)

module _ {S B : Type 0} where
  pub guard-ok :
      (test : Bool) (e : Error) (f : Exec S B) {s : S} {b : B} {v : S}
      → (guard test e >> f) s ≡ (ok b, v)
      → (test ≡ true) × (f s ≡ (ok b, v))
  guard-ok true e f h = (refl, h)
  guard-ok false e f h = absurd (cc)

pub guard-end :
    {S : Type 0} (test : Bool) (e : Error) (s : S) {v : S}
    → guard test e s ≡ (ok tt, v)
    → test ≡ true
guard-end true e s h = refl
guard-end false e s h = absurd (cc)

pub Result-cases {ℓ} :
    {A : Type ℓ} (r : Result A) → ((a : A) × (r ≡ ok a)) ⊎ ((e : Error) × (r ≡ err e))
Result-cases (ok a) = inl (a, refl)
Result-cases (err e) = inr (e, refl)
