-- ===== src/Outcome.antt =====
-- What a call of Rust code can come to: a value, an `Err`, a panic, or, in the model of a loop that
-- runs on fuel, an end of the fuel.
use mathlib.Core.Path.{subst}
use blitz_broker.Common.{
  ◌≡◌, ◌≢◌, ◌⊎◌, inl, inr, refl, Bool, true, false, Option, none, some, if◌then◌else◌,
}

pub data Outcome {ℓ κ} (E : Type ℓ) (A : Type κ) : Type (ℓ ⊔ κ) where
  ok : A → Outcome E A
  err : E → Outcome E A
  panic out_of_fuel : Outcome E A

-- The `?` operator.
infixl 5 ◌>>=◌ ◌>>◌
abbrev pub ◌>>=◌ {ℓ κ ι} :
    {E : Type ℓ} {A : Type κ} {B : Type ι} → Outcome E A → (A → Outcome E B) → Outcome E B
ok a >>= f = f a
err e >>= f = err e
panic >>= f = panic
out_of_fuel >>= f = out_of_fuel

abbrev pub ◌>>◌ {ℓ ι} : {E : Type ℓ} {B : Type ι} → Outcome E (Unit {0}) → Outcome E B → Outcome E B
m >> k = m >>= λ _. k

-- `if test { return Err(e); }`
abbrev pub reject_if {ℓ} : {E : Type ℓ} → Bool → E → Outcome E (Unit {0})
reject_if true e = err e
reject_if false e = ok tt

-- `Result::map_err`
abbrev pub map_err {ℓ κ ι} :
    {E : Type ℓ} {F : Type κ} {A : Type ι} → (E → F) → Outcome E A → Outcome F A
map_err f (ok a) = ok a
map_err f (err e) = err (f e)
map_err f panic = panic
map_err f out_of_fuel = out_of_fuel

-- `Option::ok_or`
abbrev pub ok_or {ℓ κ} : {E : Type ℓ} {A : Type κ} → Option A → E → Outcome E A
ok_or none e = err e
ok_or (some a) e = ok a

-- An operation that panics where it has no value: an index, a slice, checked arithmetic.
abbrev pub or_panic {ℓ κ} : {E : Type ℓ} {A : Type κ} → Option A → Outcome E A
or_panic none = panic
or_panic (some a) = ok a

-- The call returned: no panic, and no end of the fuel; `P` holds of its value, `Q` of its error.
pub data Returns {ℓ κ ι υ} {E : Type ℓ} {A : Type κ} (P : A → Type ι) (Q : E → Type υ)
    : Outcome E A → Type (ℓ ⊔ κ ⊔ ι ⊔ υ) where
  returns_ok : {a : A} → P a → Returns P Q (ok a)
  returns_err : {e : E} → Q e → Returns P Q (err e)

module _ {ℓ κ ι υ} {E : Type ℓ} {A : Type κ} {P : A → Type ι} {Q : E → Type υ} where
  pub Returns-ok : {r : Outcome E A} {a : A} → Returns P Q r → r ≡ ok a → P a
  Returns-ok (returns_ok h) e = subst P (cc) h
  Returns-ok (returns_err h) e = cc

  pub Returns-err : {r : Outcome E A} {e : E} → Returns P Q r → r ≡ err e → Q e
  Returns-err (returns_ok h) e = cc
  Returns-err (returns_err h) e = subst Q (cc) h

  pub Returns-ne-panic : {r : Outcome E A} → Returns P Q r → r ≢ panic
  Returns-ne-panic (returns_ok h) = cc
  Returns-ne-panic (returns_err h) = cc

  pub Returns-ne-out_of_fuel : {r : Outcome E A} → Returns P Q r → r ≢ out_of_fuel
  Returns-ne-out_of_fuel (returns_ok h) = cc
  Returns-ne-out_of_fuel (returns_err h) = cc

  pub Returns-self : {r : Outcome E A} → Returns P Q r → Returns (λ a. r ≡ ok a) Q r
  Returns-self (returns_ok h) = returns_ok refl
  Returns-self (returns_err h) = returns_err h

  pub Returns-forget : {r : Outcome E A} → Returns P Q r → Returns (λ _. Unit {0}) (λ _. Unit {0}) r
  Returns-forget (returns_ok h) = returns_ok tt
  Returns-forget (returns_err h) = returns_err tt

  pub Returns-cases :
      {r : Outcome E A}
      → Returns P Q r
      → ((a : A) × (r ≡ ok a) × P a) ⊎ ((e : E) × (r ≡ err e) × Q e)
  Returns-cases (returns_ok {a} h) = inl (a, refl, h)
  Returns-cases (returns_err {e} h) = inr (e, refl, h)

  pub Returns-reject_if :
      (b : Bool) (e : E) {k : Outcome E A}
      → Q e
      → (b ≡ false → Returns P Q k)
      → Returns P Q (reject_if b e >> k)
  Returns-reject_if true e q h = returns_err q
  Returns-reject_if false e q h = h refl

  pub Returns-if :
      (b : Bool) {x y : Outcome E A}
      → (b ≡ true → Returns P Q x)
      → (b ≡ false → Returns P Q y)
      → Returns P Q (if b then x else y)
  Returns-if true hx hy = hx refl
  Returns-if false hx hy = hy refl

  pub Returns-bind {κ' ι'} :
      {B : Type κ'} {R : B → Type ι'} {r : Outcome E A} {f : A → Outcome E B}
      → Returns P Q r
      → ((a : A) → P a → Returns R Q (f a))
      → Returns R Q (r >>= f)
  Returns-bind (returns_ok {a} h) k = k a h
  Returns-bind (returns_err h) k = returns_err h

  pub Returns-ok_or :
      (o : Option A) (e : E) → ((a : A) → o ≡ some a → P a) → Q e → Returns P Q (ok_or o e)
  Returns-ok_or none e h q = returns_err q
  Returns-ok_or (some a) e h q = returns_ok (h a refl)

  pub Returns-map_err {ℓ' υ'} :
      {F : Type ℓ'} {Q' : F → Type υ'} {r : Outcome E A} (g : E → F)
      → Returns P Q r
      → ((e : E) → Q' (g e))
      → Returns P Q' (map_err g r)
  Returns-map_err g (returns_ok h) k = returns_ok h
  Returns-map_err g (returns_err {e} h) k = returns_err (k e)

pub >>=-eq-ok {ℓ κ ι} :
    {E : Type ℓ} {A : Type κ} {B : Type ι} (call : Outcome E A) (after : A → Outcome E B) {b : B}
    → (call >>= after) ≡ ok b
    → (value : A) × (call ≡ ok value) × (after value ≡ ok b)
>>=-eq-ok (ok value) after whole = (value, refl, whole)
>>=-eq-ok (err e) after whole = cc
>>=-eq-ok _ after whole = cc
