-- ===== src/Prelude/Fail.antt =====
-- Fallible code: an error as a value, and a panic as `none`.
pub mod Panic
use mathlib.Core.Path.{◌≡◌, refl}
use mathlib.Core.Bool.{Bool, true, false}
use mathlib.Core.Logic.{◌⊎◌, inl, inr}

pub data Result {ℓ κ} (E : Type ℓ) (A : Type κ) : Type (ℓ ⊔ κ) where
  err : E → Result E A
  ok : A → Result E A

infixl 5 ◌>>◌
module _ {ℓ κ μ} {E : Type ℓ} {A : Type κ} {B : Type μ} where
  infixl 5 ◌>>=◌
  abbrev pub ◌>>=◌ : Result E A → (A → Result E B) → Result E B
  err e >>= next = err e
  ok a >>= next = next a

  -- Inversion of a successful bind.
  pub >>=-eq-ok :
      {b : B} (m : Result E A) (next : A → Result E B)
      → m >>= next ≡ ok b
      → (a : A) × (m ≡ ok a) × (next a ≡ ok b)
  >>=-eq-ok (err e) next h = cc
  >>=-eq-ok (ok a) next h = (a, refl, h)

  -- The same in the form that a long chain wants: the rest of the proof takes what was found.
  pub >>=-elim {ν} :
      {G : Type ν} {b : B} (m : Result E A) (next : A → Result E B)
      → m >>= next ≡ ok b
      → ((a : A) → m ≡ ok a → next a ≡ ok b → G)
      → G
  >>=-elim (err e) next h k = cc
  >>=-elim (ok a) next h k = k a refl h

-- For a step without a result, as `e?;`.
abbrev pub ◌>>◌ {ℓ μ} : {E : Type ℓ} {B : Type μ} → Result E (Unit {0}) → Result E B → Result E B
err e >> next = err e
ok u >> next = next

-- An early return: `if cond { return Err(e) }`.
abbrev pub fail_if {ℓ} : {E : Type ℓ} → Bool → E → Result E (Unit {0})
fail_if true e = err e
fail_if false e = ok tt

pub Result-cases {ℓ κ} :
    {E : Type ℓ} {A : Type κ} (r : Result E A) → ((e : E) × (r ≡ err e)) ⊎ ((a : A) × (r ≡ ok a))
Result-cases (ok a) = inr (a, refl)
Result-cases (err e) = inl (e, refl)

-- Inversion of a guard that lets through.
pub fail_if-eq-ok {ℓ μ} :
    {E : Type ℓ} {B : Type μ} (t : Bool) (e : E) (m : Result E B) {b : B}
    → (fail_if t e >> m) ≡ ok b
    → (t ≡ false) × (m ≡ ok b)
fail_if-eq-ok false e m h = (refl, h)
fail_if-eq-ok true e m h = cc

pub fail_if-elim {ℓ μ ν} :
    {E : Type ℓ} {B : Type μ} {G : Type ν} (t : Bool) (e : E) (m : Result E B) {b : B}
    → (fail_if t e >> m) ≡ ok b
    → (t ≡ false → m ≡ ok b → G)
    → G
fail_if-elim false e m h k = k refl h
fail_if-elim true e m h k = cc
