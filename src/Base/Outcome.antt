-- ===== src/Base/Outcome.antt =====
-- Rust's `Result<A, E>` with its `?` operator as the bind of a `do` block.
use mathlib.Core.Path.{◌≡◌, refl}
use mathlib.Core.Logic.{◌⊎◌, inl, inr}
use mathlib.Core.Bool.{Bool, true, false}
use mathlib.Core.Option.{Option, none, some}

pub data Result {ℓ κ} (E : Type κ) (A : Type ℓ) : Type (ℓ ⊔ κ) where
  ok : A → Result E A
  err : E → Result E A

module _ {κ} {E : Type κ} where
  abbrev pub ◌>>=◌ {ℓ ν} : {T : Type ℓ} {U : Type ν} → Result E T → (T → Result E U) → Result E U
  err reason >>= next = err reason
  ok value >>= next = next value

  abbrev pub ◌>>◌ {ν} : {U : Type ν} → Result E (Unit {0}) → Result E U → Result E U
  first >> next = first >>= λ _. next

  infixl 5 ◌>>=◌ ◌>>◌
  -- `if b { return Err(e) }`
  abbrev pub fail_if : Bool → E → Result E (Unit {0})
  fail_if true e = err e
  fail_if false e = ok tt

  abbrev pub ok_or {ℓ} : {A : Type ℓ} → Option A → E → Result E A
  ok_or none e = err e
  ok_or (some a) e = ok a

  pub fail_if-eq_ok : (b : Bool) (e : E) → fail_if b e ≡ ok tt → b ≡ false
  fail_if-eq_ok true e h = cc
  fail_if-eq_ok false e h = refl

  -- a guard that let the rest run
  pub fail_if-passed {ℓ} :
      {B : Type ℓ} (b : Bool) (e : E) (m : Result E B) {x : B}
      → (fail_if b e >> m) ≡ ok x
      → (b ≡ false) × (m ≡ ok x)
  fail_if-passed true e m h = cc
  fail_if-passed false e m h = (refl, h)

  -- a run to the end passed its first part
  pub >>=-eq-ok {ℓ ν} :
      {T : Type ℓ} {U : Type ν} (first : Result E T) (next : T → Result E U) {u : U}
      → (first >>= next) ≡ ok u
      → (t : T) × (first ≡ ok t) × (next t ≡ ok u)
  >>=-eq-ok (err reason) next ran = cc
  >>=-eq-ok (ok t) next ran = (t, refl, ran)

  pub Result-cases {ℓ} :
      {A : Type ℓ} (m : Result E A) → ((a : A) × (m ≡ ok a)) ⊎ ((e : E) × (m ≡ err e))
  Result-cases (ok a) = inl (a, refl)
  Result-cases (err e) = inr (e, refl)
