-- ===== src/Prelude/Results.antt =====
-- Results of code that may throw. A transaction that throws is rolled back, so its new state is part
-- of the successful result only.
use mathlib.Core.Path.{◌≡◌, refl, subst}
use mathlib.Core.Bool.{Bool, true, false}
use mathlib.Core.Logic.{◌⊎◌, inl, inr}
use memory_server_worker.Prelude.Tests.{if◌then◌else◌}

pub data Result {ℓ κ} (E : Type ℓ) (A : Type κ) : Type (ℓ ⊔ κ) where
  ok : A → Result E A
  err : E → Result E A

module _ {ℓ κ μ} {E : Type ℓ} {A : Type κ} {B : Type μ} where
  infixl 5 ◌>>=◌
  abbrev pub ◌>>=◌ : Result E A → (A → Result E B) → Result E B
  err thrown >>= rest = err thrown
  ok value >>= rest = rest value

-- `if (bad) reject(e)`
abbrev pub reject_if {ℓ} : {E : Type ℓ} → Bool → E → Result E (Unit {0})
reject_if true e = err e
reject_if false e = ok tt

infixl 5 ◌>>◌
abbrev pub ◌>>◌ {ℓ κ} : {E : Type ℓ} {B : Type κ} → Result E (Unit {0}) → Result E B → Result E B
guarded >> rest = guarded >>= λ _. rest

-- The state after a transaction: what a throwing one wrote is gone.
abbrev pub committed {ℓ κ μ} : {E : Type ℓ} {A : Type κ} {S : Type μ} → S → Result E (A × S) → S
committed s (ok (a, s')) = s'
committed s (err e) = s

-- A step that returned: what it returned, and that the rest of the block returned on it.
pub >>=-eq-ok {ℓ κ μ} :
    {E : Type ℓ} {A : Type κ} {B : Type μ} (step : Result E A) (rest : A → Result E B) {done : B}
    → (step >>= rest) ≡ ok done
    → (value : A) × (step ≡ ok value) × (rest value ≡ ok done)
>>=-eq-ok (err thrown) rest returned = cc
>>=-eq-ok (ok value) rest returned = (value, refl, returned)

ok-injective {ℓ κ} :
    {E : Type ℓ} {A : Type κ} {a b : A} → ◌≡◌ {A = Result E A} (ok a) (ok b) → a ≡ b
ok-injective e = cc

-- What holds of the value, if there is one.
abbrev pub Post {ℓ κ μ} : {E : Type ℓ} {A : Type κ} → (A → Type μ) → Result E A → Type μ
Post P (ok a) = P a
Post P (err e) = Unit

module _ {ℓ κ μ ν} {E : Type ℓ} {A : Type κ} {B : Type μ} (Q : B → Type ν) where
  -- The rest of a `do` block may use that the step before it did not throw.
  pub Post-bind :
      (m : Result E A) (f : A → Result E B) → ((a : A) → m ≡ ok a → Post Q (f a)) → Post Q (m >>= f)
  Post-bind (ok a) f h = h a refl
  Post-bind (err e) f h = tt

module _ {ℓ κ μ} {E : Type ℓ} {A : Type κ} (Q : A → Type μ) where
  pub Post-reject :
      (b : Bool) (e : E) (r : Result E A) → (b ≡ false → Post Q r) → Post Q (reject_if b e >> r)
  Post-reject true e r h = tt
  Post-reject false e r h = h refl

  pub Post-if :
      (b : Bool) (x y : Result E A)
      → (b ≡ true → Post Q x)
      → (b ≡ false → Post Q y)
      → Post Q (if b then x else y)
  Post-if true x y h k = h refl
  Post-if false x y h k = k refl

  pub Post-ok : (r : Result E A) {a : A} → Post Q r → r ≡ ok a → Q a
  Post-ok (ok b) h e = subst Q (ok-injective e) h
  Post-ok (err f) h e = absurd (cc)

pub Result-cases {ℓ κ} :
    {E : Type ℓ} {A : Type κ} (r : Result E A) → ((a : A) × (r ≡ ok a)) ⊎ ((e : E) × (r ≡ err e))
Result-cases (ok a) = inl (a, refl)
Result-cases (err e) = inr (e, refl)
