-- ===== src/Prelude/Actions.antt =====
-- Code that may throw and changes a state, where what was written before a throw stays, with what
-- holds after it. `Results` has the code whose writes are rolled back.
use memory_server_worker.Prelude.Results.{Result, ok, err}
use mathlib.Core.Bool.{Bool, true, false}
use memory_server_worker.Prelude.Tests.{if◌then◌else◌}
use mathlib.Core.Path.{◌≡◌, refl}

abbrev pub Action {ℓ κ} : Type 0 → Type ℓ → Type κ → Type (ℓ ⊔ κ)
Action E S A = S → Result E A × S

module _ {ℓ κ μ} {E : Type 0} {S : Type ℓ} {A : Type κ} {B : Type μ} where
  unfoldable pub continue : (A → Action E S B) → Result E A × S → Result E B × S
  continue rest (err thrown, s) = (err thrown, s)
  continue rest (ok value, s) = rest value s

  infixl 5 ◌>>=◌
  abbrev pub ◌>>=◌ : Action E S A → (A → Action E S B) → Action E S B
  ◌>>=◌ first rest s = continue rest (first s)

infixl 5 ◌>>◌
abbrev pub ◌>>◌ {ℓ κ} :
    {E : Type 0} {S : Type ℓ} {B : Type κ} → Action E S (Unit {0}) → Action E S B → Action E S B
first >> rest = first >>= λ _. rest

abbrev pub return {ℓ κ} : {E : Type 0} {S : Type ℓ} {A : Type κ} → A → Action E S A
return a s = (ok a, s)

unfoldable pub throw_if {ℓ} : {E : Type 0} {S : Type ℓ} → Bool → E → Action E S (Unit {0})
throw_if true e s = (err e, s)
throw_if false e s = (ok tt, s)

-- `try { body } catch { handler }`, where the handler gives what the whole gives.
unfoldable pub recover {ℓ κ} :
    {E : Type 0} {S : Type ℓ} {A : Type κ} → (E → Action E S A) → Result E A × S → Result E A × S
recover handler (ok a, s) = (ok a, s)
recover handler (err e, s) = handler e s

-- Whether the code threw.
unfoldable pub captured {ℓ κ} :
    {E : Type 0} {S : Type ℓ} {A : Type κ} → Result E A × S → Result E Bool × S
captured (ok a, s) = (ok false, s)
captured (err e, s) = (ok true, s)

-- What holds where the code returns, and where it throws.
unfoldable pub After {ℓ κ μ} :
    {E : Type 0} {S : Type ℓ} {A : Type κ}
    → (A → S → Type μ)
    → (S → Type μ)
    → Result E A × S
    → Type μ
After Q F (ok a, s) = Q a s
After Q F (err e, s) = F s

module _ {ℓ μ} {E : Type 0} {S : Type ℓ} (F : S → Type μ) where
  pub After-continue {κ ν} :
      {A : Type κ} {B : Type ν} (P : A → S → Type μ) (Q : B → S → Type μ) (rest : A → Action E S B)
      (m : Result E A × S)
      → After P F m
      → ((a : A) (s : S) → P a s → After Q F (rest a s))
      → After Q F (continue rest m)
  unfolding After continue
  After-continue P Q rest (ok a, s) held goes = goes a s held
  After-continue P Q rest (err e, s) held goes = held

  pub After-throw_if {ν} :
      {B : Type ν} (Q : B → S → Type μ) (b : Bool) (e : E) (rest : Unit {0} → Action E S B) (s : S)
      → F s
      → (b ≡ false → After Q F (rest tt s))
      → After Q F (continue rest (throw_if b e s))
  unfolding After continue throw_if
  After-throw_if Q true e rest s held goes = held
  After-throw_if Q false e rest s held goes = goes refl

  pub After-weaken {κ} :
      {A : Type κ} (P Q : A → S → Type μ) (m : Result E A × S)
      → After P F m
      → ((a : A) (s : S) → P a s → Q a s)
      → After Q F m
  unfolding After
  After-weaken P Q (ok a, s) held more = more a s held
  After-weaken P Q (err e, s) held more = held

  pub After-recover {κ} :
      {A : Type κ} (Q : A → S → Type μ) (handler : E → Action E S A) (m : Result E A × S)
      → After Q F m
      → ((e : E) (s : S) → F s → After Q F (handler e s))
      → After Q F (recover handler m)
  unfolding After recover
  After-recover Q handler (ok a, s) held goes = held
  After-recover Q handler (err e, s) held goes = goes e s held

  pub After-captured {κ} :
      {A : Type κ} (Q : Bool → S → Type μ) (m : Result E A × S)
      → After (λ _ s. Q false s) (Q true) m
      → After Q F (captured m)
  unfolding After captured
  After-captured Q (ok a, s) held = held
  After-captured Q (err e, s) held = held

  -- The rest of a block, after code that keeps something else where it throws.
  pub After-then {κ ν} :
      {A : Type κ} {B : Type ν} (P : A → S → Type μ) (G : S → Type μ) (Q : B → S → Type μ)
      (rest : A → Action E S B) (m : Result E A × S)
      → After P G m
      → ((s : S) → G s → F s)
      → ((a : A) (s : S) → P a s → After Q F (rest a s))
      → After Q F (continue rest m)
  unfolding After continue
  After-then P G Q rest (ok a, s) held fails goes = goes a s held
  After-then P G Q rest (err e, s) held fails goes = fails s held

  -- A guard at the end of a block.
  pub After-guard :
      (Q : Unit {0} → S → Type μ) (b : Bool) (e : E) (s : S)
      → (b ≡ true → F s)
      → (b ≡ false → Q tt s)
      → After Q F (throw_if b e s)
  unfolding After throw_if
  After-guard Q true e s threw passed = threw refl
  After-guard Q false e s threw passed = passed refl

  pub After-if {κ} :
      {A : Type κ} (Q : A → S → Type μ) (b : Bool) (f g : Action E S A) (s : S)
      → (b ≡ true → After Q F (f s))
      → (b ≡ false → After Q F (g s))
      → After Q F ((if b then f else g) s)
  After-if Q true f g s first second = first refl
  After-if Q false f g s first second = second refl

pub After-both {ℓ κ μ} :
    {E : Type 0} {S : Type ℓ} {A : Type κ} {P Q : A → S → Type μ} {G F : S → Type μ}
    (m : Result E A × S)
    → After P G m
    → ((s : S) → G s → F s)
    → ((a : A) (s : S) → P a s → Q a s)
    → After Q F m
unfolding After
After-both (ok a, s) held fails returns = returns a s held
After-both (err e, s) held fails returns = fails s held
