-- ===== src/Base/Outcome.antt =====
-- What a C function that returns `bool` can do: return true with its results, return false, or leave
-- the defined behaviour of C. `fault` is an access outside an object, or a loop that outruns its fuel;
-- where it is possible, and where it is not, is for theorems to say.
use mathlib.Core.Path.{◌≡◌, refl}
use mathlib.Core.Bool.{Bool, true, false}
use tpm2_tools.Base.Test.{if◌then◌else◌}

pub data Outcome {ℓ} (A : Type ℓ) : Type ℓ where
  ok : A → Outcome A
  refused fault : Outcome A

infixl 5 ◌>>=◌ ◌>>◌
abbrev pub ◌>>=◌ {ℓ κ} : {A : Type ℓ} {B : Type κ} → Outcome A → (A → Outcome B) → Outcome B
ok a >>= f = f a
refused >>= f = refused
fault >>= f = fault

abbrev pub ◌>>◌ {ℓ} : {B : Type ℓ} → Outcome (Unit {0}) → Outcome B → Outcome B
m >> k = m >>= λ _. k

-- `if (b) return false;`
abbrev pub refuse_if : Bool → Outcome (Unit {0})
refuse_if true = refused
refuse_if false = ok tt

-- A call whose result is not looked at.
abbrev pub ignored : Outcome (Unit {0}) → Outcome (Unit {0})
ignored (ok a) = ok a
ignored refused = ok tt
ignored fault = fault

-- The outcome is no fault, and results have `P`.
abbrev pub Ensures {ℓ} : {A : Type ℓ} → (A → Type 0) → Outcome A → Type 0
Ensures P (ok a) = P a
Ensures P refused = Unit
Ensures P fault = ⊥

module _ {ℓ κ} {A : Type ℓ} {B : Type κ} where
  pub Ensures-bind :
      (P : A → Type 0) (Q : B → Type 0) (m : Outcome A) (f : A → Outcome B)
      → Ensures P m
      → ((a : A) → P a → Ensures Q (f a))
      → Ensures Q (m >>= f)
  Ensures-bind P Q (ok a) f h k = k a h
  Ensures-bind P Q refused f h k = tt
  Ensures-bind P Q fault f h k = absurd h

module _ {ℓ} {A : Type ℓ} (P : A → Type 0) where
  pub Ensures-if :
      (b : Bool) (m n : Outcome A)
      → (b ≡ true → Ensures P m)
      → (b ≡ false → Ensures P n)
      → Ensures P (if b then m else n)
  Ensures-if true m n h k = h refl
  Ensures-if false m n h k = k refl

  -- Past a guard its condition is false.
  pub Ensures-refuse_if :
      (b : Bool) (m : Outcome A) → (b ≡ false → Ensures P m) → Ensures P (refuse_if b >> m)
  Ensures-refuse_if true m k = tt
  Ensures-refuse_if false m k = k refl

  -- A read that is known to succeed.
  pub Ensures-ok {κ} :
      {B : Type κ} {m : Outcome B} {b : B} (f : B → Outcome A)
      → m ≡ ok b
      → Ensures P (f b)
      → Ensures P (m >>= f)
  Ensures-ok f e h = rw (e, ◌>>=◌) h

pub Ensures-mono {ℓ} :
    {A : Type ℓ} (P Q : A → Type 0) (m : Outcome A)
    → ((a : A) → P a → Q a)
    → Ensures P m
    → Ensures Q m
Ensures-mono P Q (ok a) f h = f a h
Ensures-mono P Q refused f h = tt
Ensures-mono P Q fault f h = h

pub Ensures-guard : (b : Bool) → Ensures {A = Unit {0}} (λ _. Unit) (refuse_if b)
Ensures-guard true = tt
Ensures-guard false = tt

pub Ensures-guard_ok : (b : Bool) → Ensures {A = Unit {0}} (λ _. Unit) (refuse_if b >> ok tt)
Ensures-guard_ok true = tt
Ensures-guard_ok false = tt

pub Ensures-ignored :
    (P : Unit {0} → Type 0) (m : Outcome (Unit {0})) → Ensures P m → Ensures (λ _. Unit) (ignored m)
Ensures-ignored P (ok a) h = tt
Ensures-ignored P refused h = tt
Ensures-ignored P fault h = absurd h

pub Ensures-ne-fault {ℓ} :
    {A : Type ℓ} (P : A → Type 0) (m : Outcome A) → Ensures P m → ¬ (m ≡ fault)
Ensures-ne-fault P (ok a) h e = cc
Ensures-ne-fault P refused h e = cc
Ensures-ne-fault P fault h e = h
