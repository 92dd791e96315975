-- ===== src/Files/Operation.antt =====
-- Operations on a stream: what they give, and the stream behind them.
use tpm2_tools.Base.Outcome.{Outcome, ok, refused, fault}
use tpm2_tools.Base.{Bool, true, false}

abbrev pub Io : Type 0 → Type 0 → Type 0
Io F A = F → Outcome A × F

module _ {F : Type 0} where
  abbrev pub give : {A : Type 0} → A → Io F A
  give a = λ f. (ok a, f)

  abbrev pub refuse : {A : Type 0} → Io F A
  refuse = λ f. (refused, f)

  abbrev pub run_out : {A : Type 0} → Io F A
  run_out = λ f. (fault, f)

  abbrev pub check : {A : Type 0} → Bool → A → Io F A
  check true a = give a
  check false a = refuse

  abbrev pub must : Bool → Io F (Unit {0})
  must b = check b tt

  abbrev pub next : {A B : Type 0} → Outcome A × F → (A → Io F B) → Outcome B × F
  next (ok a, f) k = k a f
  next (refused, f) k = (refused, f)
  next (fault, f) k = (fault, f)

infixr 5 ◌>>=◌ ◌>>◌
abbrev pub ◌>>=◌ : {F A B : Type 0} → Io F A → (A → Io F B) → Io F B
m >>= k = λ f. next (m f) k

abbrev pub ◌>>◌ : {F B : Type 0} → Io F (Unit {0}) → Io F B → Io F B
m >> k = m >>= λ _. k

-- The operation succeeds, with a result and a stream that have `P`.
abbrev pub Gives : {F A : Type 0} → (A → F → Type 0) → Outcome A × F → Type 0
Gives P (ok a, f) = P a f
Gives P (refused, f) = ⊥
Gives P (fault, f) = ⊥

module _ {F A B : Type 0} where
  pub Gives-bind :
      (P : A → F → Type 0) (Q : B → F → Type 0) (m : Io F A) (k : A → Io F B) (f : F)
      → Gives P (m f)
      → ((a : A) (f' : F) → P a f' → Gives Q (k a f'))
      → Gives Q ((m >>= k) f)
  Gives-bind P Q m k f h n = on (m f) h
    where
      on : (r : Outcome A × F) → Gives P r → Gives Q (next r k)
      on (ok a, f') h' = n a f' h'
      on (refused, f') h' = absurd h'
      on (fault, f') h' = absurd h'

pub Gives-mono :
    {F A : Type 0} (P Q : A → F → Type 0) (r : Outcome A × F)
    → ((a : A) (f : F) → P a f → Q a f)
    → Gives P r
    → Gives Q r
Gives-mono P Q (ok a, f) k h = k a f h
Gives-mono P Q (refused, f) k h = h
Gives-mono P Q (fault, f) k h = h
