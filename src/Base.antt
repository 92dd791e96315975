-- ===== src/Base.antt =====
-- Names, notation and lemmas that the components share.
mod Test
mod Array
pub mod Bits
pub mod Outcome
pub mod Bytes
pub mod Text
pub use Test.*
pub use Array.*
pub use Prim.Native.Nat.{ℕ, zero, suc, ◌+◌, ◌-◌, ◌*◌, ◌/◌, ◌%◌, ◌^◌, ◌≤◌, ◌<◌, min, max}
pub use Prim.Native.Nat.{bit_and, bit_or}
pub use mathlib.Core.Path.{◌≡◌, refl, sym, ap, ◌∙◌, subst}
pub use mathlib.Core.Logic.{◌≢◌, ◌↔◌, ◌⊎◌, inl, inr}
pub use mathlib.Core.Bool.{Bool, true, false, not, ◌&&◌, ◌||◌}
pub use mathlib.Core.Option.{Option, none, some}
pub use mathlib.Core.List.{List, [], ◌∷◌, ◌++◌, append-nil, append_assoc, map}
pub use native.Mathlib.Omega.{arith}

-- `n` pieces of a size.
abbrev pub times : ℕ → ℕ → ℕ
times zero size = 0
times (suc n) size = size + times n size

pub take-append_exact :
    {A : Type 0} (n : ℕ) (xs ys : List A) → length xs ≡ n → take n (xs ++ ys) ≡ xs
take-append_exact n xs ys e = ap (λ k. take k (xs ++ ys)) (sym e) ∙ take-append xs ys
