-- ===== src/Capability/Pages.antt =====
-- The pages of a capability put together are its entries.
use tpm2_tools.Base.{
  ℕ, ◌+◌, ◌≤◌, ◌<◌, true, false, List, [], ◌∷◌, ◌++◌, ltb, if◌then◌else◌, ◌≡◌, refl, All, arith,
  Bool-cases, inl, inr,
}
use tpm2_tools.Capability.{Entry, last_key}

-- The entries from a number on, of a list in order.
abbrev pub from : ℕ → List Entry → List Entry
from p [] = []
from p (e ∷ es) = if ltb e.key p then from p es else e ∷ es

abbrev pub IsOrdered : List Entry → Type 0
IsOrdered [] = Unit
IsOrdered (e ∷ es) = All (λ f. e.key < f.key) es × IsOrdered es

from-All : (p : ℕ) (es : List Entry) → All (λ f. p < f.key) es → from (p + 1) es ≡ es
from-All p [] h = refl
from-All p (e ∷ es) (h, hs) = let n : ltb e.key (p + 1) ≡ false = ground arith in rw n refl

-- Behind the last of some entries that a list begins with.
pub from-append :
    (e : Entry) (xs ys : List Entry)
    → IsOrdered ((e ∷ xs) ++ ys)
    → from (last_key (e ∷ xs) + 1) ((e ∷ xs) ++ ys) ≡ ys
from-append e [] ys (h, hs) =
    let n : ltb e.key (e.key + 1) ≡ true = ground arith in rw n (from-All e.key ys h)
from-append e (f ∷ xs) ys (h, hs) =
    let l = last_le f xs ys hs in
    let k = h.0 in
    let n : ltb e.key (last_key (f ∷ xs) + 1) ≡ true = ground arith in rw n (from-append f xs ys hs)
  where
    last_le :
        (g : Entry) (zs us : List Entry) → IsOrdered ((g ∷ zs) ++ us) → g.key ≤ last_key (g ∷ zs)
    last_le g [] us o = omega arith
    last_le g (z ∷ zs) us (o, os) = let l = last_le z zs us os in let k = o.0 in omega arith

pub from-IsOrdered : (p : ℕ) (es : List Entry) → IsOrdered es → IsOrdered (from p es)
from-IsOrdered p [] h = tt
from-IsOrdered p (e ∷ es) (h, hs) = elim (Bool-cases (ltb e.key p)) [
  | inl low ↦ rw low (from-IsOrdered p es hs)
  | inr high ↦ rw high (h, hs)
]

pub from-from : (p q : ℕ) (es : List Entry) → p ≤ q → from q (from p es) ≡ from q es
from-from p q [] h = refl
from-from p q (e ∷ es) h = elim (Bool-cases (ltb e.key p)) [
  | inl low ↦ let n : ltb e.key q ≡ true = ground arith in rw (low, n) (from-from p q es h)
  | inr high ↦ rw high refl
]
