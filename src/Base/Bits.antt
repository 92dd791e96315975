-- ===== src/Base/Bits.antt =====
-- The binary digits of words: what `&`, `|`, `~` and shifts of the C code do to each digit.
use Prim.Native.Nat.{
  ℕ, zero, suc, ◌+◌, ◌-◌, ◌*◌, ◌/◌, ◌%◌, ◌^◌, ◌≤◌, ◌<◌, min, max, digits, bit_and, bit_or,
  bit_and-bitwise, bit_or-bitwise,
}
use mathlib.Core.Path.{◌≡◌, refl, ap, ◌∙◌}
use mathlib.Core.Logic.{◌≢◌}
use native.Mathlib.Nat.{two-pow-succ, one-le-pow}
use native.Mathlib.Omega.{arith}

-- Digit `k` of `a`, 0 or 1.
abbrev pub bit : ℕ → ℕ → ℕ
bit a zero = a % 2
bit a (suc k) = bit (a / 2) k

-- The recursion behind the native operations does not depend on its count of digits.
module _ (z : ℕ → ℕ) (f : ℕ → ℕ → ℕ) where
  digits_count : (m n a b : ℕ) → a ≤ m → a ≤ n → digits z f m a b ≡ digits z f n a b
  digits_count zero zero a b p q = refl
  digits_count zero (suc n) zero b p q = refl
  digits_count zero (suc n) (suc a) b p q = absurd (omega arith)
  digits_count (suc m) zero zero b p q = refl
  digits_count (suc m) zero (suc a) b p q = absurd (omega arith)
  digits_count (suc m) (suc n) zero b p q = refl
  digits_count (suc m) (suc n) (suc a) b p q =
      ap (λ (t : ℕ). t * 2 + f (suc a % 2) (b % 2))
        (digits_count m n (suc a / 2) (b / 2) (omega arith) (omega arith))

pub bit_and_split : (a b : ℕ) → bit_and a b ≡ bit_and (a / 2) (b / 2) * 2 + min (a % 2) (b % 2)
bit_and_split zero b = omega (arith, bit_and-bitwise 0 b, bit_and-bitwise (0 / 2) (b / 2))
bit_and_split (suc a) b = omega (
  arith,
  bit_and-bitwise (suc a) b,
  bit_and-bitwise (suc a / 2) (b / 2),
  digits_count (λ y. 0) min a (suc a / 2) (suc a / 2) (b / 2) (omega arith) (omega arith),
)

pub bit_or_split : (a b : ℕ) → bit_or a b ≡ bit_or (a / 2) (b / 2) * 2 + max (a % 2) (b % 2)
bit_or_split zero b = omega (arith, bit_or-bitwise 0 b, bit_or-bitwise (0 / 2) (b / 2))
bit_or_split (suc a) b = omega (
  arith,
  bit_or-bitwise (suc a) b,
  bit_or-bitwise (suc a / 2) (b / 2),
  digits_count (λ y. y) max a (suc a / 2) (suc a / 2) (b / 2) (omega arith) (omega arith),
)

pub zero-bit_and : (b : ℕ) → bit_and 0 b ≡ 0
zero-bit_and b = bit_and-bitwise 0 b

half-bit_and : (a b : ℕ) → bit_and a b / 2 ≡ bit_and (a / 2) (b / 2)
half-bit_and a b = omega (arith, bit_and_split a b)

half-bit_or : (a b : ℕ) → bit_or a b / 2 ≡ bit_or (a / 2) (b / 2)
half-bit_or a b = omega (arith, bit_or_split a b)

pub bit-le-one : (a k : ℕ) → bit a k ≤ 1
bit-le-one a zero = omega arith
bit-le-one a (suc k) = bit-le-one (a / 2) k

pub bit-bit_and : (a b k : ℕ) → bit (bit_and a b) k ≡ min (bit a k) (bit b k)
bit-bit_and a b zero = omega (arith, bit_and_split a b)
bit-bit_and a b (suc k) = ap (λ t. bit t k) (half-bit_and a b) ∙ bit-bit_and (a / 2) (b / 2) k

pub bit-bit_or : (a b k : ℕ) → bit (bit_or a b) k ≡ max (bit a k) (bit b k)
bit-bit_or a b zero = omega (arith, bit_or_split a b)
bit-bit_or a b (suc k) = ap (λ t. bit t k) (half-bit_or a b) ∙ bit-bit_or (a / 2) (b / 2) k

pub bit-zero : (k : ℕ) → bit 0 k ≡ 0
bit-zero zero = refl
bit-zero (suc k) = bit-zero k

half-two-pow : (k : ℕ) → 2 ^ suc k / 2 ≡ 2 ^ k
half-two-pow k = omega (arith, two-pow-succ k)

-- `1 << j` has one digit.
pub bit-two-pow_self : (j : ℕ) → bit (2 ^ j) j ≡ 1
bit-two-pow_self zero = refl
bit-two-pow_self (suc j) = ap (λ t. bit t j) (half-two-pow j) ∙ bit-two-pow_self j

pub bit-two-pow_ne : (j k : ℕ) → j ≢ k → bit (2 ^ j) k ≡ 0
bit-two-pow_ne zero zero h = absurd (h refl)
bit-two-pow_ne zero (suc k) h = bit-zero k
bit-two-pow_ne (suc j) zero h = omega (arith, two-pow-succ j)
bit-two-pow_ne (suc j) (suc k) h =
    ap (λ t. bit t k) (half-two-pow j) ∙ bit-two-pow_ne j k (λ e. h (ap suc e))

-- `~a` on a word of `w` bits.
pub bit-complement : (w a k : ℕ) → a < 2 ^ w → k < w → bit (2 ^ w - 1 - a) k ≡ 1 - bit a k
bit-complement zero a k p q = absurd (omega arith)
bit-complement (suc w) a zero p q = omega (arith, two-pow-succ w)
bit-complement (suc w) a (suc k) p q =
    ap (λ t. bit t k) (omega (arith, two-pow-succ w))
    ∙ bit-complement w (a / 2) k (omega (arith, two-pow-succ w)) (omega arith)

-- A word with no digit is 0.
pub eq-zero_of_bit : (w a : ℕ) → a < 2 ^ w → ((k : ℕ) → k < w → bit a k ≡ 0) → a ≡ 0
eq-zero_of_bit zero a p h = omega arith
eq-zero_of_bit (suc w) a p h = omega (
  arith,
  h 0 (omega arith),
  eq-zero_of_bit w (a / 2) (omega (arith, two-pow-succ w)) (λ k q. h (suc k) (omega arith)),
)

-- Words with the same digits are equal.
pub eq_of_bit : (w a b : ℕ) → a < 2 ^ w → b < 2 ^ w → ((k : ℕ) → k < w → bit a k ≡ bit b k) → a ≡ b
eq_of_bit zero a b p q h = omega arith
eq_of_bit (suc w) a b p q h = omega (
  arith,
  two-pow-succ w,
  h 0 (omega arith),
  eq_of_bit w (a / 2) (b / 2) (omega (arith, two-pow-succ w)) (omega (arith, two-pow-succ w))
      (λ k r. h (suc k) (omega arith)),
)

pub bit_and-lt : (w a b : ℕ) → a < 2 ^ w → bit_and a b < 2 ^ w
bit_and-lt zero a b p =
    let e : a ≡ 0 = omega arith in omega (arith, ap (λ t. bit_and t b) e, zero-bit_and b)
bit_and-lt (suc w) a b p = omega (
  arith,
  two-pow-succ w,
  bit_and_split a b,
  bit_and-lt w (a / 2) (b / 2) (omega (arith, two-pow-succ w)),
)

pub bit_or-lt : (w a b : ℕ) → a < 2 ^ w → b < 2 ^ w → bit_or a b < 2 ^ w
bit_or-lt zero a b p q =
    let e : a ≡ 0 = omega arith in
    let e' : b ≡ 0 = omega arith in omega (arith, ap (λ t. bit_or t b) e, ap (λ t. bit_or 0 t) e')
bit_or-lt (suc w) a b p q = omega (
  arith,
  two-pow-succ w,
  bit_or_split a b,
  bit_or-lt w (a / 2) (b / 2) (omega (arith, two-pow-succ w)) (omega (arith, two-pow-succ w)),
)

-- `f` digits deep there is nothing left of `a`.
bit_and-zero_count : (f a : ℕ) → a ≤ f → bit_and a 0 ≡ 0
bit_and-zero_count zero a h =
    let e : a ≡ 0 = omega arith in ap (λ t. bit_and t 0) e ∙ zero-bit_and 0
bit_and-zero_count (suc f) a h =
    omega (arith, bit_and_split a 0, bit_and-zero_count f (a / 2) (omega arith))

pub bit_and-zero : (a : ℕ) → bit_and a 0 ≡ 0
bit_and-zero a = bit_and-zero_count a a (omega arith)

-- The remainder by twice `p`, from that of the half by `p`.
mod_double : (a p : ℕ) → 0 < p → a % (p + p) ≡ a / 2 % p * 2 + a % 2
mod_double a p h = grind arith

-- A mask of `w` low digits is the remainder.
pub bit_and_mask : (w a : ℕ) → bit_and a (2 ^ w - 1) ≡ a % 2 ^ w
bit_and_mask zero a = omega (arith, bit_and-zero a)
bit_and_mask (suc w) a =
    bit_and_split a (2 ^ suc w - 1)
    ∙ ap (λ (t : ℕ). bit_and (a / 2) t * 2 + min (a % 2) ((2 ^ suc w - 1) % 2)) half
    ∙ omega (
      arith,
      bit_and_mask w (a / 2),
      mod_double a (2 ^ w) (one-le-pow w 2 (omega arith)),
      ap (λ t. a % t) (two-pow-succ w),
      two-pow-succ w,
      one-le-pow w 2,
    )
  where
    half : (2 ^ suc w - 1) / 2 ≡ 2 ^ w - 1
    half = omega (arith, two-pow-succ w)

-- `a & (1 << j)` is digit `j` in its place.
pub bit_and-two-pow : (a j : ℕ) → bit_and a (2 ^ j) ≡ bit a j * 2 ^ j
bit_and-two-pow a zero = omega (arith, bit_and_split a 1, bit_and-zero (a / 2))
bit_and-two-pow a (suc j) =
    bit_and_split a (2 ^ suc j)
    ∙ ap (λ (t : ℕ). bit_and (a / 2) t * 2 + min (a % 2) (2 ^ suc j % 2)) (half-two-pow j)
    ∙ omega (
      arith,
      bit_and-two-pow (a / 2) j,
      two-pow-succ j,
      ap (λ (t : ℕ). bit (a / 2) j * t) (two-pow-succ j),
    )
