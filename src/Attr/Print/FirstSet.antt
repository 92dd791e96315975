-- ===== src/Attr/Print/FirstSet.antt =====
-- What the search for the lowest bit finds.
use native.Mathlib.Nat.{mod-add-div', pow-suc, mul_assoc, mul_comm}
use tpm2_tools.Base.Bits.{bit_and_mask}
use tpm2_tools.Base.{
  ℕ, zero, suc, ◌+◌, ◌-◌, ◌*◌, ◌/◌, ◌%◌, ◌^◌, ◌≤◌, ◌<◌, bit_and, ◌≡◌, ◌≢◌, refl, sym, ap, ◌∙◌,
  arith, ◌==◌, Bool-cases, inl, inr,
}
use tpm2_tools.Attr.Print.{skip_zeros, find_first_set}

-- A state of the search for the lowest bit of `word`: `n` zeros are found, and a set bit is among the
-- low bits of `bits`, which `m` is 2 to the number of.
abbrev Among : ℕ → ℕ → ℕ × ℕ → Type 0
Among word m (n, bits) = (bits * 2 ^ n ≡ word) × (bits % m ≢ 0)

two-pow-add : (n w : ℕ) → 2 ^ (n + w) ≡ 2 ^ n * 2 ^ w
two-pow-add n zero = ap (λ k. 2 ^ k) plain ∙ omega arith
  where
    plain : n + 0 ≡ n
    plain = omega arith
two-pow-add n (suc w) =
    ap (λ k. 2 ^ k) next
    ∙ pow-suc 2 (n + w)
    ∙ ap (λ p. p * 2) (two-pow-add n w)
    ∙ mul_assoc (2 ^ n) (2 ^ w) 2
    ∙ ap (λ p. 2 ^ n * p) (sym (pow-suc 2 w))
  where
    next : n + suc w ≡ suc (n + w)
    next = omega arith

skip_zeros-same :
    (w n bits : ℕ) → let (n', bits') = skip_zeros w (n, bits) in bits' * 2 ^ n' ≡ bits * 2 ^ n
skip_zeros-same w n bits = elim (Bool-cases (bit_and bits (2 ^ w - 1) == 0)) [
  | inl clear ↦
      let low : bits % 2 ^ w ≡ 0 = ground (arith, bit_and_mask w bits) in
      let whole : bits / 2 ^ w * 2 ^ w ≡ bits = omega (arith, low, mod-add-div' bits (2 ^ w)) in
      rw clear (
        ap (λ p. bits / 2 ^ w * p) (two-pow-add n w ∙ mul_comm (2 ^ n) (2 ^ w))
        ∙ sym (mul_assoc (bits / 2 ^ w) (2 ^ w) (2 ^ n))
        ∙ ap (λ b. b * 2 ^ n) whole)
  | inr set_below ↦ rw set_below refl
]

module _ (word n bits : ℕ) where
  half_16 : Among word (2 ^ 32) (n, bits) → Among word (2 ^ 16) (skip_zeros 16 (n, bits))
  half_16 h = (skip_zeros-same 16 n bits ∙ h.0, ground (arith, bit_and_mask 16 bits, h.1))

  half_8 : Among word (2 ^ 16) (n, bits) → Among word (2 ^ 8) (skip_zeros 8 (n, bits))
  half_8 h = (skip_zeros-same 8 n bits ∙ h.0, ground (arith, bit_and_mask 8 bits, h.1))

  half_4 : Among word (2 ^ 8) (n, bits) → Among word (2 ^ 4) (skip_zeros 4 (n, bits))
  half_4 h = (skip_zeros-same 4 n bits ∙ h.0, ground (arith, bit_and_mask 4 bits, h.1))

  half_2 : Among word (2 ^ 4) (n, bits) → Among word (2 ^ 2) (skip_zeros 2 (n, bits))
  half_2 h = (skip_zeros-same 2 n bits ∙ h.0, ground (arith, bit_and_mask 2 bits, h.1))

  half_1 : Among word (2 ^ 2) (n, bits) → Among word 2 (skip_zeros 1 (n, bits))
  half_1 h = (skip_zeros-same 1 n bits ∙ h.0, ground (arith, bit_and_mask 1 bits, h.1))

skip_zeros-le : (w n bits : ℕ) → (skip_zeros w (n, bits)).0 ≤ n + w
skip_zeros-le w n bits = ground arith

-- The state after the tests of 16, 8, 4 and 2 bits.
abbrev searched : ℕ → ℕ × ℕ
searched bits = skip_zeros 2 (skip_zeros 4 (skip_zeros 8 (skip_zeros 16 (0, bits))))

searched-Among : (bits : ℕ) → bits ≢ 0 → bits < 2 ^ 32 → Among bits (2 ^ 2) (searched bits)
searched-Among bits ne h =
    let s16 = skip_zeros 16 (0, bits) in
    let s8 = skip_zeros 8 s16 in
    let s4 = skip_zeros 4 s8 in
    half_2 bits s4.0 s4.1 (
      half_4 bits s8.0 s8.1
        (half_8 bits s16.0 s16.1 (half_16 bits 0 bits (omega arith, omega arith))))

searched-le : (bits : ℕ) → (searched bits).0 ≤ 30
searched-le bits =
    let s16 = skip_zeros 16 (0, bits) in
    let s8 = skip_zeros 8 s16 in
    let s4 = skip_zeros 4 s8 in
    omega (
      arith,
      skip_zeros-le 16 0 bits,
      skip_zeros-le 8 s16.0 s16.1,
      skip_zeros-le 4 s8.0 s8.1,
      skip_zeros-le 2 s4.0 s4.1,
    )

find_first_set-skip_zeros :
    (bits : ℕ) → bits ≢ 0 → find_first_set bits ≡ (skip_zeros 1 (searched bits)).0
unfolding find_first_set
find_first_set-skip_zeros bits ne = ground arith

-- For a word that is not 0, `find_first_set` is the position of its lowest set bit: the word is an
-- odd multiple of that power of 2, and the position is below 32.
pub find_first_set-odd :
    (bits : ℕ)
    → bits ≢ 0
    → bits < 2 ^ 32
    → (find_first_set bits < 32)
      × (odd : ℕ) × (bits ≡ odd * 2 ^ find_first_set bits)
      × (odd % 2 ≡ 1)
find_first_set-odd bits ne h =
    let s = searched bits in
    let (same, odd) = half_1 bits s.0 s.1 (searched-Among bits ne h) in
    rw (find_first_set-skip_zeros bits ne) (
      omega (arith, searched-le bits, skip_zeros-le 1 s.0 s.1),
      (skip_zeros 1 s).1,
      sym same,
      omega (arith, odd),
    )
