-- ===== src/Util/Number/Numerals.antt =====
-- The conversions read positional numerals.
use tpm2_tools.Base.Bytes.{Bytes}
use tpm2_tools.Base.{
  ℕ, ◌+◌, ◌-◌, ◌*◌, ◌^◌, ◌≤◌, ◌<◌, ◌≡◌, ◌≢◌, ◌∙◌, true, false, List, [], ◌∷◌, some, arith, ltb,
  if◌then◌else◌, length, All, map,
}
use tpm2_tools.Util.Number.{
  digit_value, scan_digits, number_base, skip_space, signed_number, strtoul_from, strtoul,
  string_to_uint32,
}

-- The number that the digits stand for, behind those that make up `acc`.
abbrev pub number_from : ℕ → ℕ → List ℕ → ℕ
number_from base acc [] = acc
number_from base acc (d ∷ ds) = number_from base (acc * base + d) ds

abbrev pub digit_char : ℕ → ℕ
digit_char d = if ltb d 10 then b'0' + d else b'a' + d - 10

abbrev pub AreDigits : ℕ → List ℕ → Type 0
AreDigits base = All (λ d. d < base)

digit_value-digit_char : (d : ℕ) → d < 36 → digit_value (digit_char d) ≡ d
digit_value-digit_char d h = ground arith

scan_digits-map :
    (base acc n : ℕ) (ds : List ℕ)
    → base ≤ 36
    → AreDigits base ds
    → scan_digits base acc n (map digit_char ds)
      ≡ record { value = number_from base acc ds; count = n + length ds; rest = [] }
unfolding scan_digits
scan_digits-map base acc n [] hb h = ground arith
scan_digits-map base acc n (d ∷ ds) hb h =
    let v = digit_value-digit_char d (omega (arith, h.0)) in
    let more : ltb (digit_value (digit_char d)) base ≡ true = rw v (ground (arith, h.0)) in
    rw more (rw v (scan_digits-map base (acc * base + d) (n + 1) ds hb h.1 ∙ ground arith))

plain_char :
    (d : ℕ)
    → d < 10
    → d ≢ 0
    → (s : Bytes)
    → (skip_space (digit_char d ∷ s) ≡ digit_char d ∷ s)
      × (number_base (digit_char d ∷ s) ≡ (10, digit_char d ∷ s))
plain_char d h ne [] = ground arith
plain_char d h ne (x ∷ []) = ground arith
plain_char d h ne (x ∷ y ∷ s) = ground arith

strtoul_from-digits :
    (str : Bytes) (base d : ℕ) (ds : List ℕ)
    → base ≤ 36
    → AreDigits base (d ∷ ds)
    → number_from base 0 (d ∷ ds) < 2 ^ 32
    → strtoul_from str false (base, map digit_char (d ∷ ds))
      ≡ record { value = number_from base 0 (d ∷ ds); range_error = false; endptr = [] }
unfolding strtoul_from
strtoul_from-digits str base d ds hb h fits =
    rw (scan_digits-map base 0 0 (d ∷ ds) hb h) (ground arith)

signed_number-digit :
    (d : ℕ) (s : Bytes) → d < 10 → signed_number (digit_char d ∷ s) ≡ (false, digit_char d ∷ s)
signed_number-digit d s h = ground arith

-- Where `strtoul` has read all of a text that is not empty, the value is taken if it fits.
string_to_uint32-read :
    (c : ℕ) (s : Bytes) (v : ℕ)
    → strtoul (c ∷ s) ≡ record { value = v; range_error = false; endptr = [] }
    → v < 2 ^ 32
    → string_to_uint32 (c ∷ s) ≡ some v
unfolding string_to_uint32
string_to_uint32-read c s v e h = rw e (ground arith)

-- A decimal numeral with no leading zero is read as its value, if that fits 32 bits.
pub string_to_uint32-decimal :
    (d : ℕ) (ds : List ℕ)
    → d ≢ 0
    → AreDigits 10 (d ∷ ds)
    → number_from 10 0 (d ∷ ds) < 2 ^ 32
    → string_to_uint32 (map digit_char (d ∷ ds)) ≡ some (number_from 10 0 (d ∷ ds))
string_to_uint32-decimal d ds ne h fits =
    let plain = plain_char d h.0 ne (map digit_char ds) in
    let sign = signed_number-digit d (map digit_char ds) h.0 in
    string_to_uint32-read (digit_char d) (map digit_char ds) (number_from 10 0 (d ∷ ds))
      (unfold strtoul in
        rw (plain.0, sign, plain.1) (strtoul_from-digits _ 10 d ds (omega arith) h fits))
      fits

number_base-hex :
    (d : ℕ) (s : Bytes)
    → d < 16
    → number_base (b'0' ∷ b'x' ∷ digit_char d ∷ s) ≡ (16, digit_char d ∷ s)
number_base-hex d s h = ground (arith, digit_value-digit_char d)

-- A hexadecimal numeral behind 0x, with letters in lower case, is read as its value, if that fits 32
-- bits.
pub string_to_uint32-hex :
    (d : ℕ) (ds : List ℕ)
    → AreDigits 16 (d ∷ ds)
    → number_from 16 0 (d ∷ ds) < 2 ^ 32
    → string_to_uint32 (b'0' ∷ b'x' ∷ map digit_char (d ∷ ds)) ≡ some (number_from 16 0 (d ∷ ds))
string_to_uint32-hex d ds h fits =
    string_to_uint32-read b'0' (b'x' ∷ map digit_char (d ∷ ds)) (number_from 16 0 (d ∷ ds))
      (unfold strtoul in
        rw (number_base-hex d (map digit_char ds) h.0)
          (strtoul_from-digits _ 16 d ds (omega arith) h fits))
      fits
