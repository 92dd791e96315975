-- ===== src/Util/Hex/Dump.antt =====
-- What is dumped is read back.
use tpm2_tools.Base.Bytes.{Bytes}
use tpm2_tools.Base.{
  ℕ, ◌+◌, ◌*◌, ◌/◌, ◌%◌, ◌<◌, ◌≡◌, refl, ap, ◌∙◌, true, [], ◌∷◌, ltb, ◌==◌, if◌then◌else◌, length,
  arith, All,
}
use tpm2_tools.Util.Number.{digit_value, scan_digits}
use tpm2_tools.Util.Hex.{
  converted, hex_error, all_xdigits, hex_pairs, hex_to_byte_structure, hex_char, hexdump2,
}

digit_value-hex_char : (d : ℕ) → d < 16 → digit_value (hex_char d) ≡ d
digit_value-hex_char d h = ground arith

abbrev pub AreBytes : Bytes → Type 0
AreBytes = All (λ x. x < 256)

length-hexdump2 : (bytes : Bytes) → length (hexdump2 bytes) ≡ 2 * length bytes
unfolding hexdump2
length-hexdump2 [] = refl
length-hexdump2 (x ∷ bytes) = omega (arith, length-hexdump2 bytes)

hexdump2-all_xdigits : (bytes : Bytes) → AreBytes bytes → all_xdigits (hexdump2 bytes) ≡ true
unfolding hexdump2
hexdump2-all_xdigits [] h = refl
hexdump2-all_xdigits (x ∷ bytes) h =
    let high = digit_value-hex_char (x / 16) (omega (arith, h.0)) in
    let low = digit_value-hex_char (x % 16) (omega arith) in
    rw (high, low, hexdump2-all_xdigits bytes h.1) (ground (arith, h.0))

pair_value :
    (a b x y : ℕ)
    → digit_value a ≡ x
    → digit_value b ≡ y
    → x < 16
    → y < 16
    → (scan_digits 16 0 0 (a ∷ b ∷ [])).value ≡ x * 16 + y
unfolding scan_digits
pair_value a b x y ha hb hx hy = rw (ha, hb) (ground arith)

hex_pairs-hexdump2 : (bytes : Bytes) → AreBytes bytes → hex_pairs (hexdump2 bytes) ≡ bytes
unfolding hexdump2 hex_pairs
hex_pairs-hexdump2 [] h = refl
hex_pairs-hexdump2 (x ∷ bytes) h =
    let high = digit_value-hex_char (x / 16) (omega (arith, h.0)) in
    let low = digit_value-hex_char (x % 16) (omega arith) in
    rw (hex_pairs-hexdump2 bytes h.1) (
      ap (λ v. v ∷ bytes)
        (pair_value (hex_char (x / 16)) (hex_char (x % 16)) (x / 16) (x % 16) high low
            (omega (arith, h.0)) (omega arith)
          ∙ omega arith))

-- The hexadecimal dump of bytes, each below 256, is converted back to these bytes if the buffer
-- has room for them, and is refused with -4 if not.
pub hex_to_byte_structure-hexdump2 :
    (bytes : Bytes) (byte_length : ℕ)
    → AreBytes bytes
    → hex_to_byte_structure (hexdump2 bytes) byte_length
      ≡ (if ltb byte_length (length bytes) then hex_error 4 else converted (length bytes) bytes)
unfolding hex_to_byte_structure
hex_to_byte_structure-hexdump2 bytes byte_length h =
    rw (hexdump2-all_xdigits bytes h, hex_pairs-hexdump2 bytes h, length-hexdump2 bytes)
      (let even : (2 * length bytes % 2 == 0) ≡ true = ground arith in
        let half : 2 * length bytes / 2 ≡ length bytes = omega arith in rw (even, half) refl)
