-- ===== src/Util/Hex.antt =====
-- Hexadecimal text: `tpm2_util_hex_to_byte_structure` and `tpm2_util_hexdump2` of lib/tpm2_util.c, for
-- pointers that are not NULL and texts whose length an `int` can hold.
pub mod Dump
use tpm2_tools.Base.Bytes.{Bytes}
use tpm2_tools.Base.{
  ℕ, zero, suc, ◌+◌, ◌-◌, ◌*◌, ◌/◌, ◌%◌, Bool, true, false, not, ◌&&◌, List, [], ◌∷◌, ltb, ◌==◌,
  if◌then◌else◌, length,
}
use tpm2_tools.Util.Number.{digit_value, scan_digits}

-- The status: 0 with the new `*byte_length` and the buffer's first bytes, or minus the number here.
pub data HexStatus : Type 0 where
  converted : ℕ → Bytes → HexStatus
  hex_error : ℕ → HexStatus

abbrev pub all_xdigits : Bytes → Bool
all_xdigits [] = true
all_xdigits (c ∷ s) = ltb (digit_value c) 16 && all_xdigits s

-- The conversion loop: strtol(tmp_str, NULL, 16) of two digits each.
unfoldable pub hex_pairs : Bytes → Bytes
unfolding scan_digits
hex_pairs [] = []
hex_pairs (a ∷ []) = []
hex_pairs (a ∷ b ∷ s) = (scan_digits 16 0 0 (a ∷ b ∷ [])).value ∷ hex_pairs s

unfoldable pub hex_to_byte_structure : Bytes → ℕ → HexStatus
unfolding hex_pairs
hex_to_byte_structure input_string byte_length =
    if not (length input_string % 2 == 0)
    then hex_error 2
    else if not (all_xdigits input_string)
    then hex_error 3
    else if ltb byte_length (length input_string / 2)
    then hex_error 4
    else converted (length input_string / 2) (hex_pairs input_string)

-- The digit that "%x" prints.
abbrev pub hex_char : ℕ → ℕ
hex_char d = if ltb d 10 then b'0' + d else b'a' + (d - 10)

-- What `tpm2_util_hexdump2` prints: "%02x" for each byte.
unfoldable pub hexdump2 : Bytes → Bytes
hexdump2 [] = []
hexdump2 (x ∷ bytes) = hex_char (x / 16) ∷ hex_char (x % 16) ∷ hexdump2 bytes
