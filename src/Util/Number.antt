-- ===== src/Util/Number.antt =====
-- The conversions of text to numbers of lib/tpm2_util.c, over `strtoul(str, &endptr, 0)`.
pub mod Numerals
use tpm2_tools.Base.Bytes.{Bytes}
use tpm2_tools.Base.Text.{is_prefix}
use tpm2_tools.Base.{
  ℕ, zero, suc, ◌+◌, ◌-◌, ◌*◌, ◌%◌, ◌^◌, Bool, true, false, ◌&&◌, ◌||◌, List, [], ◌∷◌, Option, none,
  some, ltb, leb, ◌==◌, if◌then◌else◌, drop,
}

abbrev is_space : ℕ → Bool
is_space c = c == b' ' || (leb 9 c && leb c 13)

abbrev pub skip_space : Bytes → Bytes
skip_space [] = []
skip_space (c ∷ s) = if is_space c then skip_space s else c ∷ s

-- The value of a digit or letter, 36 for any other character.
abbrev pub digit_value : ℕ → ℕ
digit_value c =
    if leb b'0' c && leb c b'9'
    then c - b'0'
    else if leb b'a' c && leb c b'z'
    then c - b'a' + 10
    else if leb b'A' c && leb c b'Z'
    then c - b'A' + 10
    else 36

-- The digits of a number, how many they are, and what is behind them.
pub record Digits : Type 0 where
  pub value : ℕ
  pub count : ℕ
  pub rest : Bytes

unfoldable pub scan_digits : ℕ → ℕ → ℕ → Bytes → Digits
scan_digits base acc n [] = record { value = acc; count = n; rest = [] }
scan_digits base acc n (c ∷ s) =
    let more = scan_digits base (acc * base + digit_value c) (n + 1) s in
    if ltb (digit_value c) base then more else record { value = acc; count = n; rest = c ∷ s }

-- The base that the prefix of a number chooses, and the number behind it.
abbrev pub number_base : Bytes → ℕ × Bytes
number_base [] = (10, [])
number_base (c ∷ []) = (if c == b'0' then 8 else 10, c ∷ [])
number_base (c ∷ x ∷ []) = (if c == b'0' then 8 else 10, c ∷ x ∷ [])
number_base (c ∷ x ∷ d ∷ s) =
    if c == b'0' && (x == b'x' || x == b'X') && ltb (digit_value d) 16
    then (16, d ∷ s)
    else (if c == b'0' then 8 else 10, c ∷ x ∷ d ∷ s)

-- What `strtoul` returns, leaves in errno (true for ERANGE), and writes to `endptr`.
pub record Strtoul : Type 0 where
  pub value : ℕ
  pub range_error : Bool
  pub endptr : Bytes

abbrev pub ulong_mod : ℕ
ulong_mod = 2 ^ 64

abbrev pub signed_number : Bytes → Bool × Bytes
signed_number [] = (false, [])
signed_number (c ∷ s) =
    if c == b'-' then (true, s) else if c == b'+' then (false, s) else (false, c ∷ s)

-- The number behind sign and prefix, in the base chosen.
pub strtoul_from : Bytes → Bool → ℕ × Bytes → Strtoul
unfolding scan_digits
strtoul_from str negative (base, number) =
    let d = scan_digits base 0 0 number in
    if d.count == 0
    then record { value = 0; range_error = false; endptr = str }
    else if ltb (ulong_mod - 1) d.value
    then record { value = ulong_mod - 1; range_error = true; endptr = d.rest }
    else record {
      value = if negative then (ulong_mod - d.value) % ulong_mod else d.value;
      range_error = false;
      endptr = d.rest;
    }

unfoldable pub strtoul : Bytes → Strtoul
unfolding strtoul_from
strtoul str =
    let (negative, s) = signed_number (skip_space str) in strtoul_from str negative (number_base s)

abbrev pub is_empty : Bytes → Bool
is_empty [] = true
is_empty (_ ∷ _) = false

-- `tpm2_util_string_to_uint32`
unfoldable pub string_to_uint32 : Bytes → Option ℕ
unfolding strtoul
string_to_uint32 str =
    let tmp = strtoul str in
    if is_empty str
    then none
    else if tmp.range_error || ltb (2 ^ 32 - 1) tmp.value
    then none
    else if is_empty tmp.endptr
    then some tmp.value
    else none

abbrev narrow : ℕ → Option ℕ → Option ℕ
narrow max none = none
narrow max (some tmp) = if ltb max tmp then none else some tmp

-- `tpm2_util_string_to_uint8`
unfoldable pub string_to_uint8 : Bytes → Option ℕ
unfolding string_to_uint32
string_to_uint8 str = narrow (2 ^ 8 - 1) (string_to_uint32 str)

-- `tpm2_util_string_to_uint16`
unfoldable pub string_to_uint16 : Bytes → Option ℕ
unfolding string_to_uint32
string_to_uint16 str = narrow (2 ^ 16 - 1) (string_to_uint32 str)

-- `tpm2_util_string_to_uint64`: `strtoull` has 64 bits, so the test against UINT64_MAX never holds.
unfoldable pub string_to_uint64 : Bytes → Option ℕ
unfolding strtoul
string_to_uint64 str =
    let tmp = strtoul str in
    if is_empty str
    then none
    else if tmp.range_error || ltb (2 ^ 64 - 1) tmp.value
    then none
    else if is_empty tmp.endptr
    then some tmp.value
    else none
