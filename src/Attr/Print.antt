-- ===== src/Attr/Print.antt =====
-- The way back, from words to attribute lists: `find_first_set` and `tpm2_attr_util_common_attrtostr`
-- of lib/tpm2_attr_util.c, and `tpm2_util_pop_count` of lib/tpm2_util.c.
pub mod FirstSet
use tpm2_tools.Base.Bytes.{Bytes}
use tpm2_tools.Base.Text.{codes}
use tpm2_tools.Base.{
  ℕ, zero, suc, ◌+◌, ◌-◌, ◌*◌, ◌/◌, ◌%◌, ◌^◌, max, bit_and, Bool, true, false, not, List, [], ◌∷◌,
  ◌++◌, ltb, leb, ◌==◌, if◌then◌else◌, length, get_or, get_elem?, Option, none, some,
}
use tpm2_tools.Attr.Table.{Dispatch, nv_attr_table, obj_attr_table}

-- One test of `find_first_set`: where the low `w` bits are clear, they are shifted out and counted.
abbrev pub skip_zeros : ℕ → ℕ × ℕ → ℕ × ℕ
skip_zeros w (n, bits) = if bit_and bits (2 ^ w - 1) == 0 then (n + w, bits / 2 ^ w) else (n, bits)

unfoldable pub find_first_set : ℕ → ℕ
find_first_set bits =
    let (n, rest) = skip_zeros 2 (skip_zeros 4 (skip_zeros 8 (skip_zeros 16 (0, bits)))) in
    if bits == 0 then 0 else if bit_and rest 1 == 0 then n + 1 else n

abbrev bits_per_nibble : List ℕ
bits_per_nibble = 0 ∷ 1 ∷ 1 ∷ 2 ∷ 1 ∷ 2 ∷ 2 ∷ 3 ∷ 1 ∷ 2 ∷ 2 ∷ 3 ∷ 2 ∷ 3 ∷ 3 ∷ 4 ∷ []

-- The loop of `tpm2_util_pop_count` over the bytes of a word, from the lowest.
unfoldable pub pop_count_bytes : ℕ → ℕ → ℕ
pop_count_bytes zero word = 0
pop_count_bytes (suc n) word =
    get_or bits_per_nibble (bit_and (word % 2 ^ 8) 0xf) 0
    + get_or bits_per_nibble (word % 2 ^ 8 / 2 ^ 4) 0
    + pop_count_bytes n (word / 2 ^ 8)

unfoldable pub pop_count : ℕ → ℕ
unfolding pop_count_bytes
pop_count data_word = pop_count_bytes 4 data_word

-- The digits of "%X" for a field of at most eight bits.
abbrev upper_digit : ℕ → ℕ
upper_digit d = if ltb d 10 then b'0' + d else b'A' + (d - 10)

abbrev pub upper_hex : ℕ → Bytes
upper_hex v =
    if ltb v 16 then upper_digit v ∷ [] else upper_digit (v / 16) ∷ upper_digit (v % 16) ∷ []

abbrev pub longest_name : List Dispatch → ℕ
longest_name [] = 0
longest_name (d ∷ table) = max (length d.name) (longest_name table)

-- The text of one field, with the separator where bits are left.
abbrev pub field_text : Dispatch → ℕ → ℕ → Bytes
field_text d field_values attrs =
    (if d.width == 1 then d.name else d.name ++ codes "=0x" ++ upper_hex field_values)
    ++ (if attrs == 0 then [] else codes "|")

-- The name of the table's entry at a bit, and what is left of the word without its field.
abbrev pub field_mask : Dispatch → ℕ
field_mask d = (2 ^ d.width - 1) % 2 ^ 8

abbrev pub clear_field : ℕ → ℕ → ℕ → ℕ
clear_field attrs mask i = bit_and attrs (2 ^ 32 - 1 - mask * 2 ^ i % 2 ^ 32)

-- The loop on fuel: each round clears a bit of the word. `length` is the size of the buffer, of which
-- `str` is written; the text that does not fit is cut, and ends the loop. `none` is an access outside
-- the table, or a loop that outruns its fuel.
abbrev cut : ℕ → Bytes → Bytes
cut zero s = []
cut (suc n) [] = []
cut (suc n) (c ∷ s) = c ∷ cut n s

unfoldable pub attrtostr_loop : ℕ → List Dispatch → ℕ → ℕ → Bytes → Option Bytes
unfolding find_first_set
attrtostr_loop fuel table buffer zero str = some str
attrtostr_loop zero table buffer (suc attrs) str = none
attrtostr_loop (suc fuel) table buffer (suc attrs) str =
    let i = find_first_set (suc attrs) in
    elim (get_elem? table i) [
      | none ↦ none
      | some d ↦
          let mask = field_mask d in
          let value = bit_and (suc attrs) (mask * 2 ^ i % 2 ^ 32) / 2 ^ i % 2 ^ 8 in
          let attrs' = clear_field (suc attrs) mask i in
          let s = field_text d value attrs' in
          let left = buffer - length str in
          let rest = attrtostr_loop fuel table buffer attrs' (str ++ s) in
          if leb left (length s) then some (str ++ cut (left - 1) s) else rest
    ]

-- `tpm2_attr_util_common_attrtostr`, with the size of its buffer
unfoldable pub common_attrtostr : ℕ → List Dispatch → Option Bytes
unfolding attrtostr_loop pop_count
common_attrtostr attrs table =
    let pop_cnt = pop_count attrs in
    if attrs == 0
    then some (codes "<none>")
    else attrtostr_loop 32 table (pop_cnt * longest_name table + pop_cnt - 1 + 3) attrs []

-- `tpm2_attr_util_nv_attrtostr`
unfoldable pub nv_attrtostr : ℕ → Option Bytes
unfolding common_attrtostr nv_attr_table
nv_attrtostr nvattrs = common_attrtostr nvattrs nv_attr_table

-- `tpm2_attr_util_obj_attrtostr`
unfoldable pub obj_attrtostr : ℕ → Option Bytes
unfolding common_attrtostr obj_attr_table
obj_attrtostr objattrs = common_attrtostr objattrs obj_attr_table
