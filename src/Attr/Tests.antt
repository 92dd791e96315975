-- ===== src/Attr/Tests.antt =====
-- Attribute lists by example.
use tpm2_tools.Base.Bytes.{Bytes}
use tpm2_tools.Base.Text.{codes, join}
use tpm2_tools.Base.{
  ℕ, ◌+◌, ◌*◌, ◌%◌, ◌^◌, ◌<◌, ◌≡◌, refl, inl, inr, List, [], ◌∷◌, none, some, arith,
}
use tpm2_tools.Attr.{nv_strtoattr, obj_strtoattr}
use tpm2_tools.Attr.Table.{nv_attr_table, obj_attr_table}
use tpm2_tools.Attr.Parse.{Parses, names, nv_strtoattr-flags, obj_strtoattr-flags}
use tpm2_tools.Util.Number.{string_to_uint16}
use tpm2_tools.Attr.Nt.{nt_bit, nv_strtoattr-nt}
use tpm2_tools.Base.Bits.{bit}
use tpm2_tools.Attr.Print.{find_first_set, pop_count, nv_attrtostr}
use tpm2_tools.Attr.Print.FirstSet.{find_first_set-odd}

a_list : nv_strtoattr 0 (codes "ownerread|nt=0x4|authread") ≡ some (2 ^ 17 + 2 ^ 18 + 4 * 2 ^ 4)
unfolding nv_strtoattr
a_list = refl

unknown_is_refused : obj_strtoattr 0 (codes "fixedtpm|fixedtpms") ≡ none
unfolding obj_strtoattr
unknown_is_refused = refl

-- A name may be abbreviated to a prefix, which stands for the first entry that it begins.
prefix_is_accepted : obj_strtoattr 0 (codes "fixed") ≡ some (2 ^ 1)
unfolding obj_strtoattr
prefix_is_accepted = refl

printed : nv_attrtostr (2 ^ 17 + 2 ^ 18 + 1 * 2 ^ 4) ≡ some (codes "nt=0x1|ownerread|authread")
unfolding nv_attrtostr
printed = refl

-- The type 2 has its lowest bit at position 5, from where the field is printed.
misprinted : nv_attrtostr (2 ^ 17 + 2 * 2 ^ 4) ≡ some (codes "nt=0x1|ownerread")
unfolding nv_attrtostr
misprinted = refl

counted : pop_count 0x80010f01 ≡ 7
unfolding pop_count
counted = refl

abbrev nv_names : List (ℕ × Bytes)
nv_names = (1, codes "ownerwrite") ∷ (0, codes "ppwrite") ∷ []

nv_strtoattr-flags_example : Parses nv_names (nv_strtoattr 0 (join b'|' (names nv_names)))
unfolding nv_attr_table
nv_strtoattr-flags_example = nv_strtoattr-flags 0 nv_names (inr (inl refl), (inl refl, tt))

abbrev obj_names : List (ℕ × Bytes)
obj_names = (2, codes "stclear") ∷ (1, codes "fixedtpm") ∷ []

obj_strtoattr-flags_example : Parses obj_names (obj_strtoattr 0 (join b'|' (names obj_names)))
unfolding obj_attr_table
obj_strtoattr-flags_example = obj_strtoattr-flags 0 obj_names (inr (inl refl), (inl refl, tt))

hex_four : string_to_uint16 (codes "0x4") ≡ some 4
unfolding string_to_uint16
hex_four = refl

nv_strtoattr-nt_example :
    (attrs : ℕ) × (nv_strtoattr 0 (codes "ownerwrite|ppwrite|nt=0x4|ownerwrite|ppwrite")
      ≡ some attrs)
    × ((k : ℕ) → k < 32 → bit attrs k ≡ nt_bit 4 nv_names nv_names k)
unfolding nv_attr_table
nv_strtoattr-nt_example =
    nv_strtoattr-nt 0 b'0' 4 (codes "x4") nv_names nv_names (inr (inl refl), (inl refl, tt))
      (inr (inl refl), (inl refl, tt)) ((refl, (refl, (refl, tt))), λ e. absurd (cc e)) hex_four
      (omega arith)

find_first_set-odd_example :
    (find_first_set 0x60 < 32) × (odd : ℕ) × (0x60 ≡ odd * 2 ^ find_first_set 0x60) × (odd % 2 ≡ 1)
find_first_set-odd_example = find_first_set-odd 0x60 (λ e. absurd (omega (arith, e))) (omega arith)
