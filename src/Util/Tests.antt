-- ===== src/Util/Tests.antt =====
-- Numbers, hexadecimal text and handles by example.
use tpm2_tools.Util.Endian.{hton, mem_bytes, hton-be_bytes}
use tpm2_tools.Base.Bytes.{be_bytes}
use tpm2_tools.Base.Bytes.{Bytes}
use tpm2_tools.Base.Text.{codes}
use tpm2_tools.Base.{
  false, ◌≤◌, ◌≡◌, refl, [], ◌∷◌, none, some, arith, ltb, if◌then◌else◌, length, map,
}
use tpm2_tools.Util.Handle.{flags_nv, flags_pcr, handle_from_optarg}
use tpm2_tools.Util.Handle.Permitted.{
  IsPermitted, handle_from_optarg-IsPermitted, handle_from_optarg-pcr,
}
use tpm2_tools.Util.Hex.{converted, hex_error, hexdump2, hex_to_byte_structure}
use tpm2_tools.Util.Hex.Dump.{hex_to_byte_structure-hexdump2}
use tpm2_tools.Util.Number.{string_to_uint8, string_to_uint32}
use tpm2_tools.Util.Number.Numerals.{
  digit_char, number_from, string_to_uint32-decimal, string_to_uint32-hex,
}
use tpm2_tools.Tss

octal : string_to_uint32 (codes "010") ≡ some 8
unfolding string_to_uint32
octal = refl

minus_one_is_refused : string_to_uint32 (codes "-1") ≡ none
unfolding string_to_uint32
minus_one_is_refused = refl

too_big_for_uint8 : string_to_uint8 (codes "256") ≡ none
unfolding string_to_uint8
too_big_for_uint8 = refl

string_to_uint32-decimal_example :
    string_to_uint32 (map digit_char (4 ∷ 0 ∷ 9 ∷ 6 ∷ []))
    ≡ some (number_from 10 0 (4 ∷ 0 ∷ 9 ∷ 6 ∷ []))
string_to_uint32-decimal_example =
    string_to_uint32-decimal 4 (0 ∷ 9 ∷ 6 ∷ []) (λ e. absurd (omega (arith, e)))
      (omega arith, (omega arith, (omega arith, (omega arith, tt)))) (omega arith)

string_to_uint32-hex_example :
    string_to_uint32 (b'0' ∷ b'x' ∷ map digit_char (8 ∷ 1 ∷ 15 ∷ []))
    ≡ some (number_from 16 0 (8 ∷ 1 ∷ 15 ∷ []))
string_to_uint32-hex_example =
    string_to_uint32-hex 8 (1 ∷ 15 ∷ []) (omega arith, (omega arith, (omega arith, tt)))
      (omega arith)

abbrev few_bytes : Bytes
few_bytes = 0 ∷ 31 ∷ 255 ∷ []

dump : hexdump2 few_bytes ≡ codes "001fff"
unfolding hexdump2
dump = refl

hex_to_byte_structure-hexdump2_example :
    hex_to_byte_structure (hexdump2 few_bytes) 4
    ≡ (if ltb 4 (length few_bytes) then hex_error 4 else converted (length few_bytes) few_bytes)
hex_to_byte_structure-hexdump2_example =
    hex_to_byte_structure-hexdump2 few_bytes 4 (omega arith, (omega arith, (omega arith, tt)))

nv_index_1 : handle_from_optarg (codes "1") flags_nv ≡ some 0x01000001
unfolding handle_from_optarg
nv_index_1 = refl

pcr_16 : handle_from_optarg (codes "16") flags_pcr ≡ some 16
unfolding handle_from_optarg
pcr_16 = refl

handle_from_optarg-IsPermitted_example : IsPermitted flags_nv 0x01000001
handle_from_optarg-IsPermitted_example =
    handle_from_optarg-IsPermitted (codes "1") flags_nv 0x01000001 nv_index_1

handle_from_optarg-pcr_example : 16 ≤ Tss.pcr_last
handle_from_optarg-pcr_example = handle_from_optarg-pcr (codes "16") 16 pcr_16

hton-be_bytes_example :
    (mem_bytes false 4 (hton false 4 0x80000001) ≡ be_bytes 4 0x80000001)
    × (hton false 4 (hton false 4 0x80000001) ≡ 0x80000001)
hton-be_bytes_example = hton-be_bytes false 4 0x80000001 (omega arith)
