-- ===== src/Alg/Digests.antt =====
-- lib/tpm2_alg_util.c: `pcr_parse_digest_list`, digests for PCRs such as "4:sha1=...,sha256=...".
pub mod Valid
use tpm2_tools.Alg.Optarg.{from_optarg-algtostr}
use tpm2_tools.Alg.Table.{flags_hash}
use tpm2_tools.Alg.{algtostr, from_optarg}
use tpm2_tools.Base.Bytes.{Bytes}
use tpm2_tools.Base.Text.{codes, is_prefix, str_chr, tokens}
use tpm2_tools.Base.{
  ℕ, zero, suc, ◌+◌, ◌-◌, ◌*◌, ◌/◌, ◌≤◌, ◌<◌, Bool, true, false, not, ◌%◌, List, [], ◌∷◌, Option,
  none, some, leb, ltb, ◌==◌, if◌then◌else◌, ◌≡◌, ◌≢◌, refl, sym, ap, ◌∙◌, subst, arith, All,
  length, drop, Bool-cases, inl, inr,
}
use tpm2_tools.EventLog.{get_hash_size}
use tpm2_tools.Pcr.Parse.{pcr_get_id}
use tpm2_tools.Tss
use tpm2_tools.Util.Handle.Permitted.{handle_from_optarg-pcr}
use tpm2_tools.Util.Hex.{
  all_xdigits, HexStatus, converted, hex_error, hex_pairs, hex_to_byte_structure,
}

-- TPMT_HA
pub record HashValue : Type 0 where
  pub hash_alg : ℕ
  pub digest : Bytes

-- `tpm2_pcr_digest_spec`
pub record DigestSpec : Type 0 where
  pub pcr_index : ℕ
  pub digests : List HashValue

-- ARRAY_LEN(dspec->digests.digests)
abbrev pub max_digests : ℕ
max_digests = 16

abbrev pub cons_some : {A : Type 0} → Option A → Option (List A) → Option (List A)
cons_some none rest = none
cons_some (some a) none = none
cons_some (some a) (some rest) = some (a ∷ rest)

-- The digest behind an algorithm, whose leading "0x" is skipped.
abbrev pub strip_0x : Bytes → Bytes
strip_0x text = if is_prefix (codes "0x") text then drop 2 text else text

unfoldable pub sized : ℕ → HexStatus → Option HashValue
unfolding get_hash_size
sized alg (hex_error rc) = none
sized alg (converted size digest) =
    if get_hash_size alg == size then some (record { hash_alg = alg; digest = digest }) else none

unfoldable pub parse_value : Option (Bytes × Bytes) → Option HashValue
unfolding from_optarg hex_to_byte_structure get_hash_size sized
parse_value none = none
parse_value (some (name, text)) =
    let alg = from_optarg name flags_hash in
    if alg == 0 then none else sized alg (hex_to_byte_structure (strip_0x text) (get_hash_size alg))

-- The inner loop, which has `count` digests.
unfoldable pub parse_values : ℕ → List Bytes → Option (List HashValue)
unfolding parse_value
parse_values count [] = some []
parse_values count (tok ∷ toks) =
    let rest = cons_some (parse_value (str_chr b'=' tok)) (parse_values (suc count) toks) in
    if leb max_digests count then none else rest

abbrev pub with_index : Option ℕ → Option (List HashValue) → Option DigestSpec
with_index none values = none
with_index (some pcr) none = none
with_index (some pcr) (some []) = none
with_index (some pcr) (some (v ∷ vs)) = some (record { pcr_index = pcr; digests = v ∷ vs })

unfoldable pub parse_spec : Option (Bytes × Bytes) → Option DigestSpec
unfolding parse_values pcr_get_id
parse_spec none = none
parse_spec (some (index, values)) =
    with_index (pcr_get_id index) (parse_values 0 (tokens b',' values))

unfoldable pub pcr_parse_digest_list : List Bytes → Option (List DigestSpec)
unfolding parse_spec
pcr_parse_digest_list [] = some []
pcr_parse_digest_list (arg ∷ argv) =
    cons_some (parse_spec (str_chr b':' arg)) (pcr_parse_digest_list argv)
