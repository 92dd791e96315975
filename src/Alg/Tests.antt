-- ===== src/Alg/Tests.antt =====
-- Names of algorithms and specifiers by example.
use tpm2_tools.Alg.Digests.Valid.{IsSpec, pcr_parse_digest_list-IsSpec}
use tpm2_tools.Alg.Digests.{
  DigestSpec, sized, parse_value, parse_values, parse_spec, pcr_parse_digest_list,
}
use tpm2_tools.EventLog.{get_hash_size}
use tpm2_tools.Pcr.Parse.{pcr_get_id}
use tpm2_tools.Util.Handle.{handle_from_optarg}
use tpm2_tools.Util.Hex.{hex_pairs, hex_to_byte_structure}
use tpm2_tools.Alg.Ids.{object_decrypt, object_sign_encrypt}
use tpm2_tools.Alg.Names.{algtostr-strtoalg}
use tpm2_tools.Alg.Optarg.{from_optarg-algtostr}
use tpm2_tools.Alg.Public.{Public}
use tpm2_tools.Alg.Scheme.{
  match_ecc, match_rsa, turn_down, set_hash, with_count, match_scheme, sign_text,
  handle_scheme_sign,
}
use tpm2_tools.Alg.Spec.Accepted.{handle_ext_alg-is_key}
use tpm2_tools.Alg.Spec.Keys.{is_key}
use tpm2_tools.Alg.Spec.{
  handle_sym_common, handle_rsa, handle_ecc, handle_aes, handle_camellia, handle_object,
  handle_scheme_keyedhash, handle_scheme, handle_asym_detail, shuffled, after_scheme, after_object,
  handle_tokens, handle_ext_alg,
}
use tpm2_tools.Alg.Table.{algs, flags_hash}
use tpm2_tools.Alg.{from_optarg, strtoalg, algtostr, algtoflags, for_each_alg, find_match}
use tpm2_tools.Base.Bytes.{Bytes}
use tpm2_tools.Base.Text.{codes}
use tpm2_tools.Base.{
  ℕ, ◌+◌, Bool, true, false, none, some, List, [], ◌∷◌, All, length, ◌≡◌, ◌≢◌, refl,
}
use tpm2_tools.Util.Number.{string_to_uint16, string_to_uint32}

algtostr-strtoalg_example :
    (algtostr 11 flags_hash ≡ some (codes "sha256") → strtoalg (codes "sha256") flags_hash ≡ 11)
    × (strtoalg (codes "sha256") flags_hash ≡ 11
        → ◌≢◌ {A = ℕ} 11 0
        → algtostr 11 flags_hash ≡ some (codes "sha256"))
algtostr-strtoalg_example = algtostr-strtoalg flags_hash 11 (codes "sha256")

-- An empty public area of a key that may sign and decrypt.
abbrev blank : Public
blank = record {
  type = 0;
  object_attributes = object_sign_encrypt + object_decrypt;
  sym_algorithm = 0;
  sym_key_bits = 0;
  sym_mode = 0;
  scheme = 0;
  hash_alg = 0;
  count = 0;
  key_bits = 0;
  exponent = 0;
  kdf = 0;
}

run : Bytes → Bool × Public
unfolding strtoalg algtoflags for_each_alg find_match algs string_to_uint16 string_to_uint32
    match_ecc match_rsa turn_down set_hash with_count match_scheme sign_text handle_scheme_sign
    handle_sym_common handle_rsa handle_ecc handle_aes handle_camellia handle_object
    handle_scheme_keyedhash handle_scheme handle_asym_detail shuffled after_scheme after_object
    handle_tokens handle_ext_alg
run spec = handle_ext_alg none spec blank

runs_ecc : (run (codes "ecc384:ecdsa-sha384:aes256cfb")).0 ≡ true
unfolding run
runs_ecc = refl

runs_bits : (run (codes "ecc384:ecdsa-sha384:aes256cfb")).1.sym_key_bits ≡ 256
unfolding run
runs_bits = refl

-- A detail is cut off at a dash when it stands in the place of the scheme.
runs_cut : (run (codes "rsa2048:aes128cfb-unheard_of")).0 ≡ true
unfolding run
runs_cut = refl

-- Nothing is asked of the text behind a scheme's name.
runs_tail : (run (codes "ecc256:ecdsaunheard_of")).0 ≡ true
unfolding run
runs_tail = refl

runs_oaep : (run (codes "rsa2048:oaep")).0 ≡ false
unfolding run
runs_oaep = refl

runs_ecdaa : (run (codes "ecc256:ecdaa")).1.count ≡ 0
unfolding run
runs_ecdaa = refl

runs_rsa : (handle_ext_alg none (codes "rsa2048") blank).0 ≡ true
unfolding run
runs_rsa = refl

handle_ext_alg-is_key_example : is_key (handle_ext_alg none (codes "rsa2048") blank).1 ≡ true
handle_ext_alg-is_key_example = handle_ext_alg-is_key none (codes "rsa2048") blank runs_rsa

from_optarg-algtostr_example :
    (algtostr 11 flags_hash ≡ some (codes "0xb") → from_optarg (codes "0xb") flags_hash ≡ 11)
    × (◌≢◌ {A = ℕ} (from_optarg (codes "0xb") flags_hash) 0
        → ¬ (algtostr (from_optarg (codes "0xb") flags_hash) flags_hash ≡ none))
from_optarg-algtostr_example = from_optarg-algtostr flags_hash 11 (codes "0xb")

abbrev sha1_digest : Bytes
sha1_digest =
    0xf1 ∷ 0xd2 ∷ 0xd2 ∷ 0xf9 ∷ 0x24 ∷ 0xe9 ∷ 0x86 ∷ 0xac ∷ 0x86 ∷ 0xfd ∷ 0xf7 ∷ 0xb3 ∷ 0x6c ∷ 0x94
    ∷ 0xbc ∷ 0xdf ∷ 0x32 ∷ 0xbe ∷ 0xec ∷ 0x15 ∷ []

abbrev specs_4 : List DigestSpec
specs_4 =
    record { pcr_index = 4; digests = record { hash_alg = 4; digest = sha1_digest } ∷ [] } ∷ []

abbrev specs_7 : List DigestSpec
specs_7 = record { pcr_index = 7; digests = record { hash_alg = 5; digest = [] } ∷ [] } ∷ []

abbrev digest_4 : Bytes
digest_4 = codes "4:sha1=f1d2d2f924e986ac86fdf7b36c94bcdf32beec15"

sha1_is_accepted : pcr_parse_digest_list (digest_4 ∷ []) ≡ some specs_4
unfolding pcr_parse_digest_list parse_spec parse_values parse_value sized get_hash_size from_optarg
    string_to_uint16 string_to_uint32 strtoalg for_each_alg find_match algs hex_to_byte_structure
    hex_pairs pcr_get_id handle_from_optarg
sha1_is_accepted = refl

-- An algorithm that is no hash has digests of no bytes.
keyed_is_accepted : pcr_parse_digest_list (codes "7:hmac=" ∷ []) ≡ some specs_7
unfolding pcr_parse_digest_list parse_spec parse_values parse_value sized get_hash_size from_optarg
    string_to_uint16 string_to_uint32 strtoalg for_each_alg find_match algs hex_to_byte_structure
    hex_pairs pcr_get_id handle_from_optarg
keyed_is_accepted = refl

pcr_parse_digest_list-IsSpec_example :
    (length specs_4 ≡ length (digest_4 ∷ [])) × All IsSpec specs_4
pcr_parse_digest_list-IsSpec_example =
    pcr_parse_digest_list-IsSpec (digest_4 ∷ []) specs_4 sha1_is_accepted
