-- ===== src/Alg/Spec.antt =====
-- lib/tpm2_alg_util.c: specifiers such as "ecc256:ecdsa-sha384:aes128cfb", which `handle_ext_alg`
-- writes into a public area. Members of its unions that lie at the same place are one field here:
-- `sym_algorithm` is also the scheme of a keyed hash, `sym_key_bits` that scheme's hash, `sym_mode`
-- its kdf, and `key_bits` the curve of an ECC key.
pub mod Keys
pub mod Objects
pub mod Schemes
pub mod Accepted
use tpm2_tools.Alg.Ids.{
  alg_rsa, alg_hmac, alg_aes, alg_keyedhash, alg_xor, alg_null, alg_rsapss, alg_kdf1_sp800_108,
  alg_ecc, alg_symcipher, alg_camellia, ecc_nist_p192, ecc_nist_p224, ecc_nist_p256, ecc_nist_p384,
  ecc_nist_p521, object_restricted,
}
use tpm2_tools.Alg.Table.{flags_hash, flags_mode, flags_misc}
use tpm2_tools.Alg.{overlap, strtoalg}
use tpm2_tools.Alg.Public.{Public, AlgParserRc, error, continue, done, or_default}
use tpm2_tools.Alg.Scheme.{handle_scheme_sign}
use tpm2_tools.Base.Bytes.{Bytes}
use tpm2_tools.Base.Text.{codes, str_eq, is_prefix, tokens}
use tpm2_tools.Base.{
  ℕ, ◌+◌, Bool, true, false, not, ◌&&◌, ◌||◌, List, [], ◌∷◌, Option, none, some, leb, ◌==◌,
  if◌then◌else◌, length, drop,
}
use tpm2_tools.Errata.{ErrataInfo, tpm2_errata_fixup, spec_116_errata_2_7}

abbrev pub sym_bits : Bytes → Option ℕ
sym_bits ext =
    if is_prefix (codes "128") ext
    then some 128
    else if is_prefix (codes "192") ext
    then some 192
    else if is_prefix (codes "256") ext
    then some 256
    else none

-- `handle_sym_common`, which sets a key size and a mode.
unfoldable pub handle_sym_common : Bytes → Public → AlgParserRc × Public
unfolding strtoalg
handle_sym_common ext p =
    let ext' = or_default (codes "128") ext in
    elim (sym_bits ext') [
      | none ↦ (error, p)
      | some bits ↦
          let mode = strtoalg (or_default (codes "null") (drop 3 ext')) (flags_mode + flags_misc) in
          (if mode == 0 then error else done, record p { sym_key_bits = bits; sym_mode = mode })
    ]

-- The key size that a text begins with, and the rest; without one the default and all of it.
abbrev pub rsa_bits : Bytes → ℕ × Bytes
rsa_bits ext =
    if is_prefix (codes "1024") ext
    then (1024, drop 4 ext)
    else if is_prefix (codes "2048") ext
    then (2048, drop 4 ext)
    else if is_prefix (codes "4096") ext
    then (4096, drop 4 ext)
    else if is_prefix (codes "3072") ext
    then (3072, drop 4 ext)
    else (2048, ext)

abbrev pub consumed : Bytes → AlgParserRc
consumed [] = continue
consumed (c ∷ rest) = error

unfoldable pub handle_rsa : Bytes → Public → AlgParserRc × Public
handle_rsa ext p =
    let (bits, rest) = rsa_bits (or_default (codes "2048") ext) in
    (consumed rest, record p { type = alg_rsa; exponent = 0; key_bits = bits })

abbrev pub ecc_curve : Bytes → ℕ × Bytes
ecc_curve ext =
    if is_prefix (codes "192") ext
    then (ecc_nist_p192, drop 3 ext)
    else if is_prefix (codes "224") ext
    then (ecc_nist_p224, drop 3 ext)
    else if is_prefix (codes "256") ext
    then (ecc_nist_p256, drop 3 ext)
    else if is_prefix (codes "384") ext
    then (ecc_nist_p384, drop 3 ext)
    else if is_prefix (codes "521") ext
    then (ecc_nist_p521, drop 3 ext)
    else (ecc_nist_p256, ext)

unfoldable pub handle_ecc : Bytes → Public → AlgParserRc × Public
handle_ecc ext p =
    let (curve, rest) = ecc_curve (or_default (codes "256") ext) in
    (consumed rest, record p { type = alg_ecc; kdf = alg_null; key_bits = curve })

unfoldable pub handle_aes : Option ErrataInfo → Bytes → Public → AlgParserRc × Public
unfolding handle_sym_common tpm2_errata_fixup
handle_aes this ext p = handle_sym_common ext (record p {
  type = alg_symcipher;
  object_attributes = tpm2_errata_fixup this spec_116_errata_2_7 p.object_attributes;
  sym_algorithm = alg_aes;
})

unfoldable pub handle_camellia : Bytes → Public → AlgParserRc × Public
unfolding handle_sym_common
handle_camellia ext p =
    handle_sym_common ext (record p { type = alg_symcipher; sym_algorithm = alg_camellia })

-- `handle_xor`, `handle_hmac` and `handle_keyedhash` set the scheme of a keyed hash.
abbrev pub keyed_hash : ℕ → Public → Public
keyed_hash scheme p = record p { type = alg_keyedhash; sym_algorithm = scheme }

unfoldable pub handle_object : Option ErrataInfo → Bytes → Public → AlgParserRc × Public
unfolding handle_rsa handle_ecc handle_aes handle_camellia
handle_object this object p =
    if is_prefix (codes "rsa") object
    then handle_rsa (drop 3 object) p
    else if is_prefix (codes "ecc") object
    then handle_ecc (drop 3 object) p
    else if is_prefix (codes "aes") object
    then handle_aes this (drop 3 object) p
    else if is_prefix (codes "camellia") object
    then handle_camellia (drop 8 object) p
    else if str_eq object (codes "hmac")
    then (continue, keyed_hash alg_hmac p)
    else if str_eq object (codes "xor")
    then (continue, keyed_hash alg_xor p)
    else if str_eq object (codes "keyedhash")
    then (done, keyed_hash alg_null p)
    else (error, p)

-- A pointer that is NULL, or a text.
abbrev pub text_or : Bytes → Option Bytes → Bytes
text_or default none = default
text_or default (some text) = or_default default text

unfoldable pub handle_scheme_keyedhash : Option Bytes → Public → AlgParserRc × Public
unfolding strtoalg
handle_scheme_keyedhash scheme p =
    let alg = strtoalg (text_or (codes "sha256") scheme) flags_hash in
    if alg == 0
    then (error, p)
    else if p.sym_algorithm == alg_hmac
    then (done, record p { sym_key_bits = alg })
    else if p.sym_algorithm == alg_xor
    then (done, record p { sym_mode = alg_kdf1_sp800_108; sym_key_bits = alg })
    else (error, p)

-- The scheme's text comes back: `handle_scheme_sign` cuts it off at a dash.
unfoldable pub handle_scheme : Option Bytes → Public → AlgParserRc × (Public × Option Bytes)
unfolding handle_scheme_sign handle_scheme_keyedhash
handle_scheme scheme p =
    if (p.type == alg_rsa) || (p.type == alg_ecc)
    then handle_scheme_sign scheme p
    else if p.type == alg_keyedhash
    then (let (rc, p') = handle_scheme_keyedhash scheme p in (rc, (p', scheme)))
    else (error, (p, scheme))

abbrev pub is_asym : Public → Bool
is_asym p = (p.type == alg_rsa) || (p.type == alg_ecc)

abbrev pub default_detail : Public → Bytes
default_detail p =
    if overlap p.object_attributes object_restricted || (p.scheme == alg_rsapss)
    then codes "aes128cfb"
    else codes "null"

unfoldable pub handle_asym_detail : Option Bytes → Public → AlgParserRc × Public
unfolding handle_sym_common
handle_asym_detail detail p =
    let text = text_or (default_detail p) detail in
    if not (is_asym p)
    then (error, p)
    else if is_prefix (codes "aes") text
    then handle_sym_common (drop 3 text) (record p { sym_algorithm = alg_aes })
    else if is_prefix (codes "camellia") text
    then handle_sym_common (drop 8 text) (record p { sym_algorithm = alg_camellia })
    else if str_eq text (codes "null")
    then (done, record p { sym_algorithm = alg_null })
    else (error, p)

abbrev pub is_set : Option Bytes → Bool
is_set none = false
is_set (some text) = true

abbrev pub is_done : AlgParserRc × Public → Bool × Public
is_done (error, p) = (false, p)
is_done (continue, p) = (false, p)
is_done (done, p) = (true, p)

-- The second round of the loop over scheme and detail, which comes with no scheme, and what follows.
unfoldable pub shuffled : AlgParserRc × (Public × Option Bytes) → Option Bytes → Bool × Public
unfolding handle_asym_detail
shuffled (done, (p, scheme)) detail = (not (is_set detail), p)
shuffled (error, (p, scheme)) detail =
    if is_set detail && is_set scheme then (false, p) else is_done (handle_asym_detail scheme p)
shuffled (continue, (p, scheme)) detail = is_done (handle_asym_detail detail p)

-- The first round.
unfoldable pub after_scheme : AlgParserRc × (Public × Option Bytes) → Option Bytes → Bool × Public
unfolding handle_scheme handle_asym_detail shuffled
after_scheme (done, (p, scheme)) detail = (not (is_set detail), p)
after_scheme (error, (p, scheme)) detail =
    if is_set detail && is_set scheme then (false, p) else shuffled (handle_scheme none p) scheme
after_scheme (continue, (p, scheme)) detail = is_done (handle_asym_detail detail p)

unfoldable pub after_object : AlgParserRc × Public → Option Bytes → Option Bytes → Bool × Public
unfolding handle_scheme after_scheme
after_object (done, p) scheme detail = (not (is_set scheme || is_set detail), p)
after_object (error, p) scheme detail = (false, p)
after_object (continue, p) scheme detail = after_scheme (handle_scheme scheme p) detail

-- `object`, `scheme` and `symdetail`; more tokens are an error.
unfoldable pub handle_tokens : Option ErrataInfo → List Bytes → Public → Bool × Public
unfolding handle_object after_object
handle_tokens this [] p = (false, p)
handle_tokens this (o ∷ []) p = after_object (handle_object this o p) none none
handle_tokens this (o ∷ s ∷ []) p = after_object (handle_object this o p) (some s) none
handle_tokens this (o ∷ s ∷ d ∷ []) p = after_object (handle_object this o p) (some s) (some d)
handle_tokens this (o ∷ s ∷ d ∷ e ∷ rest) p = (false, p)

-- `tpm2_alg_util_handle_ext_alg`, on a text that is not NULL
unfoldable pub handle_ext_alg : Option ErrataInfo → Bytes → Public → Bool × Public
unfolding handle_tokens
handle_ext_alg this alg_spec p =
    if leb 256 (length alg_spec) then (false, p) else handle_tokens this (tokens b':' alg_spec) p
