-- ===== src/Alg/Scheme.antt =====
-- lib/tpm2_alg_util.c: `handle_scheme_sign`, the scheme of an asymmetric key such as "ecdaa4-sha256".
use tpm2_tools.Alg.Ids.{
  alg_null, alg_rsassa, alg_rsaes, alg_rsapss, alg_oaep, alg_ecdsa, alg_ecdh, alg_ecdaa,
  alg_ecschnorr, alg_ecc, object_decrypt, object_sign_encrypt,
}
use tpm2_tools.Alg.Public.{Public, AlgParserRc, error, continue, or_default}
use tpm2_tools.Alg.Table.{flags_hash, flags_sig}
use tpm2_tools.Alg.{overlap, strtoalg, algtoflags}
use tpm2_tools.Base.Bytes.{Bytes}
use tpm2_tools.Base.Text.{codes, str_eq, is_prefix, str_chr}
use tpm2_tools.Base.{ℕ, ◌+◌, Option, none, some, ◌==◌, if◌then◌else◌, drop}
use tpm2_tools.Errata.{clear_flags}
use tpm2_tools.Util.Number.{string_to_uint16}

-- How a text matches: not at all; "null" where that is no match; a scheme without a hash; a scheme
-- with a hash, and the text behind its name.
pub data SchemeMatch : Type 0 where
  no_match : SchemeMatch
  sets_null : SchemeMatch
  exact : ℕ → SchemeMatch
  hashed : ℕ → Bytes → SchemeMatch

unfoldable pub match_ecc : Bytes → SchemeMatch
match_ecc s =
    if is_prefix (codes "oaep") s
    then hashed alg_oaep (drop 4 s)
    else if is_prefix (codes "ecdsa") s
    then hashed alg_ecdsa (drop 5 s)
    else if is_prefix (codes "ecdh") s
    then hashed alg_ecdh (drop 4 s)
    else if is_prefix (codes "ecschnorr") s
    then hashed alg_ecschnorr (drop 9 s)
    else if is_prefix (codes "ecdaa") s
    then hashed alg_ecdaa (drop 5 s)
    else if str_eq (codes "null") s
    then sets_null
    else no_match

unfoldable pub match_rsa : Bytes → SchemeMatch
match_rsa s =
    if str_eq s (codes "rsaes")
    then exact alg_rsaes
    else if str_eq (codes "null") s
    then exact alg_null
    else if is_prefix (codes "rsapss") s
    then hashed alg_rsapss (drop 6 s)
    else if is_prefix (codes "rsassa") s
    then hashed alg_rsassa (drop 6 s)
    else no_match

-- Attributes that go with a scheme: the signing ones turn down DECRYPT, the others SIGN_ENCRYPT.
unfoldable pub turn_down : Public → Public
unfolding algtoflags
turn_down p =
    if p.scheme == alg_null
    then p
    else if overlap p.object_attributes (object_sign_encrypt + object_decrypt)
    then record p {
      object_attributes =
          clear_flags p.object_attributes (
            if overlap (algtoflags p.scheme) flags_sig
            then object_decrypt
            else object_sign_encrypt);
    }
    else p

-- The hash, at the end of `handle_scheme_sign`.
unfoldable pub set_hash : Bytes → Public → AlgParserRc × Public
unfolding strtoalg
set_hash halg p =
    let alg = strtoalg halg flags_hash in
    (if alg == 0 then error else continue, record p { hash_alg = alg })

abbrev pub halg_or : Option Bytes → Bytes
halg_or none = codes "sha256"
halg_or (some halg) = halg

-- The commit counter of ECDAA.
unfoldable pub with_count : Option ℕ → Bytes → Public → AlgParserRc × Public
unfolding set_hash turn_down
with_count none halg p = (error, p)
with_count (some n) halg p = set_hash halg (turn_down (record p { count = n }))

unfoldable pub match_scheme : SchemeMatch → Option Bytes → Public → AlgParserRc × Public
unfolding set_hash turn_down with_count string_to_uint16
match_scheme no_match halg p = (error, p)
match_scheme sets_null halg p = (error, record p { scheme = alg_null })
match_scheme (exact alg) none p = (continue, turn_down (record p { scheme = alg }))
match_scheme (exact alg) (some halg) p = (error, record p { scheme = alg })
match_scheme (hashed alg rest) halg p =
    if (alg == alg_ecdaa)
    then with_count (string_to_uint16 (or_default (codes "0") rest)) (halg_or halg)
        (record p { scheme = alg })
    else set_hash (halg_or halg) (turn_down (record p { scheme = alg }))

-- A scheme up to its dash, and behind it.
abbrev pub split_dash : Option (Bytes × Bytes) → Bytes → Bytes × Option Bytes
split_dash none s = (s, none)
split_dash (some (name, halg)) s = (name, some halg)

-- A text that is not "null". The dash becomes the end of the caller's text.
unfoldable pub sign_text : Bytes → Public → AlgParserRc × (Public × Option Bytes)
unfolding match_scheme match_ecc match_rsa
sign_text s p =
    if str_eq s (codes "null")
    then (continue, (record p { scheme = alg_null }, some s))
    else let (name, halg) = split_dash (str_chr b'-' s) s in
      let (rc, p') =
        match_scheme (if p.type == alg_ecc then match_ecc name else match_rsa name) halg p in
      (rc, (p', some name))

unfoldable pub handle_scheme_sign : Option Bytes → Public → AlgParserRc × (Public × Option Bytes)
unfolding sign_text
handle_scheme_sign none p = (continue, (record p { scheme = alg_null }, none))
handle_scheme_sign (some s) p = sign_text (or_default (codes "null") s) p
