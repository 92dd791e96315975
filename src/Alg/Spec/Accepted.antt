-- ===== src/Alg/Spec/Accepted.antt =====
-- A specifier that is accepted describes a key.
use tpm2_tools.Alg.Ids.{
  alg_hmac, alg_aes, alg_keyedhash, alg_xor, alg_null, alg_kdf1_sp800_108, alg_camellia,
}
use tpm2_tools.Alg.Hashes.{one_of}
use tpm2_tools.Alg.Public.{Public, AlgParserRc, error, continue, done}
use tpm2_tools.Alg.Scheme.{handle_scheme_sign}
use tpm2_tools.Alg.Spec.Keys.{
  has_hash, is_mode, strtoalg-has_hash, is_unfinished, is_key, Yields, Any, Never, Key, is_object,
  Object,
}
use tpm2_tools.Alg.Spec.Objects.{handle_sym_common-Yields, Yields-if, handle_object-Yields}
use tpm2_tools.Alg.Spec.{
  handle_sym_common, handle_scheme_keyedhash, handle_scheme, handle_asym_detail, is_set, is_done,
  is_asym, shuffled, after_scheme, after_object, handle_tokens, handle_ext_alg, text_or,
  default_detail,
}
use tpm2_tools.Alg.Table.{algs, flags_hash}
use tpm2_tools.Alg.{strtoalg, for_each_alg, find_match}
use tpm2_tools.Base.Bytes.{Bytes}
use tpm2_tools.Base.Text.{codes, is_prefix, str_eq, tokens}
use tpm2_tools.Base.{
  ℕ, Bool, true, false, not, ◌&&◌, ◌||◌, List, [], ◌∷◌, Option, none, some, ◌==◌, drop, leb, length,
  if◌then◌else◌, ◌≡◌, refl, inl, inr, arith, Bool-cases,
}
use tpm2_tools.Errata.{ErrataInfo}
use tpm2_tools.Alg.Spec.Schemes.{Schemed, area, handle_scheme_sign-Yields}

handle_scheme_keyedhash-Yields :
    (scheme : Option Bytes) (p : Public)
    → is_unfinished p ≡ true
    → Yields Object Schemed Key (handle_scheme_keyedhash scheme p)
unfolding handle_scheme_keyedhash is_key
handle_scheme_keyedhash-Yields scheme p o = by_alg (alg == 0) refl
  where
    alg : ℕ
    alg = strtoalg (text_or (codes "sha256") scheme) flags_hash

    with_hash :
        (h : ℕ)
        → has_hash h ≡ true
        → Yields Object Schemed Key (
            if p.sym_algorithm == alg_hmac
            then (done, record p { sym_key_bits = h })
            else if p.sym_algorithm == alg_xor
            then (done, record p { sym_mode = alg_kdf1_sp800_108; sym_key_bits = h })
            else (error, p))
    with_hash h k = ground arith

    by_alg :
        (b : Bool)
        → (alg == 0) ≡ b
        → Yields Object Schemed Key (
            if b
            then (error, p)
            else if p.sym_algorithm == alg_hmac
            then (done, record p { sym_key_bits = alg })
            else if p.sym_algorithm == alg_xor
            then (done, record p { sym_mode = alg_kdf1_sp800_108; sym_key_bits = alg })
            else (error, p))
    by_alg true e = ground arith
    by_alg false e =
        with_hash alg (strtoalg-has_hash (text_or (codes "sha256") scheme) (λ z. ground arith))

-- The default hash of a keyed hash is in the table.
default_hash : strtoalg (codes "sha256") flags_hash ≡ 11
unfolding strtoalg for_each_alg find_match algs
default_hash = refl

handle_scheme-Yields :
    (scheme : Option Bytes) (p : Public)
    → is_object p ≡ true
    → Yields Object Schemed Key (area (handle_scheme scheme p))
unfolding handle_scheme
handle_scheme-Yields scheme p o = elim (Bool-cases (is_asym p)) [
  | inl e ↦ rw e (weaken _ (handle_scheme_sign-Yields scheme p (ground arith)))
  | inr e ↦
      let k : (p.type == alg_keyedhash) ≡ true = ground arith in
      rw (e, k) (handle_scheme_keyedhash-Yields scheme p (ground arith))
]
  where
    weaken :
        (m : AlgParserRc × Public) → Yields Object Schemed Never m → Yields Object Schemed Key m
    weaken (error, q) h = h
    weaken (continue, q) h = h
    weaken (done, q) h = absurd h

handle_asym_detail-Yields :
    (detail : Option Bytes) (p : Public)
    → Schemed p
    → Yields Any Never Key (handle_asym_detail detail p)
unfolding handle_asym_detail
handle_asym_detail-Yields detail p o = skip (not (is_asym p)) _ (
    Yields-if Any Never Key (is_prefix (codes "aes") text) (handle_sym_common (drop 3 text) aes) _
      (handle_sym_common-Yields Key (drop 3 text) aes (λ b m h k. keyed alg_aes b m refl h k))
      (Yields-if Any Never Key (is_prefix (codes "camellia") text)
        (handle_sym_common (drop 8 text) camellia) _
        (handle_sym_common-Yields Key (drop 8 text) camellia
          (λ b m h k. keyed alg_camellia b m refl h k))
        (Yields-if Any Never Key (str_eq text (codes "null"))
          (done, record p { sym_algorithm = alg_null }) (error, p) (unfold is_key in ground arith)
          tt)))
  where
    text : Bytes
    text = text_or (default_detail p) detail

    aes : Public
    aes = record p { sym_algorithm = alg_aes }

    camellia : Public
    camellia = record p { sym_algorithm = alg_camellia }

    skip :
        (b : Bool) (m : AlgParserRc × Public)
        → Yields Any Never Key m
        → Yields Any Never Key (if b then (error, p) else m)
    skip true m h = tt
    skip false m h = h

    keyed :
        (alg bits mode : ℕ)
        → (alg == alg_aes || alg == alg_camellia) ≡ true
        → one_of (128 ∷ 192 ∷ 256 ∷ []) bits ≡ true
        → is_mode mode ≡ true
        → Key (record p { sym_algorithm = alg; sym_key_bits = bits; sym_mode = mode })
    keyed alg bits mode a b m = unfold is_key in ground arith

-- Without a scheme there is no error.
handle_scheme-none : (p : Public) → is_object p ≡ true → ¬ ((handle_scheme none p).0 ≡ error)
unfolding handle_scheme handle_scheme_sign handle_scheme_keyedhash
handle_scheme-none p o h = elim (Bool-cases (is_asym p)) [
  | inl e ↦ cc (rw e at h)
  | inr e ↦
      let k : (p.type == alg_keyedhash) ≡ true = ground arith in
      let h' = rw (e, k, default_hash) at h in
      elim (Bool-cases (p.sym_algorithm == alg_hmac)) [
        | inl a ↦ cc (rw a at h')
        | inr a ↦ let x : (p.sym_algorithm == alg_xor) ≡ true = ground arith in cc (rw (a, x) at h')
      ]
]

abbrev IsAccepted : Bool × Public → Type 0
IsAccepted r = r.0 ≡ true → is_key r.1 ≡ true

is_done-IsAccepted : (m : AlgParserRc × Public) → Yields Any Never Key m → IsAccepted (is_done m)
is_done-IsAccepted (error, p) h e = absurd (cc e)
is_done-IsAccepted (continue, p) h e = absurd h
is_done-IsAccepted (done, p) h e = h

shuffled-IsAccepted :
    (m : AlgParserRc × (Public × Option Bytes)) (detail : Option Bytes)
    → Yields Object Schemed Key (area m)
    → ¬ (m.0 ≡ error)
    → IsAccepted (shuffled m detail)
unfolding shuffled
shuffled-IsAccepted (error, (p, s)) detail h n = absurd (n refl)
shuffled-IsAccepted (continue, (p, s)) detail h n =
    is_done-IsAccepted _ (handle_asym_detail-Yields detail p h)
shuffled-IsAccepted (done, (p, s)) detail h n = λ e. h

after_scheme-IsAccepted :
    (m : AlgParserRc × (Public × Option Bytes)) (detail : Option Bytes)
    → Yields Object Schemed Key (area m)
    → IsAccepted (after_scheme m detail)
unfolding after_scheme
after_scheme-IsAccepted (error, (p, s)) detail h = pick (is_set detail && is_set s)
  where
    pick : (b : Bool) → IsAccepted (if b then (false, p) else shuffled (handle_scheme none p) s)
    pick true e = absurd (cc e)
    pick false e =
        shuffled-IsAccepted _ s (handle_scheme-Yields none p h) (handle_scheme-none p h) e
after_scheme-IsAccepted (continue, (p, s)) detail h =
    is_done-IsAccepted _ (handle_asym_detail-Yields detail p h)
after_scheme-IsAccepted (done, (p, s)) detail h = λ e. h

after_object-IsAccepted :
    (m : AlgParserRc × Public) (scheme detail : Option Bytes)
    → Yields Any Object Key m
    → IsAccepted (after_object m scheme detail)
unfolding after_object
after_object-IsAccepted (error, p) scheme detail h = λ e. absurd (cc e)
after_object-IsAccepted (continue, p) scheme detail h =
    after_scheme-IsAccepted _ detail (handle_scheme-Yields scheme p h)
after_object-IsAccepted (done, p) scheme detail h = λ e. h

handle_tokens-IsAccepted :
    (this : Option ErrataInfo) (ts : List Bytes) (p : Public) → IsAccepted (handle_tokens this ts p)
unfolding handle_tokens
handle_tokens-IsAccepted this [] p = λ e. absurd (cc e)
handle_tokens-IsAccepted this (o ∷ []) p =
    after_object-IsAccepted _ none none (handle_object-Yields this o p)
handle_tokens-IsAccepted this (o ∷ s ∷ []) p =
    after_object-IsAccepted _ (some s) none (handle_object-Yields this o p)
handle_tokens-IsAccepted this (o ∷ s ∷ d ∷ []) p =
    after_object-IsAccepted _ (some s) (some d) (handle_object-Yields this o p)
handle_tokens-IsAccepted this (o ∷ s ∷ d ∷ e ∷ rest) p = λ h. absurd (cc h)

-- Whatever the text and whatever the public area held before, an accepted specifier leaves one of
-- these: an RSA key of 1024, 2048, 3072 or 4096 bits with no scheme or RSAES, RSAPSS or RSASSA; an ECC
-- key on one of five curves with no scheme or ECDSA, ECDH, ECSCHNORR or ECDAA, or by mistake OAEP, a
-- scheme of RSA keys; each with null, AES or Camellia as its symmetric details; AES or Camellia with
-- 128, 192 or 256 bits; or a keyed hash with HMAC, XOR with its kdf, or no scheme. The mode of a cipher
-- is CTR, OFB, CBC, CFB, ECB or null. The hash that a scheme other than RSAES takes is one of SHA-1,
-- SHA-2, SM3 and SHA-3, or by mistake HMAC or XOR, which the table has under the same flag.
pub handle_ext_alg-is_key :
    (this : Option ErrataInfo) (alg_spec : Bytes) (p : Public)
    → (handle_ext_alg this alg_spec p).0 ≡ true
    → is_key (handle_ext_alg this alg_spec p).1 ≡ true
unfolding handle_ext_alg
handle_ext_alg-is_key this alg_spec p = pick (leb 256 (length alg_spec))
  where
    pick :
        (b : Bool)
        → IsAccepted (if b then (false, p) else handle_tokens this (tokens b':' alg_spec) p)
    pick true e = absurd (cc e)
    pick false e = handle_tokens-IsAccepted this (tokens b':' alg_spec) p e
