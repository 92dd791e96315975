-- ===== src/Alg/Spec/Schemes.antt =====
-- What `handle_scheme_sign` makes of an asymmetric key: one with a scheme of its type.
use tpm2_tools.Alg.Ids.{
  alg_rsa, alg_null, alg_oaep, alg_rsaes, alg_ecdaa, alg_ecc, object_decrypt, object_sign_encrypt,
}
use tpm2_tools.Alg.Hashes.{one_of}
use tpm2_tools.Alg.Public.{Public, AlgParserRc, error, continue, or_default}
use tpm2_tools.Alg.Scheme.{
  SchemeMatch, no_match, sets_null, exact, hashed, match_ecc, match_rsa, turn_down, set_hash,
  halg_or, with_count, match_scheme, split_dash, sign_text, handle_scheme_sign,
}
use tpm2_tools.Alg.Spec.Keys.{
  has_hash, strtoalg-has_hash, is_type_scheme, Yields, Never, Object, is_asym_object, rsa_schemes,
  ecc_schemes,
}
use tpm2_tools.Alg.Spec.Objects.{Yields-if}
use tpm2_tools.Alg.Table.{flags_hash}
use tpm2_tools.Alg.{overlap, strtoalg, algtoflags}
use tpm2_tools.Base.Bytes.{Bytes}
use tpm2_tools.Base.Text.{codes, str_eq, str_chr}
use tpm2_tools.Base.{
  ℕ, ◌+◌, Bool, true, false, not, ◌&&◌, ◌||◌, Option, none, some, ◌==◌, if◌then◌else◌, ◌≡◌, refl,
  inl, inr, arith, Bool-cases,
}
use tpm2_tools.Errata.{clear_flags}
use tpm2_tools.Util.Number.{string_to_uint16}

-- An asymmetric key that has its scheme, and one with the scheme that `alg` is.
abbrev pub Schemed : Public → Type 0
Schemed p = (is_asym_object p && is_type_scheme p) ≡ true

abbrev is_for : Public → ℕ → Bool
is_for p alg =
    if p.type == alg_rsa
    then one_of rsa_schemes alg || alg == alg_null
    else one_of ecc_schemes alg || alg == alg_oaep

abbrev with_attributes : ℕ → Public → Public
with_attributes a p = record p { object_attributes = a }

-- `turn_down` changes the attributes only.
turn_down-case :
    (P : Public → Type 0) (p : Public) → ((a : ℕ) → P (with_attributes a p)) → P (turn_down p)
unfolding turn_down
turn_down-case P p k =
    pick (p.scheme == alg_null) (overlap p.object_attributes (object_sign_encrypt + object_decrypt))
  where
    lowered : ℕ
    lowered =
        clear_flags p.object_attributes
          (if overlap (algtoflags p.scheme) 64 then object_decrypt else object_sign_encrypt)

    pick : (b c : Bool) → P (if b then p else if c then with_attributes lowered p else p)
    pick true c = k p.object_attributes
    pick false true = k lowered
    pick false false = k p.object_attributes

-- The scheme of a match.
abbrev matched : SchemeMatch → ℕ
matched no_match = alg_null
matched sets_null = alg_null
matched (exact alg) = alg
matched (hashed alg rest) = alg

-- What a match can be: one of the type's schemes, with or without a hash as the scheme has it.
abbrev is_match : Public → SchemeMatch → Bool
is_match p no_match = true
is_match p sets_null = true
is_match p (exact alg) = is_for p alg && (alg == alg_rsaes || alg == alg_null)
is_match p (hashed alg rest) = is_for p alg && not (alg == alg_null)

set_hash-Yields :
    (halg : Bytes) (p : Public)
    → is_asym_object p ≡ true
    → is_for p p.scheme ≡ true
    → Yields Object Schemed Never (set_hash halg p)
unfolding set_hash
set_hash-Yields halg p o s = by_hash (alg == 0) refl
  where
    alg : ℕ
    alg = strtoalg halg flags_hash

    with_hash : (h : ℕ) → has_hash h ≡ true → Schemed (record p { hash_alg = h })
    with_hash h k = ground arith

    by_hash :
        (b : Bool)
        → (alg == 0) ≡ b
        → Yields Object Schemed Never (if b then error else continue, record p { hash_alg = alg })
    by_hash true e = ground arith
    by_hash false e =
        let k : has_hash alg ≡ true = strtoalg-has_hash halg (λ z. ground arith) in with_hash alg k

match_scheme-Yields :
    (m : SchemeMatch) (halg : Option Bytes) (p : Public)
    → is_asym_object p ≡ true
    → is_match p m ≡ true
    → Yields Object Schemed Never (match_scheme m halg p)
unfolding match_scheme with_count
match_scheme-Yields no_match halg p o h = ground arith
match_scheme-Yields sets_null halg p o h = ground arith
match_scheme-Yields (exact alg) none p o h =
    turn_down-case Schemed (record p { scheme = alg }) (λ a. ground arith)
match_scheme-Yields (exact alg) (some halg) p o h = ground arith
match_scheme-Yields (hashed alg rest) halg p o h =
    Yields-if Object Schemed Never (alg == alg_ecdaa) _ _
      (counted (string_to_uint16 (or_default (codes "0") rest))) (finish p o h)
  where
    finish :
        (q : Public)
        → is_asym_object q ≡ true
        → is_match q (hashed alg rest) ≡ true
        → Yields Object Schemed Never
            (set_hash (halg_or halg) (turn_down (record q { scheme = alg })))
    finish q o' h' =
        turn_down-case (λ r. Yields Object Schemed Never (set_hash (halg_or halg) r))
          (record q { scheme = alg })
          (λ a.
            set_hash-Yields (halg_or halg) (record q { scheme = alg; object_attributes = a })
              (ground arith) (ground arith))

    counted :
        (n : Option ℕ)
        → Yields Object Schemed Never (with_count n (halg_or halg) (record p { scheme = alg }))
    counted none = ground arith
    counted (some n) = finish (record p { count = n }) (ground arith) h

match_ecc-is_match :
    (p : Public) (s : Bytes) → (p.type == alg_rsa) ≡ false → is_match p (match_ecc s) ≡ true
unfolding match_ecc
match_ecc-is_match p s t = ground arith

match_rsa-is_match :
    (p : Public) (s : Bytes) → (p.type == alg_rsa) ≡ true → is_match p (match_rsa s) ≡ true
unfolding match_rsa
match_rsa-is_match p s t = ground arith

-- A handler's result without the text that comes back.
abbrev pub area : AlgParserRc × (Public × Option Bytes) → AlgParserRc × Public
area r = (r.0, r.1.0)

sign_text-Yields :
    (s : Bytes) (p : Public)
    → is_asym_object p ≡ true
    → Yields Object Schemed Never (area (sign_text s p))
unfolding sign_text
sign_text-Yields s p o = pick (str_eq s (codes "null"))
  where
    name : Bytes
    name = (split_dash (str_chr b'-' s) s).0

    halg : Option Bytes
    halg = (split_dash (str_chr b'-' s) s).1

    the_match : SchemeMatch
    the_match = if p.type == alg_ecc then match_ecc name else match_rsa name

    fits : is_match p the_match ≡ true
    fits = elim (Bool-cases (p.type == alg_ecc)) [
      | inl e ↦ rw e (match_ecc-is_match p name (ground arith))
      | inr e ↦ rw e (match_rsa-is_match p name (ground arith))
    ]

    r : AlgParserRc × Public
    r = match_scheme the_match halg p

    pick :
        (b : Bool)
        → Yields Object Schemed Never (
            area (
              if b
              then (continue, (record p { scheme = alg_null }, some s))
              else (r.0, (r.1, some name))))
    pick true = ground arith
    pick false = match_scheme-Yields the_match halg p o fits

pub handle_scheme_sign-Yields :
    (scheme : Option Bytes) (p : Public)
    → is_asym_object p ≡ true
    → Yields Object Schemed Never (area (handle_scheme_sign scheme p))
unfolding handle_scheme_sign
handle_scheme_sign-Yields none p o = ground arith
handle_scheme_sign-Yields (some s) p o = sign_text-Yields (or_default (codes "null") s) p o
