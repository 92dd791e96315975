-- ===== src/Alg/Spec/Keys.antt =====
-- Which public areas describe a key, and what each handler of a specifier makes of one.
use tpm2_tools.Alg.Ids.{
  alg_rsa, alg_hmac, alg_aes, alg_keyedhash, alg_xor, alg_null, alg_rsassa, alg_rsaes, alg_rsapss,
  alg_oaep, alg_ecdsa, alg_ecdh, alg_ecdaa, alg_ecschnorr, alg_kdf1_sp800_108, alg_ecc,
  alg_symcipher, alg_camellia,
}
use tpm2_tools.Alg.Hashes.{one_of, is_hash, keyed_hashes, modes, algtostr-hash, algtostr-mode}
use tpm2_tools.Alg.Names.{algtostr-strtoalg}
use tpm2_tools.Alg.Public.{Public, AlgParserRc, error, continue, done}
use tpm2_tools.Alg.Table.{flags_hash, flags_mode, flags_misc}
use tpm2_tools.Alg.{strtoalg}
use tpm2_tools.Base.Bytes.{Bytes}
use tpm2_tools.Base.{
  ℕ, ◌+◌, Bool, true, ◌&&◌, ◌||◌, List, [], ◌∷◌, ◌==◌, if◌then◌else◌, ◌≡◌, ◌≢◌, refl,
}

-- What is accepted where a hash is meant: a hash, or by mistake HMAC or XOR, which share its flag.
unfoldable pub has_hash : ℕ → Bool
has_hash id = is_hash id || one_of keyed_hashes id

unfoldable pub is_mode : ℕ → Bool
is_mode id = one_of modes id || id == alg_null

pub strtoalg-has_hash :
    (name : Bytes) → strtoalg name flags_hash ≢ 0 → has_hash (strtoalg name flags_hash) ≡ true
unfolding has_hash
strtoalg-has_hash name nz = algtostr-hash (strtoalg name flags_hash) (λ e.
    let k = (algtostr-strtoalg flags_hash (strtoalg name flags_hash) name).1 refl nz in
    absurd (cc (e, k)))

pub strtoalg-is_mode :
    (name : Bytes)
    → strtoalg name (flags_mode + flags_misc) ≢ 0
    → is_mode (strtoalg name (flags_mode + flags_misc)) ≡ true
unfolding is_mode
strtoalg-is_mode name nz = algtostr-mode (strtoalg name (flags_mode + flags_misc)) (λ e.
    let flags = flags_mode + flags_misc in
    let k = (algtostr-strtoalg flags (strtoalg name flags) name).1 refl nz in absurd (cc (e, k)))

abbrev pub is_cipher : Public → Bool
is_cipher p = p.sym_algorithm == alg_aes || p.sym_algorithm == alg_camellia

abbrev pub is_sym : Public → Bool
is_sym p = is_cipher p && one_of (128 ∷ 192 ∷ 256 ∷ []) p.sym_key_bits && is_mode p.sym_mode

abbrev pub is_detail : Public → Bool
is_detail p = p.sym_algorithm == alg_null || is_sym p

abbrev pub is_rsa : Public → Bool
is_rsa p =
    p.type == alg_rsa && one_of (1024 ∷ 2048 ∷ 3072 ∷ 4096 ∷ []) p.key_bits && p.exponent == 0

abbrev pub is_ecc : Public → Bool
is_ecc p = p.type == alg_ecc && one_of (1 ∷ 2 ∷ 3 ∷ 4 ∷ 5 ∷ []) p.key_bits && p.kdf == alg_null

-- One of the schemes `ids`, with a hash if it takes one.
abbrev pub is_scheme : List ℕ → Public → Bool
is_scheme ids p =
    p.scheme == alg_null || (one_of ids p.scheme && (p.scheme == alg_rsaes || has_hash p.hash_alg))

abbrev pub rsa_schemes : List ℕ
rsa_schemes = alg_rsaes ∷ alg_rsapss ∷ alg_rsassa ∷ []

abbrev pub ecc_schemes : List ℕ
ecc_schemes = alg_ecdsa ∷ alg_ecdh ∷ alg_ecschnorr ∷ alg_ecdaa ∷ []

-- OAEP, a scheme of RSA keys, which is accepted for ECC keys by mistake.
abbrev pub is_stray_scheme : Public → Bool
is_stray_scheme p = p.scheme == alg_oaep && has_hash p.hash_alg

abbrev pub is_type_scheme : Public → Bool
is_type_scheme p =
    if p.type == alg_rsa
    then is_scheme rsa_schemes p
    else is_scheme ecc_schemes p || is_stray_scheme p

abbrev pub is_asym_object : Public → Bool
is_asym_object p = is_rsa p || is_ecc p

abbrev pub is_unfinished : Public → Bool
is_unfinished p =
    p.type == alg_keyedhash && (p.sym_algorithm == alg_hmac || p.sym_algorithm == alg_xor)

abbrev pub is_keyed : Public → Bool
is_keyed p =
    p.type == alg_keyedhash
    && (p.sym_algorithm == alg_null
        || (has_hash p.sym_key_bits
            && (p.sym_algorithm == alg_hmac
                || (p.sym_algorithm == alg_xor && p.sym_mode == alg_kdf1_sp800_108))))

-- An asymmetric key, a symmetric one, or a keyed hash, with all of its parameters valid, but for the
-- two mistakes above.
unfoldable pub is_key : Public → Bool
is_key p =
    ((is_rsa p || is_ecc p) && is_type_scheme p && is_detail p)
    || (p.type == alg_symcipher && is_sym p)
    || is_keyed p

-- What holds of the public area under each result of a handler.
abbrev pub Yields :
    (Public → Type 0) → (Public → Type 0) → (Public → Type 0) → AlgParserRc × Public → Type 0
Yields E C D (error, p) = E p
Yields E C D (continue, p) = C p
Yields E C D (done, p) = D p

abbrev pub Any : Public → Type 0
Any p = Unit

abbrev pub Never : Public → Type 0
Never p = ⊥

abbrev pub Key : Public → Type 0
Key p = is_key p ≡ true

-- A key whose scheme is still to come.
abbrev pub is_object : Public → Bool
is_object p = is_rsa p || is_ecc p || is_unfinished p

abbrev pub Object : Public → Type 0
Object p = is_object p ≡ true
