-- ===== src/Alg/Table.antt =====
-- The table of algorithms in lib/tpm2_alg_util.c, with the flags of lib/tpm2_alg_util.h and the
-- identifiers of the TPM 2.0 specification.
use tpm2_tools.Base.Bytes.{Bytes}
use tpm2_tools.Base.Text.{codes}
use tpm2_tools.Base.{ℕ, ◌+◌, ◌^◌, List, [], ◌∷◌}

-- `alg_pair`
pub record AlgPair : Type 0 where
  pub name : Bytes
  pub id : ℕ
  pub flags : ℕ

-- `tpm2_alg_util_flags`: hash and keyedhash are the same bit.
abbrev pub flags_hash : ℕ
flags_hash = 1

abbrev pub flags_keyedhash : ℕ
flags_keyedhash = 1

abbrev pub flags_symmetric : ℕ
flags_symmetric = 2 ^ 2

abbrev pub flags_asymmetric : ℕ
flags_asymmetric = 2 ^ 3

abbrev pub flags_kdf : ℕ
flags_kdf = 2 ^ 4

abbrev pub flags_mgf : ℕ
flags_mgf = 2 ^ 5

abbrev pub flags_sig : ℕ
flags_sig = 2 ^ 6

abbrev pub flags_mode : ℕ
flags_mode = 2 ^ 7

abbrev pub flags_base : ℕ
flags_base = 2 ^ 8

abbrev pub flags_misc : ℕ
flags_misc = 2 ^ 9

abbrev pub flags_enc_scheme : ℕ
flags_enc_scheme = 2 ^ 10

abbrev pub flags_rsa_scheme : ℕ
flags_rsa_scheme = 2 ^ 11

abbrev alg : Bytes → ℕ → ℕ → AlgPair
alg name id flags = record { name = name; id = id; flags = flags }

unfoldable pub algs : List AlgPair
algs =
    alg (codes "rsa") 0x1 (flags_asymmetric + flags_base)
    ∷ alg (codes "ecc") 0x23 (flags_asymmetric + flags_base)
    ∷ alg (codes "tdes") 0x3 flags_symmetric
    ∷ alg (codes "aes") 0x6 flags_symmetric
    ∷ alg (codes "camellia") 0x26 flags_symmetric
    ∷ alg (codes "sha1") 0x4 flags_hash
    ∷ alg (codes "sha256") 0xb flags_hash
    ∷ alg (codes "sha384") 0xc flags_hash
    ∷ alg (codes "sha512") 0xd flags_hash
    ∷ alg (codes "sm3_256") 0x12 flags_hash
    ∷ alg (codes "sha3_256") 0x27 flags_hash
    ∷ alg (codes "sha3_384") 0x28 flags_hash
    ∷ alg (codes "sha3_512") 0x29 flags_hash
    ∷ alg (codes "hmac") 0x5 (flags_keyedhash + flags_sig)
    ∷ alg (codes "xor") 0xa flags_keyedhash
    ∷ alg (codes "cmac") 0x3f flags_sig
    ∷ alg (codes "mgf1") 0x7 flags_mgf
    ∷ alg (codes "rsassa") 0x14 flags_sig
    ∷ alg (codes "rsapss") 0x16 flags_sig
    ∷ alg (codes "ecdsa") 0x18 flags_sig
    ∷ alg (codes "ecdaa") 0x1a flags_sig
    ∷ alg (codes "ecschnorr") 0x1c flags_sig
    ∷ alg (codes "oaep") 0x17 (flags_enc_scheme + flags_rsa_scheme)
    ∷ alg (codes "rsaes") 0x15 (flags_enc_scheme + flags_rsa_scheme)
    ∷ alg (codes "ecdh") 0x19 flags_enc_scheme
    ∷ alg (codes "sm2") 0x1b flags_sig
    ∷ alg (codes "sm4") 0x13 flags_sig
    ∷ alg (codes "kdf1_sp800_56a") 0x20 flags_kdf
    ∷ alg (codes "kdf2") 0x21 flags_kdf
    ∷ alg (codes "kdf1_sp800_108") 0x22 flags_kdf
    ∷ alg (codes "ecmqv") 0x1d flags_kdf
    ∷ alg (codes "ctr") 0x40 flags_mode
    ∷ alg (codes "ofb") 0x41 flags_mode
    ∷ alg (codes "cbc") 0x42 flags_mode
    ∷ alg (codes "cfb") 0x43 flags_mode
    ∷ alg (codes "ecb") 0x44 flags_mode
    ∷ alg (codes "symcipher") 0x25 flags_base
    ∷ alg (codes "keyedhash") 0x8 flags_base
    ∷ alg (codes "null") 0x10 (flags_misc + flags_rsa_scheme)
    ∷ []
