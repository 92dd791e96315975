-- ===== src/Alg/Ids.antt =====
-- Identifiers and attributes of the TPM 2.0 specification that the specifiers of lib/tpm2_alg_util.c
-- stand for (tss2/tss2_tpm2_types.h).
use tpm2_tools.Base.{ℕ}

abbrev pub alg_rsa : ℕ
alg_rsa = 0x0001

abbrev pub alg_hmac : ℕ
alg_hmac = 0x0005

abbrev pub alg_aes : ℕ
alg_aes = 0x0006

abbrev pub alg_keyedhash : ℕ
alg_keyedhash = 0x0008

abbrev pub alg_xor : ℕ
alg_xor = 0x000a

abbrev pub alg_null : ℕ
alg_null = 0x0010

abbrev pub alg_rsassa : ℕ
alg_rsassa = 0x0014

abbrev pub alg_rsaes : ℕ
alg_rsaes = 0x0015

abbrev pub alg_rsapss : ℕ
alg_rsapss = 0x0016

abbrev pub alg_oaep : ℕ
alg_oaep = 0x0017

abbrev pub alg_ecdsa : ℕ
alg_ecdsa = 0x0018

abbrev pub alg_ecdh : ℕ
alg_ecdh = 0x0019

abbrev pub alg_ecdaa : ℕ
alg_ecdaa = 0x001a

abbrev pub alg_ecschnorr : ℕ
alg_ecschnorr = 0x001c

abbrev pub alg_kdf1_sp800_108 : ℕ
alg_kdf1_sp800_108 = 0x0022

abbrev pub alg_ecc : ℕ
alg_ecc = 0x0023

abbrev pub alg_symcipher : ℕ
alg_symcipher = 0x0025

abbrev pub alg_camellia : ℕ
alg_camellia = 0x0026

-- TPM2_ECC_NIST_P192 and those after it
abbrev pub ecc_nist_p192 : ℕ
ecc_nist_p192 = 1

abbrev pub ecc_nist_p224 : ℕ
ecc_nist_p224 = 2

abbrev pub ecc_nist_p256 : ℕ
ecc_nist_p256 = 3

abbrev pub ecc_nist_p384 : ℕ
ecc_nist_p384 = 4

abbrev pub ecc_nist_p521 : ℕ
ecc_nist_p521 = 5

-- TPMA_OBJECT
abbrev pub object_restricted : ℕ
object_restricted = 0x10000

abbrev pub object_decrypt : ℕ
object_decrypt = 0x20000

abbrev pub object_sign_encrypt : ℕ
object_sign_encrypt = 0x40000
