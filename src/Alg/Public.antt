-- ===== src/Alg/Public.antt =====
-- What the handlers of lib/tpm2_alg_util.c share: the public area that they fill, and their results.
use tpm2_tools.Base.Bytes.{Bytes}
use tpm2_tools.Base.{ℕ, [], ◌∷◌}

-- `alg_parser_rc`
pub data AlgParserRc : Type 0 where
  error continue done : AlgParserRc

-- TPMT_PUBLIC, as far as it is written. `scheme`, `hash_alg` and `count` are an asymmetric key's
-- scheme and its details; `kdf` is that of an ECC key.
pub record Public : Type 0 where
  pub type : ℕ
  pub object_attributes : ℕ
  pub sym_algorithm : ℕ
  pub sym_key_bits : ℕ
  pub sym_mode : ℕ
  pub scheme : ℕ
  pub hash_alg : ℕ
  pub count : ℕ
  pub key_bits : ℕ
  pub exponent : ℕ
  pub kdf : ℕ

-- if (text[0] == '\0') text = default;
abbrev pub or_default : Bytes → Bytes → Bytes
or_default default [] = default
or_default default (c ∷ text) = c ∷ text
