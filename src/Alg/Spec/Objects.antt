-- ===== src/Alg/Spec/Objects.antt =====
-- What the handlers of an object's type and of its symmetric details make of a public area.
use tpm2_tools.Alg.Ids.{
  alg_rsa, alg_hmac, alg_aes, alg_xor, alg_null, alg_ecc, alg_symcipher, alg_camellia,
}
use tpm2_tools.Alg.Hashes.{one_of}
use tpm2_tools.Alg.Public.{Public, AlgParserRc, error, continue, done, or_default}
use tpm2_tools.Alg.Spec.{
  handle_sym_common, handle_rsa, handle_ecc, handle_aes, handle_camellia, handle_object, sym_bits,
  rsa_bits, ecc_curve, consumed, keyed_hash,
}
use tpm2_tools.Alg.Table.{flags_mode, flags_misc}
use tpm2_tools.Alg.{strtoalg}
use tpm2_tools.Base.Bytes.{Bytes}
use tpm2_tools.Base.Text.{codes, is_prefix, str_eq}
use tpm2_tools.Base.{
  ℕ, ◌+◌, Bool, true, false, [], ◌∷◌, Option, none, some, ◌==◌, drop, if◌then◌else◌, ◌≡◌, refl,
  arith,
}
use tpm2_tools.Errata.{ErrataInfo, tpm2_errata_fixup, spec_116_errata_2_7}
use tpm2_tools.Alg.Spec.Keys.{
  is_mode, strtoalg-is_mode, is_cipher, is_key, Yields, Any, Never, Key, Object,
}

sym_bits-cases :
    (ext : Bytes) (n : ℕ) → sym_bits ext ≡ some n → one_of (128 ∷ 192 ∷ 256 ∷ []) n ≡ true
sym_bits-cases ext n h = ground arith

rsa_bits-cases : (ext : Bytes) → one_of (1024 ∷ 2048 ∷ 3072 ∷ 4096 ∷ []) (rsa_bits ext).0 ≡ true
rsa_bits-cases ext = ground arith

ecc_curve-cases : (ext : Bytes) → one_of (1 ∷ 2 ∷ 3 ∷ 4 ∷ 5 ∷ []) (ecc_curve ext).0 ≡ true
ecc_curve-cases ext = ground arith

-- `handle_sym_common` changes the key size and the mode only, and sets both if it succeeds.
pub handle_sym_common-Yields :
    (P : Public → Type 0) (ext : Bytes) (p : Public)
    → ((bits mode : ℕ)
        → one_of (128 ∷ 192 ∷ 256 ∷ []) bits ≡ true
        → is_mode mode ≡ true
        → P (record p { sym_key_bits = bits; sym_mode = mode }))
    → Yields Any Never P (handle_sym_common ext p)
handle_sym_common-Yields P ext p k = unfold handle_sym_common in by_bits (sym_bits ext') refl
  where
    ext' : Bytes
    ext' = or_default (codes "128") ext

    mode : ℕ
    mode = strtoalg (or_default (codes "null") (drop 3 ext')) (flags_mode + flags_misc)

    set_both : ℕ → Public
    set_both bits = record p { sym_key_bits = bits; sym_mode = mode }

    by_mode :
        (bits : ℕ) (b : Bool)
        → (mode == 0) ≡ b
        → one_of (128 ∷ 192 ∷ 256 ∷ []) bits ≡ true
        → Yields Any Never P (if b then error else done, set_both bits)
    by_mode bits true e h = tt
    by_mode bits false e h =
        k bits mode h
          (strtoalg-is_mode (or_default (codes "null") (drop 3 ext')) (λ z. ground arith))

    by_bits :
        (o : Option ℕ)
        → sym_bits ext' ≡ o
        → Yields Any Never P (elim o [
          | none ↦ (error, p)
          | some bits ↦ (if mode == 0 then error else done, set_both bits)
        ])
    by_bits none e = tt
    by_bits (some bits) e = by_mode bits (mode == 0) refl (sym_bits-cases ext' bits e)

handle_rsa-Yields : (ext : Bytes) (p : Public) → Yields Any Object Never (handle_rsa ext p)
handle_rsa-Yields ext p =
    unfold handle_rsa in by_rest (rsa_bits text).0 (rsa_bits text).1 (rsa_bits-cases text)
  where
    text : Bytes
    text = or_default (codes "2048") ext

    by_rest :
        (bits : ℕ) (rest : Bytes)
        → one_of (1024 ∷ 2048 ∷ 3072 ∷ 4096 ∷ []) bits ≡ true
        → Yields Any Object Never
            (consumed rest, record p { type = alg_rsa; exponent = 0; key_bits = bits })
    by_rest bits [] h = ground arith
    by_rest bits (c ∷ rest) h = tt

handle_ecc-Yields : (ext : Bytes) (p : Public) → Yields Any Object Never (handle_ecc ext p)
handle_ecc-Yields ext p =
    unfold handle_ecc in by_rest (ecc_curve text).0 (ecc_curve text).1 (ecc_curve-cases text)
  where
    text : Bytes
    text = or_default (codes "256") ext

    by_rest :
        (curve : ℕ) (rest : Bytes)
        → one_of (1 ∷ 2 ∷ 3 ∷ 4 ∷ 5 ∷ []) curve ≡ true
        → Yields Any Object Never
            (consumed rest, record p { type = alg_ecc; kdf = alg_null; key_bits = curve })
    by_rest curve [] h = ground arith
    by_rest curve (c ∷ rest) h = tt

-- A symmetric key is a key.
cipher-Key :
    (p : Public) (bits mode : ℕ)
    → p.type ≡ alg_symcipher
    → is_cipher p ≡ true
    → one_of (128 ∷ 192 ∷ 256 ∷ []) bits ≡ true
    → is_mode mode ≡ true
    → Key (record p { sym_key_bits = bits; sym_mode = mode })
unfolding is_key
cipher-Key p bits mode t c b m = ground arith

module _ (E C D : Public → Type 0) where
  pub Yields-if :
      (b : Bool) (m n : AlgParserRc × Public)
      → Yields E C D m
      → Yields E C D n
      → Yields E C D (if b then m else n)
  Yields-if true m n h k = h
  Yields-if false m n h k = k

Yields-mono :
    (C C' D D' : Public → Type 0) (m : AlgParserRc × Public)
    → ((p : Public) → C p → C' p)
    → ((p : Public) → D p → D' p)
    → Yields Any C D m
    → Yields Any C' D' m
Yields-mono C C' D D' (error, p) f g h = tt
Yields-mono C C' D D' (continue, p) f g h = f p h
Yields-mono C C' D D' (done, p) f g h = g p h

-- An object is a key already, or one that waits for its scheme.
pub handle_object-Yields :
    (this : Option ErrataInfo) (object : Bytes) (p : Public)
    → Yields Any Object Key (handle_object this object p)
unfolding handle_object handle_aes handle_camellia
handle_object-Yields this object p =
    first (is_prefix (codes "rsa") object) _ _ (to_object _ (handle_rsa-Yields (drop 3 object) p)) (
      first (is_prefix (codes "ecc") object) _ _ (to_object _ (handle_ecc-Yields (drop 3 object) p))
        (first (is_prefix (codes "aes") object) _ _ (cipher (drop 3 object) aes refl refl) (
          first (is_prefix (codes "camellia") object) _ _
            (cipher (drop 8 object) camellia refl refl)
            (first (str_eq object (codes "hmac")) (continue, keyed_hash alg_hmac p) _ (ground arith)
              (first (str_eq object (codes "xor")) (continue, keyed_hash alg_xor p) _ (ground arith)
                (first (str_eq object (codes "keyedhash")) (done, keyed_hash alg_null p) (error, p)
                  (unfold is_key in ground arith) tt))))))
  where
    first :
        (name : Bool) (m n : AlgParserRc × Public)
        → Yields Any Object Key m
        → Yields Any Object Key n
        → Yields Any Object Key (if name then m else n)
    first = Yields-if Any Object Key

    aes : Public
    aes = record p {
      type = alg_symcipher;
      object_attributes = tpm2_errata_fixup this spec_116_errata_2_7 p.object_attributes;
      sym_algorithm = alg_aes;
    }

    camellia : Public
    camellia = record p { type = alg_symcipher; sym_algorithm = alg_camellia }

    to_object : (m : AlgParserRc × Public) → Yields Any Object Never m → Yields Any Object Key m
    to_object m h = Yields-mono Object Object Never Key m (λ q o. o) (λ q z. absurd z) h

    cipher :
        (ext : Bytes) (q : Public)
        → q.type ≡ alg_symcipher
        → is_cipher q ≡ true
        → Yields Any Object Key (handle_sym_common ext q)
    cipher ext q t c =
        Yields-mono Never Object Key Key (handle_sym_common ext q) (λ r z. absurd z) (λ r x. x)
          (handle_sym_common-Yields Key ext q (λ b m. cipher-Key q b m t c))
