-- ===== src/EventLog/Replay/Encoding.antt =====
-- The reading of encoded fields.
use tpm2_tools.Base.Bytes.{Bytes, le_bytes, value_le}
use tpm2_tools.Base.{
  ℕ, ◌+◌, ◌^◌, ◌≡◌, ◌<◌, refl, ap, sym, ◌∙◌, List, [], ◌∷◌, ◌++◌, append_assoc, arith, length,
  length-append, take, drop, take-append, drop-append, All,
}
use tpm2_tools.EventLog.Digests.{digest_width, digests_width}
use tpm2_tools.EventLog.{get_hash_size}
use tpm2_tools.EventLog.Replay.{Digest, encode_digests, IsDigest}

pub value_le-le_bytes_2 :
    (v : ℕ) (rest : Bytes) → v < 2 ^ 16 → value_le 2 (le_bytes 2 v ++ rest) ≡ v
value_le-le_bytes_2 v rest h = omega arith

pub value_le-le_bytes_4 :
    (v : ℕ) (rest : Bytes) → v < 2 ^ 32 → value_le 4 (le_bytes 4 v ++ rest) ≡ v
value_le-le_bytes_4 v rest h = omega arith

pub take-append_length : (n : ℕ) (xs ys : Bytes) → length xs ≡ n → take n (xs ++ ys) ≡ xs
take-append_length n xs ys e = ap (λ k. take k (xs ++ ys)) (sym e) ∙ take-append xs ys

pub drop-append_length : (n : ℕ) (xs ys : Bytes) → length xs ≡ n → drop n (xs ++ ys) ≡ ys
drop-append_length n xs ys e = ap (λ k. drop k (xs ++ ys)) (sym e) ∙ drop-append xs ys

pub digest_short : (d : Digest) → IsDigest d → length d.1 < 2 ^ 16
unfolding get_hash_size
digest_short d h = ground arith

alg_fits : (d : Digest) → IsDigest d → d.0 < 2 ^ 16
alg_fits d h = ground arith

pub digest_alg :
    (d : Digest) (ds : List Digest) (rest : Bytes)
    → IsDigest d
    → value_le 2 (encode_digests (d ∷ ds) ++ rest) ≡ d.0
digest_alg d ds rest h = value_le-le_bytes_2 d.0 ((d.1 ++ encode_digests ds) ++ rest) (alg_fits d h)

pub drop-digest_bytes :
    (d : Digest) (ds : List Digest) (rest : Bytes)
    → drop 2 (encode_digests (d ∷ ds) ++ rest) ≡ d.1 ++ (encode_digests ds ++ rest)
drop-digest_bytes d ds rest = append_assoc d.1 (encode_digests ds) rest

pub drop-digest :
    (d : Digest) (ds : List Digest) (rest : Bytes) (n : ℕ)
    → length d.1 ≡ n
    → drop (2 + n) (encode_digests (d ∷ ds) ++ rest) ≡ encode_digests ds ++ rest
drop-digest d ds rest n e =
    ap (λ l. drop (2 + n) (le_bytes 2 d.0 ++ l)) (append_assoc d.1 (encode_digests ds) rest)
    ∙ drop-append_length (2 + n) (le_bytes 2 d.0 ++ d.1) (encode_digests ds ++ rest)
        (omega (arith, e))

pub encode_digests-width :
    (ds : List Digest) (rest : Bytes)
    → All IsDigest ds
    → digests_width (length ds) (encode_digests ds ++ rest) ≡ length (encode_digests ds)
encode_digests-width [] rest h = refl
encode_digests-width (d ∷ ds) rest h =
    ap (λ w. w + digests_width (length ds) (drop w (encode_digests (d ∷ ds) ++ rest))) width
    ∙ ap (λ l. 2 + length d.1 + digests_width (length ds) l)
        (drop-digest d ds rest (length d.1) refl)
    ∙ ap (λ n. 2 + length d.1 + n) (encode_digests-width ds rest h.1)
    ∙ omega (arith, length-append d.1 (encode_digests ds))
  where
    width : digest_width (encode_digests (d ∷ ds) ++ rest) ≡ 2 + length d.1
    width = rw (digest_alg d ds rest h.0) (omega (arith, h.0.1))
