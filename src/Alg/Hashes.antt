-- ===== src/Alg/Hashes.antt =====
-- The algorithms that the table of lib/tpm2_alg_util.c has as hashes and as modes, listed by their
-- identifiers in the TPM 2.0 specification.
use tpm2_tools.Alg.Ids.{alg_hmac, alg_xor, alg_null}
use tpm2_tools.Alg.Table.{AlgPair, algs, flags_hash, flags_mode, flags_misc}
use tpm2_tools.Alg.{for_each_alg, find_match, algtostr, overlap}
use tpm2_tools.Base.{
  ℕ, ◌+◌, Bool, true, false, ◌||◌, List, [], ◌∷◌, none, ◌==◌, if◌then◌else◌, ◌≡◌, ◌≢◌, refl, arith,
}
use tpm2_tools.Tss

abbrev pub one_of : List ℕ → ℕ → Bool
one_of [] n = false
one_of (x ∷ xs) n = n == x || one_of xs n

-- TPM2_ALG_SHA3_256, TPM2_ALG_SHA3_384 and TPM2_ALG_SHA3_512
abbrev pub sha3_hashes : List ℕ
sha3_hashes = 0x27 ∷ 0x28 ∷ 0x29 ∷ []

-- The hashes whose size lib/tpm2_alg_util.c knows.
abbrev pub sized_hashes : List ℕ
sized_hashes =
    Tss.alg_sha1 ∷ Tss.alg_sha256 ∷ Tss.alg_sha384 ∷ Tss.alg_sha512 ∷ Tss.alg_sm3_256 ∷ []

-- The keyed hashes that share the flag of the hashes.
abbrev pub keyed_hashes : List ℕ
keyed_hashes = alg_hmac ∷ alg_xor ∷ []

abbrev pub is_hash : ℕ → Bool
is_hash id = one_of sized_hashes id || one_of sha3_hashes id

-- TPM2_ALG_CTR, TPM2_ALG_OFB, TPM2_ALG_CBC, TPM2_ALG_CFB and TPM2_ALG_ECB
abbrev pub modes : List ℕ
modes = 0x40 ∷ 0x41 ∷ 0x42 ∷ 0x43 ∷ 0x44 ∷ []

-- The identifiers that a table has under some flags.
abbrev ids_of : ℕ → List AlgPair → List ℕ
ids_of flags [] = []
ids_of flags (a ∷ as_) = if overlap flags a.flags then a.id ∷ ids_of flags as_ else ids_of flags as_

find_match-ids_of :
    (table : List AlgPair) (id flags : ℕ)
    → (for_each_alg find_match table
        (record { name = none; id = id; flags = flags; found_flags = 0 })).name
      ≢ none
    → one_of (ids_of flags table) id ≡ true
unfolding for_each_alg find_match
find_match-ids_of [] id flags h = absurd (h refl)
find_match-ids_of (a ∷ table) id flags h =
    pick (id == a.id) (overlap flags a.flags) refl refl (λ k. find_match-ids_of table id flags k)
  where
    pick :
        (b c : Bool)
        → (id == a.id) ≡ b
        → overlap flags a.flags ≡ c
        → ((for_each_alg find_match table
                (record { name = none; id = id; flags = flags; found_flags = 0 })).name
              ≢ none
            → one_of (ids_of flags table) id ≡ true)
        → one_of (ids_of flags (a ∷ table)) id ≡ true
    pick true true e o k = rw (o, e) refl
    pick true false e o k = absurd (h (rw (e, o) refl))
    pick false true e o k = rw (o, e) (k (λ z. h (rw e z)))
    pick false false e o k = rw o (k (λ z. h (rw e z)))

pub algtostr-hash :
    (id : ℕ) → algtostr id flags_hash ≢ none → (is_hash id || one_of keyed_hashes id) ≡ true
unfolding algtostr algs
algtostr-hash id h = let t = find_match-ids_of algs id flags_hash h in ground (arith, t)

pub algtostr-mode :
    (id : ℕ)
    → algtostr id (flags_mode + flags_misc) ≢ none
    → (one_of modes id || id == alg_null) ≡ true
unfolding algtostr algs
algtostr-mode id h =
    let t = find_match-ids_of algs id (flags_mode + flags_misc) h in ground (arith, t)
