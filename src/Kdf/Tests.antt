-- ===== src/Kdf/Tests.antt =====
-- Key derivation by example, with a digest that repeats its first bytes.
use tpm2_tools.Base.Bytes.{Bytes}
use tpm2_tools.Base.Outcome.{ok}
use tpm2_tools.Base.{false, ◌++◌, [], ◌∷◌, some, take, replicate, length, ◌≡◌, refl, arith}
use tpm2_tools.EventLog.{get_hash_size}
use tpm2_tools.Kdf.{tpm2_kdfe}
use tpm2_tools.Kdf.Blocks.{blocks, tpm2_kdfe-blocks}

-- The counter's lowest byte, 20 times.
nth_digest : Bytes → Bytes
nth_digest (a ∷ b ∷ c ∷ n ∷ rest) = replicate 20 n
nth_digest b = replicate 20 0

length-nth_digest : (b : Bytes) → length (nth_digest b) ≡ get_hash_size 4
unfolding nth_digest get_hash_size
length-nth_digest [] = refl
length-nth_digest (a ∷ []) = refl
length-nth_digest (a ∷ b ∷ []) = refl
length-nth_digest (a ∷ b ∷ c ∷ []) = refl
length-nth_digest (a ∷ b ∷ c ∷ n ∷ rest) = refl

tpm2_kdfe-blocks_example :
    tpm2_kdfe (λ alg. some nth_digest) false 4 (7 ∷ []) (8 ∷ 0 ∷ []) [] [] 256 (replicate 64 0)
    ≡ ok (take 32 (blocks nth_digest ((7 ∷ []) ++ (8 ∷ 0 ∷ [])) 2 1))
unfolding get_hash_size
tpm2_kdfe-blocks_example =
    tpm2_kdfe-blocks (λ alg. some nth_digest) false 4 nth_digest (7 ∷ []) (8 ∷ 0 ∷ []) [] [] 256 2
      (replicate 64 0) refl length-nth_digest (omega arith) (omega arith) (omega arith)
      (omega arith) (omega arith)
