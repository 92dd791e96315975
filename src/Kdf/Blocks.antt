-- ===== src/Kdf/Blocks.antt =====
-- The derived key is the beginning of the digests one after the other.
use tpm2_tools.Base.Bytes.{Bytes, be_bytes}
use tpm2_tools.Base.Outcome.{Outcome, ok}
use tpm2_tools.Base.{
  ℕ, zero, suc, ◌+◌, ◌-◌, ◌/◌, ◌≤◌, ◌<◌, ◌++◌, append_assoc, Bool, false, [], ◌∷◌, Option, some,
  ltb, length, length-append, length-take, length-drop, take-append_exact, take, drop, replicate,
  times, ◌≡◌, refl, sym, ap, ◌∙◌, arith, Bool-cases, inl, inr,
}
use tpm2_tools.EventLog.{get_hash_size}
use tpm2_tools.Kdf.{
  max_digest_buffer, max_label, concat_buffer, write_at, next_block, derive_loop, hash_input_of,
  derive, truncate, tpm2_kdfe,
}
use tpm2_tools.Util.Endian.{mem_bytes-hton}

-- H(counter | Z | OtherInfo) for `n` values of the counter from `counter` on.
abbrev pub blocks : (Bytes → Bytes) → Bytes → ℕ → ℕ → Bytes
blocks d rest zero counter = []
blocks d rest (suc n) counter = d (be_bytes 4 counter ++ rest) ++ blocks d rest n (counter + 1)

take-append_short : (n : ℕ) (xs ys : Bytes) → n ≤ length xs → take n (xs ++ ys) ≡ take n xs
take-append_short zero xs ys h = refl
take-append_short (suc n) [] ys h = absurd (omega arith)
take-append_short (suc n) (x ∷ xs) ys h = ap (λ l. x ∷ l) (take-append_short n xs ys (omega arith))

take-take : (m n : ℕ) (xs : Bytes) → m ≤ n → take m (take n xs) ≡ take m xs
take-take zero n xs h = refl
take-take (suc m) zero xs h = absurd (omega arith)
take-take (suc m) (suc n) [] h = refl
take-take (suc m) (suc n) (x ∷ xs) h = ap (λ l. x ∷ l) (take-take m n xs (omega arith))

-- What a write leaves.
abbrev written : ℕ → Bytes → Bytes → Bytes
written off x buffer = take off buffer ++ (x ++ drop (off + length x) buffer)

write_at-written :
    (off : ℕ) (x buffer : Bytes)
    → off + length x ≤ length buffer
    → (write_at off x buffer ≡ ok (written off x buffer))
      × (length (written off x buffer) ≡ length buffer)
      × (take (off + length x) (written off x buffer) ≡ take off buffer ++ x)
write_at-written off x buffer h =
    let t = length-take off buffer in
    let d = length-drop (off + length x) buffer in
    let a = length-append x (drop (off + length x) buffer) in
    let b = length-append (take off buffer) (x ++ drop (off + length x) buffer) in
    let c = length-append (take off buffer) x in
    let fits : ltb (length buffer) (off + length x) ≡ false = ground arith in
    (
      rw fits refl,
      omega arith,
      ap (take (off + length x))
            (sym (append_assoc (take off buffer) x (drop (off + length x) buffer)))
          ∙ take-append_exact (off + length x) (take off buffer ++ x) (drop (off + length x) buffer)
              (omega arith),
    )

module _ (digester : ℕ → Option (Bytes → Bytes)) (big : Bool) (d : Bytes → Bytes) (hash_size : ℕ)
    (sized : (b : Bytes) → length (d b) ≡ hash_size) (some_size : 0 < hash_size) (bytes : ℕ)
    (input : Bytes) where
  abbrev rest : Bytes
  rest = drop 4 input

  -- The loop ends behind the bytes that are asked for.
  derive_loop-full :
      (left k done counter : ℕ) (buffer : Bytes)
      → bytes ≤ done
      → done ≤ length buffer
      → (b : Bytes) × (derive_loop digester big
            (suc left)
            bytes
            hash_size
            d
            done
            counter
            input
            buffer
          ≡ ok b)
        × (take bytes b ≡ take bytes (take done buffer ++ blocks d rest k counter))
  unfolding derive_loop
  derive_loop-full left k done counter buffer h m =
      let t = length-take done buffer in
      let over : ltb done bytes ≡ false = ground arith in
      (
        buffer,
        rw over refl,
        sym (
            take-append_short bytes (take done buffer) (blocks d rest k counter) (omega arith)
            ∙ take-take bytes done buffer h),
      )

  derive_loop-blocks :
      (left k done counter : ℕ) (buffer : Bytes)
      → bytes - done < left
      → bytes ≤ done + times k hash_size
      → done + times k hash_size ≤ length buffer
      → (b : Bytes) × (derive_loop digester big left bytes hash_size d done counter input buffer
          ≡ ok b)
        × (take bytes b ≡ take bytes (take done buffer ++ blocks d rest k counter))
  unfolding derive_loop
  derive_loop-blocks zero k done counter buffer h l m = absurd (omega arith)
  derive_loop-blocks (suc left) zero done counter buffer h l m =
      derive_loop-full left zero done counter buffer (omega arith) (omega arith)
  derive_loop-blocks (suc left) (suc k) done counter buffer h l m =
      elim (Bool-cases (ltb done bytes)) [
        | inr over ↦ derive_loop-full left (suc k) done counter buffer (ground arith) (omega arith)
        | inl more ↦
            let less : done < bytes = ground arith in
            let s = sized (be_bytes 4 counter ++ rest) in
            let fits : done + length this ≤ length buffer = omega arith in
            let (q, n, w) = write_at-written done this buffer fits in
            let (b, e, r) =
              derive_loop-blocks left k (done + hash_size) (counter + 1) (written done this buffer)
                (omega arith) (omega arith) (omega arith) in
            (
              b,
              rw more (
                  ap (λ x. next_block digester big (write_at done (d (x ++ rest)) buffer) continue)
                    (mem_bytes-hton big 4 counter)
                  ∙ ap (λ o. next_block digester big o continue) q
                  ∙ e),
              r
                  ∙ ap (λ x. take bytes (x ++ blocks d rest k (counter + 1)))
                      (ap (λ n. take (done + n) (written done this buffer)) (sym s) ∙ w)
                  ∙ ap (take bytes)
                      (append_assoc (take done buffer) this (blocks d rest k (counter + 1))),
            )
      ]
    where
      this : Bytes
      this = d (be_bytes 4 counter ++ rest)

      continue : Bytes → Outcome Bytes
      continue b =
          derive_loop digester big left bytes hash_size d (done + hash_size) (counter + 1) input b

concat_buffer-fits :
    (r a : Bytes) → length r + length a ≤ max_digest_buffer → concat_buffer r a ≡ r ++ a
unfolding concat_buffer
concat_buffer-fits r a h =
    let fits : ltb max_digest_buffer (length r + length a) ≡ false = ground arith in rw fits refl

hash_input_of-parts :
    (digester : ℕ → Option (Bytes → Bytes)) (big : Bool) (z label party_u party_v : Bytes)
    → 4 + length z + length label + length party_u + length party_v ≤ max_digest_buffer
    → hash_input_of digester big z label party_u party_v
      ≡ replicate 4 0 ++ (z ++ label ++ party_u ++ party_v)
unfolding hash_input_of
hash_input_of-parts digester big z label party_u party_v m =
    let first = replicate 4 0 ++ z in
    let a = length-append first label in
    let b = length-append (first ++ label) party_u in
    ap (λ x. concat_buffer (concat_buffer (concat_buffer x label) party_u) party_v)
      (concat_buffer-fits (replicate 4 0) z (omega arith))
    ∙ ap (λ x. concat_buffer (concat_buffer x party_u) party_v)
        (concat_buffer-fits first label (omega arith))
    ∙ ap (λ x. concat_buffer x party_v) (concat_buffer-fits (first ++ label) party_u (omega arith))
    ∙ concat_buffer-fits ((first ++ label) ++ party_u) party_v (omega arith)

-- The key that is derived is the beginning of the digests of the counter from 1 on, the shared secret,
-- the label and both parties' data, for a digest of the length that the algorithm says, as long as
-- these parts fit their buffers and the result's buffer has room for `n` whole digests, which are
-- enough for the key.
pub tpm2_kdfe-blocks :
    (digester : ℕ → Option (Bytes → Bytes)) (big : Bool) (hash_alg : ℕ) (d : Bytes → Bytes)
    (z label party_u party_v : Bytes) (size_in_bits n : ℕ) (buffer : Bytes)
    → digester hash_alg ≡ some d
    → ((b : Bytes) → length (d b) ≡ get_hash_size hash_alg)
    → 0 < get_hash_size hash_alg
    → length label ≤ max_label
    → 4 + length z + length label + length party_u + length party_v ≤ max_digest_buffer
    → (size_in_bits + 7) / 8 ≤ times n (get_hash_size hash_alg)
    → times n (get_hash_size hash_alg) ≤ length buffer
    → tpm2_kdfe digester big hash_alg z label party_u party_v size_in_bits buffer
      ≡ ok (take ((size_in_bits + 7) / 8) (blocks d (z ++ label ++ party_u ++ party_v) n 1))
unfolding tpm2_kdfe derive
tpm2_kdfe-blocks digester big hash_alg d z label party_u party_v size_in_bits n buffer e s h l m i
      j =
    let short : ltb max_label (length label) ≡ false = ground arith in
    let (b, q, r) =
      derive_loop-blocks digester big d (get_hash_size hash_alg) s h bytes (replicate 4 0 ++ parts)
        (suc bytes) n 0 1 buffer (omega arith) (omega arith) (omega arith) in
    rw short (
      ap
        (λ o. truncate digester big bytes (
          derive digester big o bytes (get_hash_size hash_alg)
            (hash_input_of digester big z label party_u party_v) buffer))
        e
      ∙ ap
          (λ i.
            truncate digester big bytes
              (derive digester big (some d) bytes (get_hash_size hash_alg) i buffer))
          (hash_input_of-parts digester big z label party_u party_v m)
      ∙ ap (truncate digester big bytes) q
      ∙ ap ok r)
  where
    bytes : ℕ
    bytes = (size_in_bits + 7) / 8

    parts : Bytes
    parts = z ++ label ++ party_u ++ party_v
