-- ===== src/Nv/Complete.antt =====
-- A TPM that sends what it is asked for has its data read completely.
use tpm2_tools.Base.Bytes.{Bytes}
use tpm2_tools.Base.{
  ℕ, zero, suc, ◌+◌, ◌-◌, ◌%◌, ◌^◌, ◌≤◌, ◌<◌, ◌≡◌, refl, ap, sym, ◌∙◌, false, [], ◌∷◌, ◌++◌,
  append-nil, append_assoc, arith, ltb, ◌==◌, if◌then◌else◌, length, length-append, length-take,
  length-drop, take, drop, Bool-cases, inl, inr,
}
use tpm2_tools.ToolRc.{general_error}
use tpm2_tools.Nv.{
  nv_data, nv_failed, limit_buffer_size, NvReply, nv_reply, bytes_to_read, read_pieces,
  util_nv_read,
}

-- `n` bytes from `offset` on.
abbrev pub slice : ℕ → ℕ → Bytes → Bytes
slice n offset memory = take n (drop offset memory)

limit_buffer_size-positive : (n : ℕ) → 1 ≤ limit_buffer_size n
unfolding limit_buffer_size
limit_buffer_size-positive n = ground arith

take-nil : (k : ℕ) → take {A = ℕ} k [] ≡ []
take-nil zero = refl
take-nil (suc k) = refl

drop-nil : (k : ℕ) → drop {A = ℕ} k [] ≡ []
drop-nil zero = refl
drop-nil (suc k) = refl

take_add : (m n : ℕ) (xs : Bytes) → take (m + n) xs ≡ take m xs ++ take n (drop m xs)
take_add zero n xs = ap (λ k. take k xs) (omega arith)
take_add (suc m) zero [] = take-nil (suc m + 0)
take_add (suc m) (suc n) [] = take-nil (suc m + suc n)
take_add (suc m) n (x ∷ xs) =
    let e : suc m + n ≡ suc (m + n) = omega arith in
    ap (λ k. take k (x ∷ xs)) e ∙ ap (λ l. x ∷ l) (take_add m n xs)

drop_add : (m n : ℕ) (xs : Bytes) → drop n (drop m xs) ≡ drop (m + n) xs
drop_add zero n xs = ap (λ k. drop k xs) (omega arith)
drop_add (suc m) zero [] = sym (drop-nil (suc m + 0))
drop_add (suc m) (suc n) [] = sym (drop-nil (suc m + suc n))
drop_add (suc m) n (x ∷ xs) =
    let e : suc (m + n) ≡ suc m + n = omega arith in drop_add m n xs ∙ ap (λ k. drop k (x ∷ xs)) e

module _ {Tpm : Type 0} (nv_read : Tpm → ℕ → ℕ → NvReply Tpm) (memory : Bytes) where
  -- The TPM answers each read of at most `limit` bytes within the index with those bytes.
  abbrev pub Answers : ℕ → Type 0
  Answers limit =
      (tpm : Tpm) (n offset : ℕ)
      → n ≤ limit
      → offset + n ≤ length memory
      → (tpm' : Tpm) × (nv_read tpm n offset ≡ nv_reply tpm' (slice n offset memory))

  module _ (limit : ℕ) (positive : 1 ≤ limit) (answers : Answers limit)
      (small : length memory < 2 ^ 16) where
    read_pieces-slice :
        (fuel : ℕ) (tpm : Tpm) (size offset : ℕ) (done : Bytes)
        → size ≤ fuel
        → length done + size ≤ length memory
        → offset + size ≤ length memory
        → read_pieces nv_read fuel (length memory) limit tpm size offset done
          ≡ nv_data (done ++ slice size offset memory)
    unfolding read_pieces
    read_pieces-slice fuel tpm zero offset done hf hd ho = ap nv_data (sym (append-nil done))
    read_pieces-slice zero tpm (suc size) offset done hf hd ho = absurd (omega arith)
    read_pieces-slice (suc fuel) tpm (suc size) offset done hf hd ho =
        rw (answer.1, read_pieces)
          (rw (no_overrun, left, next)
            (read_pieces-slice fuel answer.0 (suc size - n) (offset + n) (done ++ piece)
                (omega (arith, n_positive)) (omega (arith, n_fits, room)) (omega (arith, n_fits))
              ∙ ap nv_data (
                  append_assoc done piece (slice (suc size - n) (offset + n) memory)
                  ∙ ap (λ l. done ++ l) joined)))
      where
        n : ℕ
        n = bytes_to_read nv_read limit (suc size)

        n_fits : n ≤ suc size
        n_fits = ground arith

        n_positive : 1 ≤ n
        n_positive = ground arith

        piece : Bytes
        piece = slice n offset memory

        answer : (tpm' : Tpm) × (nv_read tpm n offset ≡ nv_reply tpm' piece)
        answer = answers tpm n offset (ground arith) (omega (arith, n_fits))

        size_of : length piece ≡ n
        size_of =
            omega (arith, n_fits, length-take n (drop offset memory), length-drop offset memory)

        room : length (done ++ piece) ≡ length done + n
        room = omega (arith, size_of, length-append done piece)

        no_overrun : ltb (length memory) (length (done ++ piece)) ≡ false
        no_overrun = ground (arith, room, n_fits)

        left : (2 ^ 16 + suc size - length piece) % 2 ^ 16 ≡ suc size - n
        left = omega (arith, size_of, n_fits, n_positive)

        next : (offset + length piece) % 2 ^ 16 ≡ offset + n
        next = omega (arith, size_of, n_fits)

        all_of : n + (suc size - n) ≡ suc size
        all_of = omega (arith, n_fits)

        joined : piece ++ slice (suc size - n) (offset + n) memory ≡ slice (suc size) offset memory
        joined =
            ap (λ l. piece ++ take (suc size - n) l) (sym (drop_add offset n memory))
            ∙ sym (take_add n (suc size - n) (drop offset memory))
            ∙ ap (λ k. take k (drop offset memory)) all_of

  abbrev pub wanted_size : ℕ → ℕ
  wanted_size size = if size == 0 then length memory else size

  -- For an index of less than 2 ^ 16 bytes, where the TPM answers every read of at most the
  -- limited size within the index with the bytes there, `tpm2_util_nv_read` gives the bytes asked
  -- for, all of the index for size 0, if they lie within the index, and fails with a general
  -- error if not; fuel for one round per byte of the index is enough.
  pub util_nv_read-slice :
      (max_data_size : ℕ)
      → Answers (limit_buffer_size max_data_size)
      → length memory < 2 ^ 16
      → (tpm : Tpm) (size offset : ℕ)
      → util_nv_read nv_read (length memory) (length memory) max_data_size tpm size offset ≡ (
          if ltb (length memory) (offset + wanted_size size)
          then nv_failed general_error
          else nv_data (slice (wanted_size size) offset memory))
  unfolding util_nv_read
  util_nv_read-slice max_data_size answers small tpm size offset =
      elim (Bool-cases (ltb (length memory) (offset + wanted_size size))) [
        | inl outside ↦ rw outside (ground arith)
        | inr inside ↦
            let fits : ltb (length memory) offset ≡ false = ground arith in
            rw (inside, fits)
              (read_pieces-slice (limit_buffer_size max_data_size)
                (limit_buffer_size-positive max_data_size) answers small (length memory) tpm
                (wanted_size size) offset [] (ground arith) (ground arith) (ground arith))
      ]
