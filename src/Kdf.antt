-- ===== src/Kdf.antt =====
-- lib/tpm2_kdfe.c: the key derivation function KDFe, for any digest and either byte order of the host.
-- A digest that is not supported is NULL.
pub mod Blocks
mod Tests
use tpm2_tools.Base.Bytes.{Bytes}
use tpm2_tools.Base.Outcome.{Outcome, ok, refused, fault}
use tpm2_tools.Base.{
  ℕ, zero, suc, ◌+◌, ◌/◌, ◌++◌, Bool, true, false, [], Option, none, some, ltb, if◌then◌else◌,
  length, take, drop, replicate,
}
use tpm2_tools.EventLog.{get_hash_size}
use tpm2_tools.Util.Endian.{hton, mem_bytes}

-- TPM2_MAX_DIGEST_BUFFER, the length of a TPM2B_MAX_BUFFER, and sizeof(use.buffer)
abbrev pub max_digest_buffer : ℕ
max_digest_buffer = 1024

abbrev pub max_label : ℕ
max_label = 66

-- `tpm2_util_concat_buffer` (lib/tpm2_util.c), on the bytes up to the size: what it leaves. Its result
-- is not looked at.
unfoldable pub concat_buffer : Bytes → Bytes → Bytes
concat_buffer result append =
    if ltb max_digest_buffer (length result + length append) then result else result ++ append

-- A write of some bytes at an offset of a buffer.
abbrev pub write_at : ℕ → Bytes → Bytes → Outcome Bytes
write_at off bytes buffer =
    if ltb (length buffer) (off + length bytes)
    then fault
    else ok (take off buffer ++ (bytes ++ drop (off + length bytes) buffer))

module _ (digester : ℕ → Option (Bytes → Bytes)) (big : Bool) where
  abbrev pub block : (Bytes → Bytes) → ℕ → Bytes → Bytes
  block d counter hash_input = d (mem_bytes big 4 (hton big 4 counter) ++ drop 4 hash_input)

  abbrev pub next_block : Outcome Bytes → (Bytes → Outcome Bytes) → Outcome Bytes
  next_block (ok buffer) next = next buffer
  next_block refused next = refused
  next_block fault next = fault

  -- The loop, with `left` rounds of fuel.
  unfoldable pub derive_loop : ℕ → ℕ → ℕ → (Bytes → Bytes) → ℕ → ℕ → Bytes → Bytes → Outcome Bytes
  derive_loop zero bytes hash_size d done counter hash_input buffer = fault
  derive_loop (suc left) bytes hash_size d done counter hash_input buffer =
      let next =
        next_block (write_at done (block d counter hash_input) buffer)
          (λ b. derive_loop left bytes hash_size d (done + hash_size) (counter + 1) hash_input b) in
      if ltb done bytes then next else ok buffer

  -- What the digest is made of, behind the room for the counter.
  unfoldable pub hash_input_of : Bytes → Bytes → Bytes → Bytes → Bytes
  unfolding concat_buffer
  hash_input_of z label party_u party_v =
      concat_buffer (concat_buffer (concat_buffer (concat_buffer (replicate 4 0) z) label) party_u)
        party_v

  -- The call of a digest that is NULL, which the loop reaches if there is a byte to derive.
  abbrev pub derive : Option (Bytes → Bytes) → ℕ → ℕ → Bytes → Bytes → Outcome Bytes
  unfolding derive_loop
  derive none bytes hash_size hash_input buffer = if ltb 0 bytes then fault else ok buffer
  derive (some d) bytes hash_size hash_input buffer =
      derive_loop (suc bytes) bytes hash_size d 0 1 hash_input buffer

  abbrev pub truncate : ℕ → Outcome Bytes → Outcome Bytes
  truncate bytes (ok buffer) = ok (take bytes buffer)
  truncate bytes refused = refused
  truncate bytes fault = fault

  -- `tpm2_kdfe`; `buffer` is what the result's buffer holds before.
  unfoldable pub tpm2_kdfe : ℕ → Bytes → Bytes → Bytes → Bytes → ℕ → Bytes → Outcome Bytes
  unfolding hash_input_of get_hash_size derive
  tpm2_kdfe hash_alg z label party_u party_v size_in_bits buffer =
      let bytes = (size_in_bits + 7) / 8 in
      if ltb max_label (length label)
      then fault
      else truncate bytes (
          derive (digester hash_alg) bytes (get_hash_size hash_alg)
            (hash_input_of z label party_u party_v) buffer)
