-- ===== src/EventLog.antt =====
-- lib/tpm2_eventlog.c: the parser of binary firmware event logs, which replays the measurements into
-- PCR banks. Here are its types, the hash calls of lib/tpm2_openssl.c and the digests of one event.
pub mod Event
pub mod Verify
pub mod Log
pub mod Digests
pub mod Sizes
pub mod Replay
mod Tests
use tpm2_tools.Base.Bytes.{Bytes, read_le, read_field, read_bytes}
use tpm2_tools.Base.Outcome.{Outcome, ok, refused, fault, refuse_if, ◌>>=◌, ◌>>◌}
use tpm2_tools.Base.{
  ℕ, zero, suc, ◌+◌, ◌-◌, ◌*◌, ◌%◌, ◌^◌, bit_or, Bool, true, false, ◌||◌, List, [], ◌∷◌, ◌++◌,
  Option, none, some, ltb, ◌==◌, if◌then◌else◌, get_elem?, set, take, drop, replicate,
}
use mathlib.Core.Option
use tpm2_tools.Tss

-- `tpm2_alg_util_get_hash_size`
unfoldable pub get_hash_size : ℕ → ℕ
get_hash_size id =
    if id == Tss.alg_sha1
    then 20
    else if id == Tss.alg_sha256
    then 32
    else if id == Tss.alg_sha384
    then 48
    else if id == Tss.alg_sha512
    then 64
    else if id == Tss.alg_sm3_256
    then 32
    else 0

-- One algorithm's PCRs and the mask of those that were extended.
pub record PcrBank : Type 0 where
  pub used : ℕ
  pub pcrs : List Bytes

-- `tpm2_eventlog_context` without its callbacks; `user` is what `data` points to.
pub record Context (D : Type 0) : Type 0 where
  pub user : D
  pub sha1 : PcrBank
  pub sha256 : PcrBank
  pub sha384 : PcrBank
  pub sha512 : PcrBank
  pub sm3_256 : PcrBank

-- The callbacks of a context. A pointer argument is the memory from there on; `none` is a callback
-- that returns false. `has_data` is `data != 0`. The version that `event2_cb` is given stands in the
-- context and never changes, so it is part of the callback here.
pub record Callbacks (D : Type 0) : Type 0 where
  pub has_data : Bool
  pub specid_cb : Option (Bytes → D → Option D)
  pub log_eventhdr_cb : Option (Bytes → ℕ → D → Option D)
  pub event2hdr_cb : Option (Bytes → ℕ → D → Option D)
  pub digest2_cb : Option (Bytes → ℕ → D → Option D)
  pub event2_cb : Option (Bytes → ℕ → D → Option D)

abbrev pub returned {ℓ} : {A : Type ℓ} → Option A → Outcome A
returned none = refused
returned (some a) = ok a

-- if (cb != NULL) { ret = cb(...); if (!ret) return false; }
abbrev pub call : {D : Type 0} → Option (D → Option D) → Context D → Outcome (Context D)
call none ctx = ok ctx
call (some f) ctx = do u ← returned (f ctx.user); ok (record ctx { user = u })

abbrev pub empty_bank : ℕ → PcrBank
empty_bank size = record { used = 0; pcrs = replicate Tss.max_pcrs (replicate size 0) }

-- A context that is zero but for its callbacks and data.
abbrev pub new_context : {D : Type 0} → D → Context D
new_context u = record {
  user = u;
  sha1 = empty_bank 20;
  sha256 = empty_bank 32;
  sha384 = empty_bank 48;
  sha512 = empty_bank 64;
  sm3_256 = empty_bank 32;
}

-- EVP_Digest of OpenSSL: `none` for an algorithm that it does not have, or a failed call.
module _ (hash : ℕ → Bytes → Option Bytes) where
  -- `tpm2_openssl_hash_compute_data`, whose `length` is a UINT16
  unfoldable pub hash_compute_data : ℕ → Bytes → ℕ → Outcome Bytes
  unfolding read_bytes
  hash_compute_data halg buffer length = do
    msg ← read_bytes (length % 2 ^ 16) buffer
    returned (hash halg msg)

  -- `tpm2_openssl_pcr_extend`: pcr = HASH(pcr + data)
  unfoldable pub pcr_extend : ℕ → Bytes → Bytes → ℕ → Outcome Bytes
  unfolding read_bytes
  pcr_extend halg pcr d length = do
    msg ← read_bytes (length % 2 ^ 16) d
    returned (hash halg (pcr ++ msg))

  -- `used |= 1 << pcr_index`, and the extension of that PCR
  pub extend_bank : ℕ → ℕ → Bytes → ℕ → PcrBank → Outcome PcrBank
  unfolding pcr_extend
  extend_bank alg pcr_index d length b = elim (get_elem? b.pcrs pcr_index) [
    | none ↦ fault
    | some pcr ↦ do
      pcr' ← pcr_extend alg pcr d length
      ok (record { used = bit_or b.used (2 ^ pcr_index); pcrs = set b.pcrs pcr_index pcr' })
  ]

  -- The bank that an algorithm selects; another algorithm is only warned of.
  pub extend_alg : {D : Type 0} → ℕ → ℕ → Bytes → ℕ → Context D → Outcome (Context D)
  unfolding extend_bank
  extend_alg alg i d length ctx =
      if alg == Tss.alg_sha1
      then (do b ← extend_bank alg i d length ctx.sha1; ok (record ctx { sha1 = b }))
      else if alg == Tss.alg_sha256
      then (do b ← extend_bank alg i d length ctx.sha256; ok (record ctx { sha256 = b }))
      else if alg == Tss.alg_sha384
      then (do b ← extend_bank alg i d length ctx.sha384; ok (record ctx { sha384 = b }))
      else if alg == Tss.alg_sha512
      then (do b ← extend_bank alg i d length ctx.sha512; ok (record ctx { sha512 = b }))
      else if alg == Tss.alg_sm3_256
      then (do b ← extend_bank alg i d length ctx.sm3_256; ok (record ctx { sm3_256 = b }))
      else ok ctx

  module _ {D : Type 0} (cb : Callbacks D) (pcr_index : ℕ) where
    -- What the loop of `foreach_digest2` does with one digest, which begins at `digest`.
    pub step_digest2 : ℕ → ℕ → Bytes → Context D → Outcome (Context D)
    unfolding extend_alg
    step_digest2 alg alg_size digest ctx = do
      ctx' ← extend_alg alg pcr_index (drop 2 digest) alg_size ctx
      call (Option.map (λ f. f digest alg_size) cb.digest2_cb) ctx'

    -- The loop, with `count` digests to go in `size` bytes.
    pub digest2_loop : ℕ → Bytes → ℕ → Context D → Outcome (Context D)
    unfolding read_le get_hash_size step_digest2
    digest2_loop zero digest size ctx = ok ctx
    digest2_loop (suc count) digest size ctx = do
      refuse_if (ltb size 2)
      alg ← read_le 2 digest
      let alg_size = get_hash_size alg
      refuse_if (ltb size (2 + alg_size))
      ctx' ← step_digest2 alg alg_size digest ctx
      digest2_loop count (drop (2 + alg_size) digest) (size - (2 + alg_size)) ctx'

    pub foreach_digest2 : Bytes → ℕ → ℕ → Context D → Outcome (Context D)
    unfolding digest2_loop
    foreach_digest2 digest count size ctx = do
      refuse_if (ltb (Tss.max_pcrs - 1) pcr_index)
      digest2_loop count digest size ctx

-- `digest2_accumulator_callback`
unfoldable pub digest2_accumulator : Bytes → ℕ → ℕ → Option ℕ
digest2_accumulator digest size accumulator = some (accumulator + (2 + size))

abbrev pub accumulating : Callbacks ℕ
accumulating = record {
  has_data = true;
  specid_cb = none;
  log_eventhdr_cb = none;
  event2hdr_cb = none;
  digest2_cb = some digest2_accumulator;
  event2_cb = none;
}
