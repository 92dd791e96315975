-- ===== src/EventLog/Log.antt =====
-- The loops over the events of a log, its Spec ID header, and the entry point `parse_eventlog`.
use mathlib.Core.Option
pub mod Safety
pub mod Sha1
use tpm2_tools.Base.Bytes.{Bytes, read_le, read_field, read_bytes}
use tpm2_tools.Base.Outcome.{Outcome, ok, refused, fault, refuse_if, ignored, ◌>>=◌, ◌>>◌}
use tpm2_tools.Base.{
  ℕ, zero, suc, ◌+◌, ◌-◌, ◌*◌, ◌^◌, bit_or, Bool, true, false, not, ◌&&◌, List, [], ◌∷◌, Option,
  some, none, ltb, ◌==◌, if◌then◌else◌, get_or, drop,
}
use tpm2_tools.EventLog.Event.{ev_no_action, EventSizes, parse_event2, parse_event2body}
use tpm2_tools.EventLog.Verify.{verify_digests}
use tpm2_tools.EventLog.{Context, PcrBank, Callbacks, call, foreach_digest2, extend_bank}
use tpm2_tools.Tss

abbrev pub all_zero : Bytes → Bool
all_zero [] = true
all_zero (x ∷ b) = x == 0 && all_zero b

-- `specid_event`: the offset of the first TCG_EVENT_HEADER2.
unfoldable pub specid_event : Bytes → ℕ → Outcome ℕ
unfolding read_field read_bytes
specid_event event size = do
  refuse_if (ltb size 32)
  type ← read_field 4 4 event
  refuse_if (not (type == ev_no_action))
  pcr_index ← read_field 0 4 event
  refuse_if (not (pcr_index == 0))
  digest ← read_bytes 20 (drop 8 event)
  refuse_if (not (all_zero digest))
  data_size ← read_field 28 4 event
  refuse_if (ltb data_size 28)
  refuse_if (ltb size (32 + data_size))
  algorithms ← read_field 56 4 event
  refuse_if (algorithms == 0)
  refuse_if (ltb size (60 + 4 * algorithms))
  refuse_if (ltb size (60 + 4 * algorithms + 1))
  vendor_size ← read_field (60 + 4 * algorithms) 1 event
  refuse_if (ltb size (60 + 4 * algorithms + 1 + vendor_size))
  ok (60 + 4 * algorithms + 1 + vendor_size)

module _ (hash : ℕ → Bytes → Option Bytes) {D : Type 0} (cb : Callbacks D) where
  -- What the loop of `foreach_event2` does with the event at `eventhdr`, whose sizes are known.
  unfoldable pub step_event2 : Bytes → EventSizes → Context D → Outcome (Context D)
  unfolding read_field foreach_digest2 parse_event2body verify_digests
  step_event2 eventhdr sizes ctx = do
    let event = drop (12 + sizes.digests_size) eventhdr
    ctx1 ← call (Option.map (λ f. f eventhdr sizes.event_size) cb.event2hdr_cb) ctx
    pcr_index ← read_field 0 4 eventhdr
    type ← read_field 4 4 eventhdr
    count ← read_field 8 4 eventhdr
    ctx2 ← foreach_digest2 hash cb pcr_index (drop 12 eventhdr) count sizes.digests_size ctx1
    parse_event2body event type
    if cb.has_data then ignored (verify_digests hash eventhdr event) else ok tt
    call (Option.map (λ f. f event type) cb.event2_cb) ctx2

  -- `foreach_event2`, on fuel: each event has at least 16 bytes.
  unfoldable pub event2_loop : ℕ → Bytes → ℕ → Context D → Outcome (Context D)
  unfolding parse_event2 step_event2
  event2_loop fuel eventhdr zero ctx = ok ctx
  event2_loop zero eventhdr (suc size) ctx = fault
  event2_loop (suc fuel) eventhdr (suc size) ctx = do
    sizes ← parse_event2 hash eventhdr (suc size)
    ctx' ← step_event2 eventhdr sizes ctx
    event2_loop fuel (drop sizes.event_size eventhdr) (suc size - sizes.event_size) ctx'

  unfoldable pub foreach_event2 : Bytes → ℕ → Context D → Outcome (Context D)
  unfolding event2_loop
  foreach_event2 eventhdr size ctx = event2_loop size eventhdr size ctx

  -- The extension in `parse_sha1_log_event`: neither the index nor the result of the hash is checked.
  pub extend_sha1 : ℕ → Bytes → Context D → Outcome (Context D)
  unfolding extend_bank
  extend_sha1 pcr_index d ctx = elim (extend_bank hash Tss.alg_sha1 pcr_index d 20 ctx.sha1) [
    | ok b ↦ ok (record ctx { sha1 = b })
    | refused ↦
        let b = ctx.sha1 in
        ok (record ctx { sha1 = record b { used = bit_or b.used (2 ^ pcr_index) } })
    | fault ↦ fault
  ]

  -- `parse_sha1_log_event`: the event's size, and the context after the extension.
  pub parse_sha1_log_event : Bytes → ℕ → Context D → Outcome (ℕ × Context D)
  unfolding read_field extend_sha1
  parse_sha1_log_event event size ctx = do
    refuse_if (ltb size 32)
    pcr_index ← read_field 0 4 event
    ctx' ← extend_sha1 pcr_index (drop 8 event) ctx
    data_size ← read_field 28 4 event
    refuse_if (ltb size (32 + data_size))
    ok (32 + data_size, ctx')

  pub sha1_loop : ℕ → Bytes → ℕ → Context D → Outcome (Context D)
  unfolding parse_sha1_log_event parse_event2body read_field
  sha1_loop fuel event zero ctx = ok ctx
  sha1_loop zero event (suc size) ctx = fault
  sha1_loop (suc fuel) event (suc size) ctx = do
    parsed ← parse_sha1_log_event event (suc size) ctx
    ctx1 ← call (Option.map (λ f. f event parsed.0) cb.log_eventhdr_cb) parsed.1
    type ← read_field 4 4 event
    parse_event2body (drop 28 event) type
    ctx2 ← call (Option.map (λ f. f (drop 28 event) type) cb.event2_cb) ctx1
    sha1_loop fuel (drop parsed.0 event) (suc size - parsed.0) ctx2

  -- `foreach_sha1_log_event`: each event has at least 32 bytes.
  unfoldable pub foreach_sha1_log_event : Bytes → ℕ → Context D → Outcome (Context D)
  unfolding sha1_loop
  foreach_sha1_log_event event size ctx = sha1_loop size event size ctx

  unfoldable pub parse_eventlog : Bytes → ℕ → Context D → Outcome (Context D)
  unfolding read_field specid_event foreach_event2 foreach_sha1_log_event
  parse_eventlog eventlog size ctx = do
    refuse_if (ltb size 32)
    type ← read_field 4 4 eventlog
    if type == ev_no_action
        then (do
          next ← specid_event eventlog size
          ctx' ← call (Option.map (λ f. f eventlog) cb.specid_cb) ctx
          foreach_event2 (drop next eventlog) (size - next) ctx')
        else foreach_sha1_log_event eventlog size ctx
