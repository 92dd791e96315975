-- ===== src/EventLog/Sizes.antt =====
-- `parse_event2` accepts an event only with sizes that lie in the buffer.
use tpm2_tools.Base.Bytes.{Bytes, read_le-ok, read_field-ok, value_le, field_le}
use tpm2_tools.Base.Outcome.{
  ok, ◌>>=◌, Ensures, Ensures-bind, Ensures-mono, Ensures-if, Ensures-ok, Ensures-refuse_if,
  Ensures-guard, Ensures-guard_ok,
}
use tpm2_tools.Base.{
  ℕ, ◌+◌, ◌-◌, ◌*◌, ◌%◌, ◌^◌, ◌≤◌, ◌<◌, ◌≡◌, refl, ◌∙◌, false, Option, arith, ltb, length, drop,
  length-drop,
}
use tpm2_tools.EventLog.Digests.{
  IsLog, digests_width, digest2_loop-Ensures, Accumulated, digest2_loop-accumulating,
}
use tpm2_tools.EventLog.Event.{
  EventSizes, parse_event2, parse_event2body, parse_variable, is_variable, is_blob, is_image,
}
use tpm2_tools.EventLog.{
  Context, Callbacks, new_context, accumulating, digest2_loop, foreach_digest2,
}
use tpm2_tools.Tss

pub new_context-IsLog : {D : Type 0} (u : D) → IsLog (new_context u)
new_context-IsLog u = omega arith

-- The sizes that `parse_event2` reports for the event at `eventhdr`: its PCR exists, the digests take
-- up `digests_size` bytes behind the header of 12, then come EventSize and the event's data, and all of
-- it lies within `buf_size`.
pub record IsSized (eventhdr : Bytes) (buf_size : ℕ) (s : EventSizes) : Type 0 where
  pub pcr_exists : field_le 0 4 eventhdr < Tss.max_pcrs
  pub digests_are : s.digests_size ≡ digests_width (field_le 8 4 eventhdr) (drop 12 eventhdr)
  pub event_is : s.event_size ≡ 16 + s.digests_size + field_le (12 + s.digests_size) 4 eventhdr
  pub fits : s.event_size ≤ buf_size

module _ (hash : ℕ → Bytes → Option Bytes) where
  pub foreach_digest2-Ensures :
      {D : Type 0} (cb : Callbacks D) (i : ℕ) (digest : Bytes) (count size : ℕ) (ctx : Context D)
      → size ≤ length digest
      → IsLog ctx
      → Ensures IsLog (foreach_digest2 hash cb i digest count size ctx)
  unfolding foreach_digest2
  foreach_digest2-Ensures cb i digest count size ctx h l =
      Ensures-refuse_if IsLog (ltb (Tss.max_pcrs - 1) i)
        (digest2_loop hash cb i count digest size ctx)
        λ small. digest2_loop-Ensures hash cb i (ground arith) count digest size ctx h l

  foreach_digest2-accumulating :
      (i : ℕ) (digest : Bytes) (count size : ℕ) (ctx : Context ℕ)
      → size ≤ length digest
      → IsLog ctx
      → Ensures
          (λ ctx'. (i < Tss.max_pcrs) × (ctx'.user ≡ ctx.user + digests_width count digest))
          (foreach_digest2 hash accumulating i digest count size ctx)
  unfolding foreach_digest2
  foreach_digest2-accumulating i digest count size ctx h l =
      Ensures-refuse_if _ (ltb (Tss.max_pcrs - 1) i)
        (digest2_loop hash accumulating i count digest size ctx)
        λ small.
          let hi : i < Tss.max_pcrs = ground arith in
          Ensures-mono (Accumulated hash i hi count digest size ctx) _ _ (λ ctx' a. (hi, a.width))
            (digest2_loop-accumulating hash i hi count digest size ctx h l)

  -- On a buffer of at least `buf_size` bytes `parse_event2` reads nothing outside it, and accepts an
  -- event only with the sizes that it has there.
  pub parse_event2-IsSized :
      (eventhdr : Bytes) (buf_size : ℕ)
      → buf_size ≤ length eventhdr
      → Ensures (IsSized eventhdr buf_size) (parse_event2 hash eventhdr buf_size)
  unfolding parse_event2 foreach_digest2
  parse_event2-IsSized eventhdr buf_size h = Ensures-refuse_if _ (ltb buf_size 12) _ λ header.
      Ensures-ok _ _ (read_field-ok 0 4 eventhdr (ground arith)) (
        Ensures-ok _ _ (read_field-ok 8 4 eventhdr (ground arith)) (
          Ensures-bind _ _
            (foreach_digest2 hash accumulating (field_le 0 4 eventhdr) (drop 12 eventhdr)
              (field_le 8 4 eventhdr) (buf_size - 12) (new_context 0))
            _
            (foreach_digest2-accumulating (field_le 0 4 eventhdr) (drop 12 eventhdr)
              (field_le 8 4 eventhdr) (buf_size - 12) (new_context 0)
              (ground (arith, length-drop 12 eventhdr)) (new_context-IsLog 0))
            (λ ctx a. Ensures-refuse_if _ (ltb buf_size (12 + ctx.user + 4)) _ λ size_fits.
              Ensures-ok _ _ (read_field-ok (12 + ctx.user) 4 eventhdr (ground arith)) (
                Ensures-refuse_if _
                  (ltb buf_size (12 + ctx.user + 4 + field_le (12 + ctx.user) 4 eventhdr)) _
                  λ data_fits. record {
                    pcr_exists = a.0;
                    digests_are = a.1 ∙ omega arith;
                    event_is = omega arith;
                    fits = ground arith;
                  }))))

-- The fields that `parse_event2body` reads lie in the event's data.
pub parse_event2body-Ensures :
    (event : Bytes) (type : ℕ)
    → 4 + value_le 4 event ≤ length event
    → Ensures (λ _. Unit) (parse_event2body event type)
unfolding parse_event2body
parse_event2body-Ensures event type h = Ensures-ok _ _ (read_le-ok 4 event (omega arith)) (
    Ensures-if _ (is_variable type) _ _
      (λ _. Ensures-refuse_if _ (ltb size 32) _ λ head.
        Ensures-ok _ _ (read_field-ok 16 8 (drop 4 event) (body_fits 24 (ground arith))) (
          Ensures-ok _ _ (read_field-ok 24 8 (drop 4 event) (body_fits 32 (ground arith)))
            (Ensures-guard_ok (ltb size ((32 + name * 2 + value) % 2 ^ 64)))))
      (λ _.
        Ensures-if _ (is_blob type) _ _ (λ _. Ensures-guard (ltb size 16))
          (λ _. Ensures-if _ (is_image type) _ _ (λ _. Ensures-guard (ltb size 32)) (λ _. tt))))
  where
    size : ℕ
    size = value_le 4 event

    name : ℕ
    name = field_le 16 8 (drop 4 event)

    value : ℕ
    value = field_le 24 8 (drop 4 event)

    body_fits : (n : ℕ) → n ≤ value_le 4 event → n ≤ length (drop 4 event)
    body_fits n p = omega (arith, length-drop 4 event)

-- The sum in `parse_event2body` wraps: variable data that claims a name of 2 ^ 63 characters is
-- accepted in an event of any size that holds the header and the claimed data, given that the buffer
-- holds the header.
pub parse_variable-overflow :
    (event_size : ℕ) (body : Bytes)
    → 32 ≤ length body
    → field_le 16 8 body ≡ 2 ^ 63
    → 32 + field_le 24 8 body ≤ event_size
    → event_size < 2 ^ 32
    → parse_variable event_size body ≡ ok tt
unfolding parse_variable
parse_variable-overflow event_size body h name fits small =
    rw (head, read_field-ok 16 8 body (omega arith), read_field-ok 24 8 body (omega arith), ◌>>=◌)
      (rw wrapped refl)
  where
    head : ltb event_size 32 ≡ false
    head = ground arith

    wrapped : ltb event_size ((32 + field_le 16 8 body * 2 + field_le 24 8 body) % 2 ^ 64) ≡ false
    wrapped =
        let sum : (32 + field_le 16 8 body * 2 + field_le 24 8 body) % 2 ^ 64
            ≡ 32 + field_le 24 8 body =
          omega (arith, name) in
        rw sum (ground arith)
