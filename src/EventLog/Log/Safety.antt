-- ===== src/EventLog/Log/Safety.antt =====
-- A log in the crypto-agile format is parsed without reading outside the buffer, and to its end.
use mathlib.Core.Option
use tpm2_tools.Base.Bytes.{Bytes, read_field-ok, read_bytes-ok, value_le, field_le}
use tpm2_tools.Base.Outcome.{
  ok, ignored, Ensures, Ensures-bind, Ensures-if, Ensures-ok, Ensures-refuse_if, Ensures-ignored,
}
use tpm2_tools.Base.{
  ℕ, zero, suc, ◌+◌, ◌-◌, ◌*◌, ◌≤◌, ◌≡◌, not, Option, arith, ltb, ◌==◌, if◌then◌else◌, length, take,
  drop, length-drop,
}
use tpm2_tools.EventLog.Digests.{IsLog, call-Ensures}
use tpm2_tools.EventLog.Event.{EventSizes, parse_event2, parse_event2body, ev_no_action}
use tpm2_tools.EventLog.Log.{
  all_zero, specid_event, step_event2, event2_loop, foreach_event2, parse_eventlog,
}
use tpm2_tools.EventLog.Sizes.{
  IsSized, parse_event2-IsSized, foreach_digest2-Ensures, parse_event2body-Ensures,
}
use tpm2_tools.EventLog.Verify.Bounds.{Done, verify_digests-Ensures}
use tpm2_tools.EventLog.Verify.{verify_digests}
use tpm2_tools.EventLog.{Context, Callbacks, call, foreach_digest2}

-- On a buffer of at least `size` bytes `specid_event` reads nothing outside it, and the offset
-- that it reports is at most `size`.
pub specid_event-Ensures :
    (event : Bytes) (size : ℕ)
    → size ≤ length event
    → Ensures (λ next. next ≤ size) (specid_event event size)
unfolding specid_event
specid_event-Ensures event size h = Ensures-refuse_if In (ltb size 32) _ λ header.
    Ensures-ok In _ (read_field-ok 4 4 event (ground arith)) (
      Ensures-refuse_if In (not (field_le 4 4 event == ev_no_action)) _ λ _.
        Ensures-ok In _ (read_field-ok 0 4 event (ground arith)) (
          Ensures-refuse_if In (not (field_le 0 4 event == 0)) _ λ _.
            Ensures-ok In _ (read_bytes-ok 20 (drop 8 event) (ground (arith, length-drop 8 event)))
              (Ensures-refuse_if In (not (all_zero (take 20 (drop 8 event)))) _ λ _.
                Ensures-ok In _ (read_field-ok 28 4 event (ground arith)) (
                  Ensures-refuse_if In (ltb (field_le 28 4 event) 28) _ λ body.
                    Ensures-refuse_if In (ltb size (32 + field_le 28 4 event)) _ λ fits.
                      Ensures-ok In _ (read_field-ok 56 4 event (ground arith)) (
                        Ensures-refuse_if In (field_le 56 4 event == 0) _ λ _.
                          Ensures-refuse_if In (ltb size (60 + 4 * field_le 56 4 event)) _ λ _.
                            Ensures-refuse_if In (ltb size (60 + 4 * field_le 56 4 event + 1)) _
                              λ vendor.
                                Ensures-ok In _
                                  (read_field-ok (60 + 4 * field_le 56 4 event) 1 event
                                    (ground arith))
                                  (Ensures-refuse_if In
                                    (ltb size (
                                      60
                                      + 4 * field_le 56 4 event
                                      + 1
                                      + field_le (60 + 4 * field_le 56 4 event) 1 event))
                                    _ λ all. ground arith))))))
  where
    In : ℕ → Type 0
    In next = next ≤ size

module _ (hash : ℕ → Bytes → Option Bytes) {D : Type 0} (cb : Callbacks D) where
  step_event2-Ensures :
      (eventhdr : Bytes) (size : ℕ) (s : EventSizes) (ctx : Context D)
      → size ≤ length eventhdr
      → IsSized eventhdr size s
      → IsLog ctx
      → Ensures IsLog (step_event2 hash cb eventhdr s ctx)
  unfolding step_event2
  step_event2-Ensures eventhdr size s ctx h z l =
      Ensures-bind IsLog IsLog (call header_cb ctx) _ (call-Ensures header_cb ctx l) (λ ctx1 l1.
        Ensures-ok IsLog _ (read_field-ok 0 4 eventhdr (omega arith)) (
          Ensures-ok IsLog _ (read_field-ok 4 4 eventhdr (omega arith)) (
            Ensures-ok IsLog _ (read_field-ok 8 4 eventhdr (omega arith)) (
              Ensures-bind IsLog IsLog
                (foreach_digest2 hash cb pcr digests count s.digests_size ctx1) _
                (foreach_digest2-Ensures hash cb pcr digests count s.digests_size ctx1
                  (omega (arith, length-drop 12 eventhdr)) l1)
                (λ ctx2 l2.
                  Ensures-bind Done IsLog (parse_event2body event type) _
                    (parse_event2body-Ensures event type event_fits)
                    (λ _ _.
                      Ensures-bind Done IsLog
                        (if cb.has_data
                          then ignored (verify_digests hash eventhdr event)
                          else ok tt)
                        _
                        (Ensures-if Done cb.has_data _ (ok tt)
                          (λ _. Ensures-ignored Done (verify_digests hash eventhdr event) (
                            verify_digests-Ensures hash eventhdr event
                              (omega (arith, z.digests_are)) event_fits))
                          (λ _. tt))
                        (λ _ _.
                          call-Ensures (Option.map (λ f. f event type) cb.event2_cb) ctx2 l2)))))))
    where
      header_cb : Option (D → Option D)
      header_cb = Option.map (λ f. f eventhdr s.event_size) cb.event2hdr_cb

      event : Bytes
      event = drop (12 + s.digests_size) eventhdr

      digests : Bytes
      digests = drop 12 eventhdr

      pcr : ℕ
      pcr = field_le 0 4 eventhdr

      type : ℕ
      type = field_le 4 4 eventhdr

      count : ℕ
      count = field_le 8 4 eventhdr

      event_fits : 4 + value_le 4 event ≤ length event
      event_fits = omega (arith, z.event_is, z.fits, length-drop (12 + s.digests_size) eventhdr)

  event2_loop-Ensures :
      (fuel : ℕ) (eventhdr : Bytes) (size : ℕ) (ctx : Context D)
      → size ≤ fuel
      → size ≤ length eventhdr
      → IsLog ctx
      → Ensures IsLog (event2_loop hash cb fuel eventhdr size ctx)
  unfolding event2_loop
  event2_loop-Ensures zero eventhdr zero ctx f h l = l
  event2_loop-Ensures (suc fuel) eventhdr zero ctx f h l = l
  event2_loop-Ensures zero eventhdr (suc size) ctx f h l = absurd (omega arith)
  event2_loop-Ensures (suc fuel) eventhdr (suc size) ctx f h l =
      Ensures-bind (IsSized eventhdr (suc size)) IsLog (parse_event2 hash eventhdr (suc size)) _
        (parse_event2-IsSized hash eventhdr (suc size) h)
        (λ s z.
          Ensures-bind IsLog IsLog (step_event2 hash cb eventhdr s ctx) _
            (step_event2-Ensures eventhdr (suc size) s ctx h z l)
            (λ ctx' l'.
              event2_loop-Ensures fuel (drop s.event_size eventhdr) (suc size - s.event_size) ctx'
                (omega (arith, z.event_is, z.fits))
                (omega (arith, length-drop s.event_size eventhdr)) l'))

  foreach_event2-Ensures :
      (eventhdr : Bytes) (size : ℕ) (ctx : Context D)
      → size ≤ length eventhdr
      → IsLog ctx
      → Ensures IsLog (foreach_event2 hash cb eventhdr size ctx)
  unfolding foreach_event2
  foreach_event2-Ensures eventhdr size ctx h l =
      event2_loop-Ensures size eventhdr size ctx (omega arith) h l

  -- A log whose first event is of type EV_NO_ACTION is parsed with no access outside its buffer and
  -- within the fuel of the loop, whatever the bytes, the hash and the callbacks, provided that the
  -- buffer has `size` bytes and each bank its 32 PCRs; a context that is returned has them too.
  pub parse_eventlog-Ensures :
      (eventlog : Bytes) (size : ℕ) (ctx : Context D)
      → size ≤ length eventlog
      → IsLog ctx
      → field_le 4 4 eventlog ≡ ev_no_action
      → Ensures IsLog (parse_eventlog hash cb eventlog size ctx)
  unfolding parse_eventlog
  parse_eventlog-Ensures eventlog size ctx h l agile =
      Ensures-refuse_if IsLog (ltb size 32) _ λ header.
        Ensures-ok IsLog _ (read_field-ok 4 4 eventlog (ground arith)) (
          Ensures-if IsLog (field_le 4 4 eventlog == ev_no_action) _ _
            (λ _.
              Ensures-bind (λ next. next ≤ size) IsLog (specid_event eventlog size) _
                (specid_event-Ensures eventlog size h)
                (λ next inside.
                  Ensures-bind IsLog IsLog (call specid_cb ctx) _ (call-Ensures specid_cb ctx l)
                    (λ ctx' l'.
                      foreach_event2-Ensures (drop next eventlog) (size - next) ctx'
                        (omega (arith, length-drop next eventlog)) l')))
            (λ other. absurd (ground arith)))
    where
      specid_cb : Option (D → Option D)
      specid_cb = Option.map (λ f. f eventlog) cb.specid_cb
