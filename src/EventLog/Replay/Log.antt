-- ===== src/EventLog/Replay/Log.antt =====
-- The replay of an encoded log by `foreach_event2`.
use mathlib.Core.Option
use tpm2_tools.Base.Bytes.{Bytes, read_le-ok, read_field-ok, value_le, field_le}
use tpm2_tools.Base.Outcome.{Outcome, ok}
use tpm2_tools.Base.{
  ℕ, zero, suc, ◌+◌, ◌-◌, ◌≡◌, ◌≤◌, ◌<◌, refl, ap, ◌∙◌, List, [], ◌∷◌, ◌++◌, arith, length, drop,
  length-drop, All,
}
use tpm2_tools.EventLog.Digests.{IsLog, digests_width}
use tpm2_tools.EventLog.Event.{EventSizes, parse_event2}
use tpm2_tools.EventLog.Log.{step_event2, event2_loop, foreach_event2}
use tpm2_tools.EventLog.Replay.{
  Event, encode_body, encode_event, encode_events, HasBank, IsEvent, pcr_value, replay,
}
use tpm2_tools.EventLog.Replay.Banks.{total}
use tpm2_tools.EventLog.Replay.Encoding.{encode_digests-width, drop-append_length}
use tpm2_tools.EventLog.Replay.Loop.{TakesDigests, Replayed, digest2_loop-Replayed}
use tpm2_tools.EventLog.Verify.Bounds.{verify_digests-Ensures}
use tpm2_tools.EventLog.{Callbacks, Context, call, digest2_loop}
use tpm2_tools.EventLog.Replay.Fields.{
  width, bytes, length-encode_event, field-pcr_index, field-type, field-count, drop-header,
  drop-digests, value-body, length-bytes,
}
use tpm2_tools.EventLog.Replay.Steps.{
  bind_ok, ignored-Ensures, parse_event2body-plain, foreach_digest2-loop, step_event2-step,
  parse_event2-encoded,
}

-- Every callback that there is returns true.
pub record Takes {D : Type 0} (cb : Callbacks D) : Type 0 where
  pub header :
      (eventhdr : Bytes) (n : ℕ) (ctx : Context D)
      → (u : D) × (call (Option.map (λ f. f eventhdr n) cb.event2hdr_cb) ctx
          ≡ ok (record ctx { user = u }))
  pub digest : TakesDigests cb
  pub event :
      (event : Bytes) (type : ℕ) (ctx : Context D)
      → (u : D) × (call (Option.map (λ f. f event type) cb.event2_cb) ctx
          ≡ ok (record ctx { user = u }))

module _ (h : ℕ → Bytes → Bytes) {D : Type 0} (cb : Callbacks D) (takes : Takes cb) where
  step_event2-encoded :
      (e : Event) (rest : Bytes) (ctx : Context D)
      → IsEvent e
      → IsLog ctx
      → (ctx' : Context D) × (step_event2
            (total h)
            cb
            (bytes e rest)
            (record { event_size = length (encode_event e); digests_size = width e })
            ctx
          ≡ ok ctx')
        × Replayed h e.pcr_index e.digests ctx ctx'
  step_event2-encoded e rest ctx good l =
      let (u, he) = takes.header (bytes e rest) (length (encode_event e)) ctx in
      let ctx1 = record ctx { user = u } in
      let (ctx2, loop, r) =
        digest2_loop-Replayed h cb takes.digest e.pcr_index good.pcr_exists e.digests
          (encode_body e ++ rest) (width e) ctx1 good.digests_fit (omega arith)
          (ground (arith, l)) in
      let (v, ev) = takes.event (drop (12 + width e) (bytes e rest)) e.type ctx2 in
      (
        record ctx2 { user = v },
        step_event2-step h cb (bytes e rest)
            (record { event_size = length (encode_event e); digests_size = width e }) ctx ctx1 ctx2
            (ok (record ctx2 { user = v })) e.pcr_index e.type (length e.digests) he
            (read_field-ok 0 4 (bytes e rest) (omega (arith, inside))
              ∙ ap ok (field-pcr_index e rest good))
            (read_field-ok 4 4 (bytes e rest) (omega (arith, inside))
              ∙ ap ok (field-type e rest good))
            (read_field-ok 8 4 (bytes e rest) (omega (arith, inside))
              ∙ ap ok (field-count e rest good))
            (foreach_digest2-loop h cb e.pcr_index (drop 12 (bytes e rest)) (length e.digests)
              (width e) ctx1 (ok ctx2) good.pcr_exists
              (ap (λ b. digest2_loop (total h) cb e.pcr_index (length e.digests) b (width e) ctx1)
                  (drop-header e rest good)
                ∙ loop))
            (parse_event2body-plain (drop (12 + width e) (bytes e rest)) (length e.body) e.type
              (read_le-ok 4 (drop (12 + width e) (bytes e rest)) (omega (arith, inside, dropped))
                ∙ ap ok body)
              good.plain)
            (ignored-Ensures _ (
              verify_digests-Ensures (total h) (bytes e rest) (drop (12 + width e) (bytes e rest))
                digests_inside (omega (arith, inside, dropped, body))))
            ev,
        record { log = ground (arith, r.log); value = λ alg j known. r.value alg j known },
      )
    where
      inside : length (bytes e rest) ≡ 12 + width e + 4 + length e.body + length rest
      inside = length-bytes e rest good

      dropped : length (drop (12 + width e) (bytes e rest)) ≡ 4 + length e.body + length rest
      dropped = omega (arith, inside, length-drop (12 + width e) (bytes e rest))

      body : value_le 4 (drop (12 + width e) (bytes e rest)) ≡ length e.body
      body = ap (value_le 4) (drop-digests e rest good) ∙ value-body e rest good

      digests_inside :
          12 + digests_width (field_le 8 4 (bytes e rest)) (drop 12 (bytes e rest))
          ≤ length (bytes e rest)
      digests_inside =
          let same : digests_width (field_le 8 4 (bytes e rest)) (drop 12 (bytes e rest))
              ≡ width e =
            ap (λ n. digests_width n (drop 12 (bytes e rest))) (field-count e rest good)
            ∙ ap (digests_width (length e.digests)) (drop-header e rest good)
            ∙ encode_digests-width e.digests (encode_body e ++ rest) good.digests_fit in
          omega (arith, same, inside)

  -- A log, and every PCR holds what the events make of its value before.
  pub record ReplayedLog (es : List Event) (ctx ctx' : Context D) : Type 0 where
    pub log : IsLog ctx'
    pub value :
        (alg j : ℕ) → HasBank alg → pcr_value alg j ctx' ≡ replay h alg j es (pcr_value alg j ctx)

  event2_loop-step :
      (fuel size : ℕ) (eventhdr : Bytes) (sizes : EventSizes) (ctx ctx1 : Context D)
      (r : Outcome (Context D))
      → 0 < size
      → parse_event2 (total h) eventhdr size ≡ ok sizes
      → step_event2 (total h) cb eventhdr sizes ctx ≡ ok ctx1
      → event2_loop
          (total h)
          cb
          fuel
          (drop sizes.event_size eventhdr)
          (size - sizes.event_size)
          ctx1
        ≡ r
      → event2_loop (total h) cb (suc fuel) eventhdr size ctx ≡ r
  unfolding event2_loop
  event2_loop-step fuel zero eventhdr sizes ctx ctx1 r p parsed step rest =
      absurd (omega (arith, p))
  event2_loop-step fuel (suc size) eventhdr sizes ctx ctx1 r p parsed step rest =
      bind_ok _ parsed (bind_ok _ step rest)

  event2_loop-ReplayedLog :
      (fuel : ℕ) (es : List Event) (ctx : Context D)
      → length (encode_events es) ≤ fuel
      → All IsEvent es
      → IsLog ctx
      → (ctx' : Context D) × (event2_loop
            (total h)
            cb
            fuel
            (encode_events es)
            (length (encode_events es))
            ctx
          ≡ ok ctx')
        × ReplayedLog es ctx ctx'
  event2_loop-ReplayedLog fuel [] ctx hf good l =
      (ctx, unfold event2_loop in refl, record { log = l; value = λ alg j known. refl })
  event2_loop-ReplayedLog zero (e ∷ es) ctx hf good l = absurd (omega arith)
  event2_loop-ReplayedLog (suc fuel) (e ∷ es) ctx hf good l =
      let (ctx1, e1, r1) = step_event2-encoded e (encode_events es) ctx good.0 l in
      let (ctx2, e2, r2) =
        event2_loop-ReplayedLog fuel es ctx1 (omega (arith, inside, hf)) good.1 r1.log in
      (
        ctx2,
        event2_loop-step fuel (length (encode_events (e ∷ es))) (encode_events (e ∷ es)) sizes ctx
            ctx1 (ok ctx2) (omega (arith, inside))
            (parse_event2-encoded h e (encode_events es) good.0 _ (omega (arith, inside, size_of))
              (omega arith))
            e1
            (ap
                (λ b.
                  event2_loop (total h) cb fuel b
                    (length (encode_events (e ∷ es)) - length (encode_event e)) ctx1)
                dropped
              ∙ ap (λ n. event2_loop (total h) cb fuel (encode_events es) n ctx1) left
              ∙ e2),
        record {
          log = r2.log;
          value =
              λ alg j known. r2.value alg j known ∙ ap (replay h alg j es) (r1.value alg j known);
        },
      )
    where
      sizes : EventSizes
      sizes = record { event_size = length (encode_event e); digests_size = width e }

      size_of : length (encode_event e) ≡ 12 + width e + 4 + length e.body
      size_of = length-encode_event e

      inside :
          length (encode_events (e ∷ es))
          ≡ 12 + width e + 4 + length e.body + length (encode_events es)
      inside = length-bytes e (encode_events es) good.0

      dropped : drop (length (encode_event e)) (encode_events (e ∷ es)) ≡ encode_events es
      dropped =
          drop-append_length (length (encode_event e)) (encode_event e) (encode_events es) refl

      left : length (encode_events (e ∷ es)) - length (encode_event e) ≡ length (encode_events es)
      left = omega (arith, inside, size_of)

  -- `foreach_event2` accepts every encoded list of events whose PCRs exist, whose digests are of
  -- the five algorithms with a bank and of their size, whose types are none that
  -- `parse_event2body` looks into, and whose types, counts and sizes fit 32 bits. It leaves in
  -- each PCR of each bank its value extended with the digests of the algorithm for this PCR, in
  -- the order of the log. The conditions are that the hash is total, that the callbacks return
  -- true, and that each bank has its 32 PCRs before; then it has them after.
  pub foreach_event2-ReplayedLog :
      (es : List Event) (ctx : Context D)
      → All IsEvent es
      → IsLog ctx
      → (ctx' : Context D) × (foreach_event2
            (total h)
            cb
            (encode_events es)
            (length (encode_events es))
            ctx
          ≡ ok ctx')
        × ReplayedLog es ctx ctx'
  unfolding foreach_event2
  foreach_event2-ReplayedLog es ctx good l =
      event2_loop-ReplayedLog (length (encode_events es)) es ctx (omega arith) good l
