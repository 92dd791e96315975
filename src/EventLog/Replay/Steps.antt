-- ===== src/EventLog/Replay/Steps.antt =====
-- One round of `foreach_event2`, and the sizes of an encoded event.
use mathlib.Core.Option
use tpm2_tools.Base.Bytes.{Bytes, read_le, read_field, read_field-ok}
use tpm2_tools.Base.Outcome.{Outcome, ok, refused, fault, ignored, ◌>>=◌, Ensures}
use tpm2_tools.Base.{
  ℕ, ◌+◌, ◌-◌, ◌≡◌, ◌≤◌, ◌<◌, refl, ap, sym, subst, ◌∙◌, Bool, true, false, ◌||◌, ◌++◌, arith, ltb,
  if◌then◌else◌, length, drop, length-append,
}
use tpm2_tools.EventLog.Digests.{Accumulated, digests_width, digest2_loop-accumulating}
use tpm2_tools.EventLog.Event.{
  EventSizes, parse_event2, parse_event2body, is_variable, is_blob, is_image,
}
use tpm2_tools.EventLog.Log.{step_event2}
use tpm2_tools.EventLog.Replay.{Event, encode_digests, encode_body, encode_event, IsEvent}
use tpm2_tools.EventLog.Replay.Banks.{total}
use tpm2_tools.EventLog.Replay.Encoding.{encode_digests-width}
use tpm2_tools.EventLog.Replay.Loop.{TakesDigests, digest2_loop-Replayed}
use tpm2_tools.EventLog.Sizes.{new_context-IsLog}
use tpm2_tools.EventLog.Verify.{verify_digests}
use tpm2_tools.EventLog.Verify.Bounds.{Done}
use tpm2_tools.EventLog.{
  Callbacks, Context, new_context, accumulating, digest2_accumulator, call, digest2_loop,
  foreach_digest2,
}
use tpm2_tools.Tss
use tpm2_tools.EventLog.Replay.Fields.{
  width, bytes, length-encode_event, field-pcr_index, field-count, drop-header, field-body,
  length-bytes,
}

accumulating-TakesDigests : TakesDigests accumulating
unfolding digest2_accumulator
accumulating-TakesDigests digest n ctx = (ctx.user + (2 + n), refl)

pub bind_ok {ℓ κ} :
    {A : Type ℓ} {B : Type κ} {m : Outcome A} {a : A} {r : Outcome B} (f : A → Outcome B)
    → m ≡ ok a
    → f a ≡ r
    → (m >>= f) ≡ r
bind_ok f e h = ap (λ m. m >>= f) e ∙ h

pub ignored-Ensures : (m : Outcome (Unit {0})) → Ensures Done m → ignored m ≡ ok tt
ignored-Ensures (ok a) h = refl
ignored-Ensures refused h = refl
ignored-Ensures fault h = absurd h

pub parse_event2body-plain :
    (event : Bytes) (n type : ℕ)
    → read_le 4 event ≡ ok n
    → (is_variable type || (is_blob type || is_image type)) ≡ false
    → parse_event2body event type ≡ ok tt
unfolding parse_event2body
parse_event2body-plain event n type read plain = rw (read, ◌>>=◌) (ground (arith, plain))

module _ (h : ℕ → Bytes → Bytes) {D : Type 0} (cb : Callbacks D) where
  pub foreach_digest2-loop :
      (i : ℕ) (digest : Bytes) (count size : ℕ) (ctx : Context D) (r : Outcome (Context D))
      → i < Tss.max_pcrs
      → digest2_loop (total h) cb i count digest size ctx ≡ r
      → foreach_digest2 (total h) cb i digest count size ctx ≡ r
  unfolding foreach_digest2
  foreach_digest2-loop i digest count size ctx r hi e =
      let exists : ltb (Tss.max_pcrs - 1) i ≡ false = ground arith in rw exists e

  pub step_event2-step :
      (eventhdr : Bytes) (sizes : EventSizes) (ctx ctx1 ctx2 : Context D) (r : Outcome (Context D))
      (pcr_index type count : ℕ)
      → call (Option.map (λ f. f eventhdr sizes.event_size) cb.event2hdr_cb) ctx ≡ ok ctx1
      → read_field 0 4 eventhdr ≡ ok pcr_index
      → read_field 4 4 eventhdr ≡ ok type
      → read_field 8 4 eventhdr ≡ ok count
      → foreach_digest2 (total h) cb pcr_index (drop 12 eventhdr) count sizes.digests_size ctx1
        ≡ ok ctx2
      → parse_event2body (drop (12 + sizes.digests_size) eventhdr) type ≡ ok tt
      → ignored (verify_digests (total h) eventhdr (drop (12 + sizes.digests_size) eventhdr))
        ≡ ok tt
      → call (Option.map (λ f. f (drop (12 + sizes.digests_size) eventhdr) type) cb.event2_cb) ctx2
        ≡ r
      → step_event2 (total h) cb eventhdr sizes ctx ≡ r
  unfolding step_event2
  step_event2-step eventhdr sizes ctx ctx1 ctx2 r pcr_index type count header f0 f4 f8 digests body
        verified event =
      bind_ok _ header (
        bind_ok _ f0 (
          bind_ok _ f4 (
            bind_ok _ f8
              (bind_ok _ digests (bind_ok _ body (bind_ok _ (checked cb.has_data) event))))))
    where
      checked :
          (b : Bool)
          → (if b
              then ignored
                  (verify_digests (total h) eventhdr (drop (12 + sizes.digests_size) eventhdr))
              else ok tt)
            ≡ ok tt
      checked true = verified
      checked false = refl

module _ (h : ℕ → Bytes → Bytes) where
  parse_event2-step :
      (eventhdr : Bytes) (size pcr_index count n : ℕ) (ctx : Context ℕ)
      → read_field 0 4 eventhdr ≡ ok pcr_index
      → read_field 8 4 eventhdr ≡ ok count
      → foreach_digest2
          (total h)
          accumulating
          pcr_index
          (drop 12 eventhdr)
          count
          (size - 12)
          (new_context 0)
        ≡ ok ctx
      → read_field (12 + ctx.user) 4 eventhdr ≡ ok n
      → 12 + ctx.user + 4 + n ≤ size
      → parse_event2 (total h) eventhdr size
        ≡ ok (record { event_size = 12 + ctx.user + 4 + n; digests_size = ctx.user })
  unfolding parse_event2
  parse_event2-step eventhdr size pcr_index count n ctx f0 f8 digests fn fits =
      let header : ltb size 12 ≡ false = ground arith in
      let word : ltb size (12 + ctx.user + 4) ≡ false = ground arith in
      let all : ltb size (12 + ctx.user + 4 + n) ≡ false = ground arith in
      rw (header, f0, f8, ◌>>=◌) (rw (digests, ◌>>=◌) (rw (word, fn, ◌>>=◌) (rw all refl)))

  module _ (e : Event) (rest : Bytes) (good : IsEvent e) where
    pub parse_event2-encoded :
        (size : ℕ)
        → length (encode_event e) ≤ size
        → size ≤ length (bytes e rest)
        → parse_event2 (total h) (bytes e rest) size
          ≡ ok (record { event_size = length (encode_event e); digests_size = width e })
    parse_event2-encoded size room inside =
        let (ctx, loop, r) =
          digest2_loop-Replayed h accumulating accumulating-TakesDigests e.pcr_index good.pcr_exists
            e.digests (encode_body e ++ rest) (size - 12) (new_context 0) good.digests_fit
            (omega (arith, length-encode_event e, room)) (new_context-IsLog 0) in
        let counted : ctx.user ≡ width e = accumulated_width ctx loop in
        parse_event2-step (bytes e rest) size e.pcr_index (length e.digests) (length e.body) ctx
          (read_field-ok 0 4 (bytes e rest) (omega (arith, length-bytes e rest good))
            ∙ ap ok (field-pcr_index e rest good))
          (read_field-ok 8 4 (bytes e rest) (omega (arith, length-bytes e rest good))
            ∙ ap ok (field-count e rest good))
          (foreach_digest2-loop h accumulating e.pcr_index (drop 12 (bytes e rest))
            (length e.digests) (size - 12) (new_context 0) (ok ctx) good.pcr_exists
            (ap
                (λ l.
                  digest2_loop (total h) accumulating e.pcr_index (length e.digests) l (size - 12)
                    (new_context 0))
                (drop-header e rest good)
              ∙ loop))
          (ap (λ w. read_field (12 + w) 4 (bytes e rest)) counted
            ∙ read_field-ok (12 + width e) 4 (bytes e rest)
                (omega (arith, length-bytes e rest good))
            ∙ ap ok (field-body e rest good))
          (omega (arith, counted, room, length-encode_event e))
        ∙ ap (λ w. ok (record { event_size = 12 + w + 4 + length e.body; digests_size = w }))
            counted
        ∙ ap (λ n. ok (record { event_size = n; digests_size = width e }))
            (sym (length-encode_event e))
      where
        accumulated_width :
            (ctx : Context ℕ)
            → digest2_loop
                (total h)
                accumulating
                e.pcr_index
                (length e.digests)
                (encode_digests e.digests ++ (encode_body e ++ rest))
                (size - 12)
                (new_context 0)
              ≡ ok ctx
            → ctx.user ≡ width e
        accumulated_width ctx loop =
            let counted : ctx.user
                ≡ 0
                  + digests_width (length e.digests)
                      (encode_digests e.digests ++ (encode_body e ++ rest)) =
              (subst
                (Ensures (
                  Accumulated (total h) e.pcr_index good.pcr_exists (length e.digests)
                    (encode_digests e.digests ++ (encode_body e ++ rest)) (size - 12)
                    (new_context 0)))
                loop
                (digest2_loop-accumulating (total h) e.pcr_index good.pcr_exists (length e.digests)
                  (encode_digests e.digests ++ (encode_body e ++ rest)) (size - 12) (new_context 0)
                  (omega (
                    arith,
                    inside,
                    length-bytes e rest good,
                    length-append (encode_digests e.digests) (encode_body e ++ rest),
                    length-append (encode_body e) rest,
                  ))
                  (new_context-IsLog 0))).width in
            omega (
              arith,
              counted,
              encode_digests-width e.digests (encode_body e ++ rest) good.digests_fit,
            )
