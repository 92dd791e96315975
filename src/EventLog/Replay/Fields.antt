-- ===== src/EventLog/Replay/Fields.antt =====
-- The fields of an encoded event.
use tpm2_tools.Base.Bytes.{Bytes, le_bytes, value_le, field_le}
use tpm2_tools.Base.{ℕ, ◌+◌, ◌≡◌, ap, ◌∙◌, ◌++◌, append_assoc, arith, length, drop, length-append}
use tpm2_tools.EventLog.Replay.{Event, encode_digests, encode_body, encode_event, IsEvent}
use tpm2_tools.EventLog.Replay.Encoding.{drop-append_length}

-- The fields of an encoded event, with what follows it in the log.
abbrev pub width : Event → ℕ
width e = length (encode_digests e.digests)

abbrev pub bytes : Event → Bytes → Bytes
bytes e rest = encode_event e ++ rest

pub length-encode_event : (e : Event) → length (encode_event e) ≡ 12 + width e + 4 + length e.body
length-encode_event e = omega (arith, length-append (encode_digests e.digests) (encode_body e))

module _ (e : Event) (rest : Bytes) (good : IsEvent e) where
  pub field-pcr_index : field_le 0 4 (bytes e rest) ≡ e.pcr_index
  field-pcr_index = omega (arith, good.pcr_exists)

  pub field-type : field_le 4 4 (bytes e rest) ≡ e.type
  field-type = omega (arith, good.type_fits)

  pub field-count : field_le 8 4 (bytes e rest) ≡ length e.digests
  field-count = omega (arith, good.count_fits)

  pub drop-header : drop 12 (bytes e rest) ≡ encode_digests e.digests ++ (encode_body e ++ rest)
  drop-header = append_assoc (encode_digests e.digests) (encode_body e) rest

  pub drop-digests : drop (12 + width e) (bytes e rest) ≡ encode_body e ++ rest
  drop-digests =
      ap
        (λ l.
          drop (12 + width e)
            (le_bytes 4 e.pcr_index ++ le_bytes 4 e.type ++ le_bytes 4 (length e.digests) ++ l))
        (append_assoc (encode_digests e.digests) (encode_body e) rest)
      ∙ drop-append_length (12 + width e)
          (le_bytes 4 e.pcr_index
            ++ le_bytes 4 e.type
            ++ le_bytes 4 (length e.digests)
            ++ encode_digests e.digests)
          (encode_body e ++ rest) (omega arith)

  pub value-body : value_le 4 (encode_body e ++ rest) ≡ length e.body
  value-body = omega (arith, good.body_fits)

  pub field-body : field_le (12 + width e) 4 (bytes e rest) ≡ length e.body
  field-body = ap (value_le 4) drop-digests ∙ value-body

  pub length-bytes : length (bytes e rest) ≡ 12 + width e + 4 + length e.body + length rest
  length-bytes =
      length-append (encode_event e) rest ∙ ap (λ n. n + length rest) (length-encode_event e)
