-- ===== src/EventLog/Event.antt =====
-- The parsing of one event: its sizes, the checks of its body, and of its digests against the body.
use tpm2_tools.Base.Bytes.{Bytes, read_le, read_field}
use tpm2_tools.Base.Outcome.{Outcome, ok, refuse_if, ◌>>=◌, ◌>>◌}
use tpm2_tools.Base.{ℕ, ◌+◌, ◌-◌, ◌*◌, ◌%◌, ◌^◌, Bool, ◌||◌, Option, ltb, ◌==◌, if◌then◌else◌, drop}
use tpm2_tools.EventLog.{new_context, accumulating, digest2_accumulator, foreach_digest2}

-- Event types of lib/efi_event.h.
abbrev pub ev_post_code : ℕ
ev_post_code = 0x1

abbrev pub ev_no_action : ℕ
ev_no_action = 0x3

abbrev pub ev_separator : ℕ
ev_separator = 0x4

abbrev pub ev_s_crtm_contents : ℕ
ev_s_crtm_contents = 0x7

abbrev pub ev_s_crtm_version : ℕ
ev_s_crtm_version = 0x8

abbrev pub ev_ipl : ℕ
ev_ipl = 0xd

abbrev pub ev_efi : ℕ → ℕ
ev_efi n = 0x80000000 + n

-- The cases of UEFI variable data.
abbrev pub is_variable : ℕ → Bool
is_variable type = type == ev_efi 0x1 || type == ev_efi 0x2 || type == ev_efi 0xe0

abbrev pub is_blob : ℕ → Bool
is_blob type = type == ev_s_crtm_contents || type == ev_efi 0x8

abbrev pub is_image : ℕ → Bool
is_image type = type == ev_efi 0x3 || type == ev_efi 0x4 || type == ev_efi 0x5

-- The UEFI_VARIABLE_DATA that begins at `body`; the sum is one of `size_t`.
unfoldable pub parse_variable : ℕ → Bytes → Outcome (Unit {0})
unfolding read_field
parse_variable event_size body = do
  refuse_if (ltb event_size 32)
  name_length ← read_field 16 8 body
  data_length ← read_field 24 8 body
  refuse_if (ltb event_size ((32 + name_length * 2 + data_length) % 2 ^ 64))
  ok tt

-- `parse_event2body`: `event` begins at the EventSize of a TCG_EVENT2.
unfoldable pub parse_event2body : Bytes → ℕ → Outcome (Unit {0})
unfolding parse_variable read_le
parse_event2body event type = do
  event_size ← read_le 4 event
  if is_variable type
      then parse_variable event_size (drop 4 event)
      else if is_blob type
      then refuse_if (ltb event_size 16)
      else if is_image type
      then refuse_if (ltb event_size 32)
      else ok tt

-- What `parse_event2` writes through its pointers.
pub record EventSizes : Type 0 where
  pub event_size : ℕ
  pub digests_size : ℕ

module _ (hash : ℕ → Bytes → Option Bytes) where
  -- `parse_event2`: the sizes of the event that begins at `eventhdr`, if it fits `buf_size`
  unfoldable pub parse_event2 : Bytes → ℕ → Outcome EventSizes
  unfolding read_field foreach_digest2 digest2_accumulator
  parse_event2 eventhdr buf_size = do
    refuse_if (ltb buf_size 12)
    pcr_index ← read_field 0 4 eventhdr
    count ← read_field 8 4 eventhdr
    ctx ←
        foreach_digest2 hash accumulating pcr_index (drop 12 eventhdr) count (buf_size - 12)
          (new_context 0)
    let header_size = 12 + ctx.user
    refuse_if (ltb buf_size (header_size + 4))
    size ← read_field header_size 4 eventhdr
    refuse_if (ltb buf_size (header_size + 4 + size))
    ok (record { event_size = header_size + 4 + size; digests_size = ctx.user })
