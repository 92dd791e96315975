-- ===== src/Nv.antt =====
-- lib/tpm2_nv_util.h: `tpm2_util_nv_read`, which reads an NV index in pieces that the TPM can send,
-- without `cp_hash`, and with allocations that succeed.
pub mod Complete
mod Tests
use tpm2_tools.Base.Bytes.{Bytes}
use tpm2_tools.Base.{
  ℕ, zero, suc, ◌+◌, ◌-◌, ◌*◌, ◌%◌, ◌^◌, Bool, true, false, not, List, [], ◌∷◌, ◌++◌, Option, none,
  some, ltb, ◌==◌, if◌then◌else◌, length,
}
use tpm2_tools.ToolRc.{ToolRc, success, general_error}

-- NV_DEFAULT_BUFFER_SIZE, and TPM2_MAX_NV_BUFFER_SIZE of the TSS.
abbrev pub nv_default_buffer_size : ℕ
nv_default_buffer_size = 512

abbrev pub max_nv_buffer_size : ℕ
max_nv_buffer_size = 2048

-- The outcome of `tpm2_util_nv_read`: the buffer up to `*bytes_written`, or an error. `nv_overrun` is
-- a write behind the buffer of `data_size` bytes, `endless` a loop that outruns its fuel.
pub data NvRead : Type 0 where
  nv_data : Bytes → NvRead
  nv_failed : ToolRc → NvRead
  nv_overrun endless : NvRead

-- `tpm2_util_nv_max_buffer_size`: the property and value that the TPM reports first.
unfoldable pub nv_max_buffer_size : ℕ → ℕ → ℕ → ℕ
nv_max_buffer_size pt_nv_buffer_max property value =
    if property == pt_nv_buffer_max then value else nv_default_buffer_size

-- The limits put on that size.
unfoldable pub limit_buffer_size : ℕ → ℕ
limit_buffer_size max_data_size =
    if ltb max_nv_buffer_size max_data_size
    then max_nv_buffer_size
    else if max_data_size == 0
    then nv_default_buffer_size
    else max_data_size

-- A reply to one read command: an error, or the TPM after it and the data.
pub data NvReply (Tpm : Type 0) : Type 0 where
  nv_error : ToolRc → NvReply Tpm
  nv_reply : Tpm → Bytes → NvReply Tpm

-- `tpm2_nv_read` for one index and authorization: the size asked for, and the offset.
module _ {Tpm : Type 0} (nv_read : Tpm → ℕ → ℕ → NvReply Tpm) where
  abbrev pub bytes_to_read : ℕ → ℕ → ℕ
  bytes_to_read max_data_size size = if ltb max_data_size size then max_data_size else size

  -- The loop; `size` and `offset` are UINT16, `done` is what the buffer holds.
  unfoldable pub read_pieces : ℕ → ℕ → ℕ → Tpm → ℕ → ℕ → Bytes → NvRead
  read_pieces fuel data_size max_data_size tpm zero offset done = nv_data done
  read_pieces zero data_size max_data_size tpm (suc size) offset done = endless
  read_pieces (suc fuel) data_size max_data_size tpm (suc size) offset done =
      elim (nv_read tpm (bytes_to_read max_data_size (suc size)) offset) [
        | nv_error rc ↦ nv_failed rc
        | nv_reply tpm' piece ↦
            let rest =
              read_pieces fuel data_size max_data_size tpm'
                ((2 ^ 16 + suc size - length piece) % 2 ^ 16) ((offset + length piece) % 2 ^ 16)
                (done ++ piece) in
            if ltb data_size (length (done ++ piece)) then nv_overrun else rest
      ]

  -- `tpm2_util_nv_read`, when the public area gives `data_size` and the TPM's limit is known.
  unfoldable pub util_nv_read : ℕ → ℕ → ℕ → Tpm → ℕ → ℕ → NvRead
  unfolding read_pieces limit_buffer_size
  util_nv_read fuel data_size max_data_size tpm size offset =
      let wanted = if size == 0 then data_size else size in
      if ltb data_size offset
      then nv_failed general_error
      else if ltb data_size (offset + wanted)
      then nv_failed general_error
      else read_pieces fuel data_size (limit_buffer_size max_data_size) tpm wanted offset []
