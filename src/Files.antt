-- ===== src/Files.antt =====
-- lib/files.c, over any implementation of the C library's streams. A parameter that is a pointer is
-- not NULL, as its BAIL_ON_NULL asks.
pub mod Operation
pub mod Stream
pub mod Transfer
pub mod Context
mod Tests
use tpm2_tools.Base.Bytes.{Bytes}
use tpm2_tools.Base.Outcome.{Outcome, ok, refused, fault}
use tpm2_tools.Base.{
  ℕ, zero, suc, ◌+◌, ◌-◌, ◌*◌, Bool, true, false, not, ◌&&◌, ◌||◌, Option, none, some, ltb, ◌==◌,
  if◌then◌else◌, ◌++◌, [], ◌∷◌, length, drop, leb,
}
use tpm2_tools.Files.Operation.{Io, give, refuse, run_out, ◌>>=◌, ◌>>◌, check, must}
use tpm2_tools.Files.Stream.{Stdio}
use tpm2_tools.Util.Endian.{hton, mem_bytes, mem_value}

-- `MAGIC`
abbrev pub magic : ℕ
magic = 0xbadcc0de

-- `CONTEXT_VERSION`
abbrev pub context_version : ℕ
context_version = 1

-- TPMS_CONTEXT; the blob is as long as its size says.
pub record TpmsContext : Type 0 where
  pub hierarchy : ℕ
  pub saved_handle : ℕ
  pub sequence : ℕ
  pub context_blob : Bytes

module _ {F : Type 0} (io : Stdio F) (fuel : ℕ) (big : Bool) where
  -- The loop of `writex`: what is left of the data, at most `left` times.
  unfoldable pub write_loop : ℕ → Bytes → Io F (Unit {0})
  write_loop zero bytes = run_out
  write_loop (suc left) bytes = λ f.
      let r = io.fwrite bytes f in
      let again = write_loop left (drop r.wrote bytes) r.file in
      if r.wrote == length bytes
      then (ok tt, r.file)
      else if r.interrupted
      then again
      else (refused, r.file)

  unfoldable pub writex : Bytes → Io F (Unit {0})
  unfolding write_loop
  writex bytes = write_loop fuel bytes

  -- The loop of `readx`, which has read `got` and wants `size` bytes in all.
  unfoldable pub read_loop : ℕ → ℕ → Bytes → Io F Bytes
  read_loop zero size got = run_out
  read_loop (suc left) size got = λ f.
      let r = io.fread (size - length got) f in
      let all = got ++ r.got in
      let again = read_loop left size all r.file in
      if ltb (length all) size && (not r.eof && r.interrupted) then again else (ok all, r.file)

  unfoldable pub readx : ℕ → Io F Bytes
  unfolding read_loop
  readx size = read_loop fuel size []

  unfoldable pub files_write_bytes : Bytes → Io F (Unit {0})
  unfolding writex
  files_write_bytes bytes = writex bytes

  unfoldable pub files_read_bytes : ℕ → Io F Bytes
  unfolding readx
  files_read_bytes len = readx len >>= λ got. check (length got == len) got

  -- FILE_WRITE and FILE_READ of a number of `w` bytes
  unfoldable pub files_write : ℕ → ℕ → Io F (Unit {0})
  unfolding writex hton
  files_write w value = writex (mem_bytes big w (hton big w value))

  unfoldable pub files_read : ℕ → Io F ℕ
  unfolding readx hton
  files_read w = readx w >>= λ got. check (length got == w) (hton big w (mem_value big w got))

  unfoldable pub files_write_header : ℕ → Io F (Unit {0})
  unfolding files_write
  files_write_header version = files_write 4 magic >> files_write 4 version

  -- `check_magic`; with `seek_reset` it goes back to where the number begins.
  unfoldable pub check_magic : Bool → Io F (Unit {0})
  unfolding files_read
  check_magic seek_reset = files_read 4 >>= λ number.
      (if seek_reset then io.seek_back 4 else give tt) >>= λ _. check (number == magic) tt

  unfoldable pub files_read_header : Io F ℕ
  unfolding check_magic files_read
  files_read_header = check_magic false >>= λ _. files_read 4

  unfoldable pub files_save_context : TpmsContext → Io F (Unit {0})
  unfolding files_write_header files_write files_write_bytes
  files_save_context c =
      files_write_header context_version
      >> files_write 4 c.hierarchy
      >> files_write 4 c.saved_handle
      >> files_write 8 c.sequence
      >> files_write 2 (length c.context_blob)
      >> files_write_bytes c.context_blob

  -- `load_tpm_context_file` behind the header; `max_context_blob` is sizeof(contextBlob.buffer), which
  -- tss2 says.
  unfoldable pub load_fields : ℕ → Io F TpmsContext
  unfolding files_read files_read_bytes
  load_fields max_context_blob = files_read 4 >>= λ hierarchy. files_read 4 >>= λ saved_handle.
      files_read 8 >>= λ sequence. files_read 2 >>= λ size.
      must (leb size max_context_blob) >>= λ _. files_read_bytes size >>= λ blob. give (record {
        hierarchy = hierarchy;
        saved_handle = saved_handle;
        sequence = sequence;
        context_blob = blob;
      })

  -- The old format is the structure as it lies in memory, of `size_of_context` bytes, which
  -- `context_of` takes for a structure.
  module _ (max_context_blob size_of_context : ℕ) (context_of : Bytes → TpmsContext) where
    abbrev pub after_header : Outcome ℕ × F → Outcome TpmsContext × F
    unfolding load_fields files_read_bytes
    after_header (ok version, f) =
        (must (version == context_version) >>= λ _. load_fields max_context_blob) f
    after_header (refused, f) =
        (files_read_bytes size_of_context >>= λ bytes. give (context_of bytes)) (io.rewind f)
    after_header (fault, f) = (fault, f)

    unfoldable pub load_tpm_context_file : Io F TpmsContext
    unfolding files_read_header after_header
    load_tpm_context_file = λ f. after_header (files_read_header f)
