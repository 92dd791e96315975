-- ===== src/Files/Stream.antt =====
-- The C library's streams, as lib/files.c uses them: an interface of operations, and what they
-- promise of a healthy stream.
use tpm2_tools.Base.Bytes.{Bytes}
use tpm2_tools.Base.{ℕ, ◌≤◌, ◌<◌, Bool, true, false, ◌≡◌, ◌≢◌, ◌++◌, [], length, take}
use tpm2_tools.Files.Operation.{Io}

-- A result of `fwrite`, with the stream; `interrupted` is errno == EINTR.
pub record Wrote (F : Type 0) : Type 0 where
  pub wrote : ℕ
  pub interrupted : Bool
  pub file : F

-- A result of `fread`, with `feof`.
pub record Read (F : Type 0) : Type 0 where
  pub got : Bytes
  pub eof : Bool
  pub interrupted : Bool
  pub file : F

pub record Stdio (F : Type 0) : Type 0 where
  pub fwrite : Bytes → F → Wrote F
  pub fread : ℕ → F → Read F
  pub seek_back : ℕ → Io F (Unit {0})
  pub rewind : F → F

-- A stream without errors. `fwrite` appends what it says it wrote, `fread` takes what comes next, and
-- a short count is due to an interrupt or to the end of the file. `patience` bounds the interrupts to
-- come.
pub record IsHealthy {F : Type 0} (io : Stdio F) : Type 0 where
  pub written : F → Bytes
  pub unread : F → Bytes
  pub patience : F → ℕ
  pub fwrite_appends :
      (b : Bytes) (f : F) → written (io.fwrite b f).file ≡ written f ++ take (io.fwrite b f).wrote b
  pub fwrite_count : (b : Bytes) (f : F) → (io.fwrite b f).wrote ≤ length b
  pub fwrite_patience : (b : Bytes) (f : F) → patience (io.fwrite b f).file ≤ patience f
  pub fwrite_short :
      (b : Bytes) (f : F)
      → (io.fwrite b f).wrote ≢ length b
      → ((io.fwrite b f).interrupted ≡ true) × (patience (io.fwrite b f).file < patience f)
  pub fread_takes : (n : ℕ) (f : F) → unread f ≡ (io.fread n f).got ++ unread (io.fread n f).file
  pub fread_count : (n : ℕ) (f : F) → length (io.fread n f).got ≤ n
  pub fread_patience : (n : ℕ) (f : F) → patience (io.fread n f).file ≤ patience f
  pub fread_eof : (n : ℕ) (f : F) → (io.fread n f).eof ≡ true → unread (io.fread n f).file ≡ []
  pub fread_short :
      (n : ℕ) (f : F)
      → length (io.fread n f).got < n
      → (io.fread n f).eof ≡ false
      → ((io.fread n f).interrupted ≡ true) × (patience (io.fread n f).file < patience f)
