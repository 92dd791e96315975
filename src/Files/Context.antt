-- ===== src/Files/Context.antt =====
-- A saved context is loaded again.
use tpm2_tools.Base.Bytes.{Bytes, byte_limit, be_bytes}
use tpm2_tools.Base.Outcome.{Outcome, ok, refused, fault}
use tpm2_tools.Base.{
  ℕ, ◌≤◌, ◌<◌, Bool, true, false, ◌≡◌, refl, subst, sym, ap, ◌∙◌, [], ◌++◌, append-nil,
  append_assoc, length, leb, ◌==◌, arith,
}
use tpm2_tools.Files.Operation.{Io, Gives, Gives-bind, Gives-mono, must, ◌>>=◌, ◌>>◌}
use tpm2_tools.Files.Stream.{Stdio, IsHealthy}
use tpm2_tools.Files.Transfer.{
  Writes, Reads, files_write-Writes, files_write_bytes-Writes, files_read-Reads,
  files_read_bytes-Reads,
}
use tpm2_tools.Files.{
  TpmsContext, magic, context_version, files_read_bytes, files_write, files_read,
  files_write_header, check_magic, files_read_header, files_save_context, load_fields, after_header,
  load_tpm_context_file,
}

-- A context that the structure can hold, its blob's size in 16 bits.
abbrev pub IsContext : ℕ → TpmsContext → Type 0
IsContext max_context_blob c =
    (c.hierarchy < byte_limit 4)
    × (c.saved_handle < byte_limit 4)
    × (c.sequence < byte_limit 8)
    × (length c.context_blob ≤ max_context_blob)
    × (length c.context_blob < byte_limit 2)

-- The file that a context is saved as: the header, the fields with their highest byte first, the blob.
abbrev pub encode_context : TpmsContext → Bytes
encode_context c =
    (be_bytes 4 magic ++ be_bytes 4 context_version)
    ++ be_bytes 4 c.hierarchy
    ++ be_bytes 4 c.saved_handle
    ++ be_bytes 8 c.sequence
    ++ be_bytes 2 (length c.context_blob)
    ++ c.context_blob

module _ {F : Type 0} (io : Stdio F) (healthy : IsHealthy io) (fuel : ℕ) (big : Bool) where
  -- One write, or one read, after another.
  Writes-then :
      (a b : Bytes) (m k : Io F (Unit {0})) (f : F)
      → healthy.patience f < fuel
      → Gives (Writes io healthy a f) (m f)
      → ((f' : F) → healthy.patience f' < fuel → Gives (Writes io healthy b f') (k f'))
      → Gives (Writes io healthy (a ++ b) f) ((m >> k) f)
  Writes-then a b m k f h g n =
      Gives-bind _ _ m _ f g (λ u f' w. joined f' w (n f' (let d = w.1 in omega arith)))
    where
      joined :
          (f' : F)
          → Writes io healthy a f tt f'
          → Gives (Writes io healthy b f') (k f')
          → Gives (Writes io healthy (a ++ b) f) (k f')
      joined f' (w, d) = Gives-mono _ _ (k f') (λ u f'' v. (
        v.0 ∙ ap (λ l. l ++ b) w ∙ append_assoc (healthy.written f) a b,
        (let e = v.1 in omega arith),
      ))

  Reads-then :
      {A B : Type 0} (a : A) (c : B) (b rest : Bytes) (m : Io F A) (k : A → Io F B) (f : F)
      → healthy.patience f < fuel
      → Gives (Reads io healthy a b f) (m f)
      → ((f' : F)
          → healthy.patience f' < fuel
          → healthy.unread f' ≡ b
          → Gives (Reads io healthy c rest f') (k a f'))
      → Gives (Reads io healthy c rest f) ((m >>= k) f)
  Reads-then a c b rest m k f h g n = Gives-bind _ _ m k f g (λ a' f' r. joined a' f' r)
    where
      joined :
          (a' : _) (f' : F)
          → Reads io healthy a b f a' f'
          → Gives (Reads io healthy c rest f) (k a' f')
      joined a' f' (e, v, d) =
          subst (λ x. Gives (Reads io healthy c rest f) (k x f')) (sym e)
            (Gives-mono _ _ (k a f') (λ c' f'' w. (w.0, w.1, (let d' = w.2 in omega arith)))
              (n f' (omega arith) v))

  files_write_header-Writes :
      (version : ℕ) (f : F)
      → healthy.patience f < fuel
      → Gives
          (Writes io healthy (be_bytes 4 magic ++ be_bytes 4 version) f)
          (files_write_header io fuel big version f)
  unfolding files_write_header
  files_write_header-Writes version f h =
      Writes-then (be_bytes 4 magic) (be_bytes 4 version) (files_write io fuel big 4 magic)
        (files_write io fuel big 4 version) f h (files_write-Writes io healthy fuel big 4 magic f h)
        (λ f' h'. files_write-Writes io healthy fuel big 4 version f' h')

  -- Whatever interrupts the writing, a saved context is the header, its fields and its blob, each
  -- once and in this order, behind what the file had.
  pub files_save_context-Writes :
      (c : TpmsContext) (f : F)
      → healthy.patience f < fuel
      → Gives (Writes io healthy (encode_context c) f) (files_save_context io fuel big c f)
  unfolding files_save_context
  files_save_context-Writes c f h =
      Writes-then _ _ (files_write_header io fuel big context_version) _ f h
        (files_write_header-Writes context_version f h)
        (λ f1 h1. field 4 c.hierarchy _ _ f1 h1 (λ f2 h2. field 4 c.saved_handle _ _ f2 h2 (λ f3 h3.
          field 8 c.sequence _ _ f3 h3 (λ f4 h4.
            field 2 (length c.context_blob) _ _ f4 h4
              (λ f5 h5. files_write_bytes-Writes io healthy fuel big c.context_blob f5 h5)))))
    where
      field :
          (w v : ℕ) (b : Bytes) (k : Io F (Unit {0})) (f' : F)
          → healthy.patience f' < fuel
          → ((f'' : F) → healthy.patience f'' < fuel → Gives (Writes io healthy b f'') (k f''))
          → Gives (Writes io healthy (be_bytes w v ++ b) f') ((files_write io fuel big w v >> k) f')
      field w v b k f' h' n =
          Writes-then (be_bytes w v) b (files_write io fuel big w v) k f' h'
            (files_write-Writes io healthy fuel big w v f' h') n

  must_then :
      {B : Type 0} (b : Bool) (P : B → F → Type 0) (k : Io F B) (f : F)
      → b ≡ true
      → Gives P (k f)
      → Gives P ((must b >>= λ _. k) f)
  must_then b P k f e g = rw e g

  read_number :
      {B : Type 0} (w v : ℕ) (c : B) (b rest : Bytes) (k : ℕ → Io F B) (f : F)
      → healthy.patience f < fuel
      → v < byte_limit w
      → healthy.unread f ≡ be_bytes w v ++ b
      → ((f' : F)
          → healthy.patience f' < fuel
          → healthy.unread f' ≡ b
          → Gives (Reads io healthy c rest f') (k v f'))
      → Gives (Reads io healthy c rest f) ((files_read io fuel big w >>= k) f)
  read_number w v c b rest k f h l u n =
      Reads-then v c b rest (files_read io fuel big w) k f h
        (files_read-Reads io healthy fuel big w v b f h l u) n

  files_read_header-Reads :
      (version : ℕ) (b : Bytes) (f : F)
      → healthy.patience f < fuel
      → version < byte_limit 4
      → healthy.unread f ≡ be_bytes 4 magic ++ be_bytes 4 version ++ b
      → Gives (Reads io healthy version b f) (files_read_header io fuel big f)
  unfolding files_read_header check_magic
  files_read_header-Reads version b f h l u =
      Reads-then tt version (be_bytes 4 version ++ b) b (check_magic io fuel big false) _ f h
        (read_number 4 magic tt (be_bytes 4 version ++ b) (be_bytes 4 version ++ b) _ f h
          (omega arith) u (λ f' h' u'. (refl, u', omega arith)))
        (λ f' h' u'. files_read-Reads io healthy fuel big 4 version b f' h' l u')

  load_fields-Reads :
      (max_context_blob : ℕ) (c : TpmsContext) (rest : Bytes) (f : F)
      → IsContext max_context_blob c
      → healthy.patience f < fuel
      → healthy.unread f
        ≡ be_bytes 4 c.hierarchy
          ++ be_bytes 4 c.saved_handle
          ++ be_bytes 8 c.sequence
          ++ be_bytes 2 (length c.context_blob)
          ++ c.context_blob
          ++ rest
      → Gives (Reads io healthy c rest f) (load_fields io fuel big max_context_blob f)
  unfolding load_fields
  load_fields-Reads max_context_blob c rest f (i, j, k, l, l16) h u =
      read_number 4 c.hierarchy c _ rest _ f h i u (λ f1 h1 u1.
        read_number 4 c.saved_handle c _ rest _ f1 h1 j u1 (λ f2 h2 u2.
          read_number 8 c.sequence c _ rest _ f2 h2 k u2 (λ f3 h3 u3.
            read_number 2 (length c.context_blob) c (c.context_blob ++ rest) rest _ f3 h3
              (omega arith) u3
              (λ f4 h4 u4.
                must_then (leb (length c.context_blob) max_context_blob) _ _ f4 (ground arith) (
                  Reads-then c.context_blob c rest rest
                    (files_read_bytes io fuel big (length c.context_blob)) _ f4 h4
                    (files_read_bytes-Reads io healthy fuel big (length c.context_blob)
                      c.context_blob rest f4 h4 refl u4)
                    (λ f5 h5 u5. (refl, u5, omega arith)))))))

  module _ (max_context_blob size_of_context : ℕ) (context_of : Bytes → TpmsContext) where
    load_tpm_context_file-Reads :
        (c : TpmsContext) (f : F)
        → IsContext max_context_blob c
        → healthy.patience f < fuel
        → healthy.unread f ≡ encode_context c
        → Gives
            (Reads io healthy c [] f)
            (load_tpm_context_file io fuel big max_context_blob size_of_context context_of f)
    unfolding load_tpm_context_file
    load_tpm_context_file-Reads c f i h u = past_header (files_read_header io fuel big f) (
        files_read_header-Reads context_version fields f h (omega arith)
          (u ∙ ap behind (sym (append-nil c.context_blob))))
      where
        behind : Bytes → Bytes
        behind blob =
            be_bytes 4 magic
            ++ be_bytes 4 context_version
            ++ be_bytes 4 c.hierarchy
            ++ be_bytes 4 c.saved_handle
            ++ be_bytes 8 c.sequence
            ++ be_bytes 2 (length c.context_blob)
            ++ blob

        fields : Bytes
        fields =
            be_bytes 4 c.hierarchy
            ++ be_bytes 4 c.saved_handle
            ++ be_bytes 8 c.sequence
            ++ be_bytes 2 (length c.context_blob)
            ++ c.context_blob
            ++ []

        past_header :
            (r : Outcome ℕ × F)
            → Gives (Reads io healthy context_version fields f) r
            → Gives
                (Reads io healthy c [] f)
                (after_header io fuel big max_context_blob size_of_context context_of r)
        past_header (ok v, f') (e, u', d) =
            must_then (v == context_version) _ (load_fields io fuel big max_context_blob) f'
              (ground arith)
              (Gives-mono _ _ (load_fields io fuel big max_context_blob f')
                (λ c' f'' w. (w.0, w.1, (let d' = w.2 in omega arith)))
                (load_fields-Reads max_context_blob c [] f' i (omega arith) u'))
        past_header (refused, f') g = absurd g
        past_header (fault, f') g = absurd g

    result-ok :
        {A : Type 0} (P : A → F → Type 0) (a : A) (r : Outcome A × F)
        → ((b : A) (f : F) → P b f → b ≡ a)
        → Gives P r
        → r.0 ≡ ok a
    result-ok P a (ok b, f) k g = ap ok (k b f g)
    result-ok P a (refused, f) k g = absurd g
    result-ok P a (fault, f) k g = absurd g

    -- On healthy streams, saving a context succeeds, and loading from a stream that is about to read
    -- what was saved into an empty file gives that context, whatever the host's byte order and
    -- whatever interrupts the transfers; provided that its numbers fit their fields and that its
    -- blob is below 2^16 bytes and at most as long as the structure's buffer, whatever length that
    -- has.
    pub files_save_context-load_tpm_context_file :
        (c : TpmsContext) (f r : F)
        → IsContext max_context_blob c
        → healthy.patience f < fuel
        → healthy.patience r < fuel
        → healthy.written f ≡ []
        → healthy.unread r ≡ healthy.written (files_save_context io fuel big c f).1
        → ((files_save_context io fuel big c f).0 ≡ ok tt)
          × ((load_tpm_context_file io fuel big max_context_blob size_of_context context_of r).0
              ≡ ok c)
    files_save_context-load_tpm_context_file c f r i h k empty same = (
      result-ok _ tt (files_save_context io fuel big c f) (λ b f' p. refl) saved,
      result-ok _ c
          (load_tpm_context_file io fuel big max_context_blob size_of_context context_of r)
          (λ b f' p. p.0)
          (load_tpm_context_file-Reads c r i k (
            same
            ∙ (content (files_save_context io fuel big c f) saved
                ∙ ap (λ l. l ++ encode_context c) empty))),
    )
      where
        saved : Gives (Writes io healthy (encode_context c) f) (files_save_context io fuel big c f)
        saved = files_save_context-Writes c f h

        content :
            (s : Outcome (Unit {0}) × F)
            → Gives (Writes io healthy (encode_context c) f) s
            → healthy.written s.1 ≡ healthy.written f ++ encode_context c
        content (ok a, f') g = g.0
        content (refused, f') g = absurd g
        content (fault, f') g = absurd g
