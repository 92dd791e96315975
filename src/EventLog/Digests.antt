-- ===== src/EventLog/Digests.antt =====
-- The digests of an event: where they lie, and that the loop over them stays within the buffer.
use mathlib.Core.Option
use tpm2_tools.Base.Bytes.{Bytes, read_le-ok, read_bytes-ok, value_le}
use tpm2_tools.Base.Outcome.{
  Outcome, ok, ◌>>=◌, Ensures, Ensures-bind, Ensures-mono, Ensures-if, Ensures-ok,
  Ensures-refuse_if,
}
use tpm2_tools.Base.{
  ℕ, zero, suc, ◌+◌, ◌-◌, ◌%◌, ◌^◌, ◌≤◌, ◌<◌, ◌≡◌, refl, ◌∙◌, List, [], ◌∷◌, Option, none, some,
  arith, ltb, ◌==◌, if◌then◌else◌, length, get_elem?, drop, length-set, length-drop,
}
use tpm2_tools.EventLog.{
  get_hash_size, PcrBank, Context, Callbacks, returned, call, pcr_extend, extend_bank, extend_alg,
  step_digest2, digest2_loop, digest2_accumulator, accumulating,
}
use tpm2_tools.Tss

-- Each bank has its 32 PCRs.
pub record IsLog {D : Type 0} (ctx : Context D) : Type 0 where
  pub sha1_size : length ctx.sha1.pcrs ≡ Tss.max_pcrs
  pub sha256_size : length ctx.sha256.pcrs ≡ Tss.max_pcrs
  pub sha384_size : length ctx.sha384.pcrs ≡ Tss.max_pcrs
  pub sha512_size : length ctx.sha512.pcrs ≡ Tss.max_pcrs
  pub sm3_256_size : length ctx.sm3_256.pcrs ≡ Tss.max_pcrs

-- The bytes that `count` digests take up.
abbrev pub digest_width : Bytes → ℕ
digest_width digest = 2 + get_hash_size (value_le 2 digest)

abbrev pub digests_width : ℕ → Bytes → ℕ
digests_width zero digest = 0
digests_width (suc count) digest =
    digest_width digest + digests_width count (drop (digest_width digest) digest)

get_elem?-some : (xs : List Bytes) (i : ℕ) → i < length xs → (x : Bytes) × (get_elem? xs i ≡ some x)
get_elem?-some [] i h = absurd (omega arith)
get_elem?-some (x ∷ xs) zero h = (x, refl)
get_elem?-some (x ∷ xs) (suc i) h = get_elem?-some xs i (omega arith)

abbrev Any {ℓ} : {A : Type ℓ} → A → Type 0
Any _ = Unit

pub returned-Ensures {ℓ} : {A : Type ℓ} (o : Option A) → Ensures (λ (_ : A). Unit {0}) (returned o)
returned-Ensures none = tt
returned-Ensures (some a) = tt

-- A callback changes the user's data only.
pub call-Ensures :
    {D : Type 0} (f : Option (D → Option D)) (ctx : Context D)
    → IsLog ctx
    → Ensures IsLog (call f ctx)
call-Ensures none ctx l = l
call-Ensures (some f) ctx l =
    Ensures-bind (λ _. Unit) IsLog (returned (f ctx.user)) _ (returned-Ensures (f ctx.user))
      (λ u _. record {
        sha1_size = l.sha1_size;
        sha256_size = l.sha256_size;
        sha384_size = l.sha384_size;
        sha512_size = l.sha512_size;
        sm3_256_size = l.sm3_256_size;
      })

module _ (hash : ℕ → Bytes → Option Bytes) where
  pcr_extend-Ensures :
      (alg : ℕ) (pcr d : Bytes) (n : ℕ)
      → n ≤ length d
      → Ensures (λ (_ : Bytes). Unit {0}) (pcr_extend hash alg pcr d n)
  unfolding pcr_extend
  pcr_extend-Ensures alg pcr d n h =
      Ensures-ok (λ _. Unit) _ (read_bytes-ok (n % 2 ^ 16) d (omega arith)) (returned-Ensures _)

  pub extend_bank-Ensures :
      (alg i : ℕ) (d : Bytes) (n : ℕ) (b : PcrBank)
      → length b.pcrs ≡ Tss.max_pcrs
      → i < Tss.max_pcrs
      → n ≤ length d
      → Ensures (λ b'. length b'.pcrs ≡ Tss.max_pcrs) (extend_bank hash alg i d n b)
  unfolding extend_bank
  extend_bank-Ensures alg i d n b size hi hn =
      let (pcr, e) = get_elem?-some b.pcrs i (omega arith) in
      rw (e, extend_bank)
        (Ensures-bind (λ _. Unit) _ (pcr_extend hash alg pcr d n) _
          (pcr_extend-Ensures alg pcr d n hn) (λ pcr' _. length-set b.pcrs i pcr' ∙ size))

  module _ {D : Type 0} (alg i : ℕ) (d : Bytes) (n : ℕ) (ctx : Context D) where
    -- The bank is replaced by one of the same size.
    replaced :
        (b : PcrBank) (f : PcrBank → Context D)
        → length b.pcrs ≡ Tss.max_pcrs
        → i < Tss.max_pcrs
        → n ≤ length d
        → ((b' : PcrBank) → length b'.pcrs ≡ Tss.max_pcrs → IsLog (f b') × ((f b').user ≡ ctx.user))
        → Ensures
            (λ ctx'. IsLog ctx' × (ctx'.user ≡ ctx.user))
            (do b' ← extend_bank hash alg i d n b; ok (f b'))
    replaced b f size hi hn h =
        Ensures-bind (λ b'. length b'.pcrs ≡ Tss.max_pcrs) _ (extend_bank hash alg i d n b) _
          (extend_bank-Ensures alg i d n b size hi hn) h

    pub extend_alg-Ensures :
        IsLog ctx
        → i < Tss.max_pcrs
        → n ≤ length d
        → Ensures (λ ctx'. IsLog ctx' × (ctx'.user ≡ ctx.user)) (extend_alg hash alg i d n ctx)
    unfolding extend_alg
    extend_alg-Ensures l hi hn =
        if_alg Tss.alg_sha1 _ _
          (replaced ctx.sha1 (λ b'. record ctx { sha1 = b' }) l.sha1_size hi hn
            (λ b' h. ground arith))
          (if_alg Tss.alg_sha256 _ _
            (replaced ctx.sha256 (λ b'. record ctx { sha256 = b' }) l.sha256_size hi hn
              (λ b' h. ground arith))
            (if_alg Tss.alg_sha384 _ _
              (replaced ctx.sha384 (λ b'. record ctx { sha384 = b' }) l.sha384_size hi hn
                (λ b' h. ground arith))
              (if_alg Tss.alg_sha512 _ _
                (replaced ctx.sha512 (λ b'. record ctx { sha512 = b' }) l.sha512_size hi hn
                  (λ b' h. ground arith))
                (if_alg Tss.alg_sm3_256 _ _
                  (replaced ctx.sm3_256 (λ b'. record ctx { sm3_256 = b' }) l.sm3_256_size hi hn
                    (λ b' h. ground arith))
                  (l, refl)))))
      where
        if_alg :
            (id : ℕ) (m m' : Outcome (Context D))
            → Ensures (λ ctx'. IsLog ctx' × (ctx'.user ≡ ctx.user)) m
            → Ensures (λ ctx'. IsLog ctx' × (ctx'.user ≡ ctx.user)) m'
            → Ensures (λ ctx'. IsLog ctx' × (ctx'.user ≡ ctx.user)) (if alg == id then m else m')
        if_alg id m m' h k = Ensures-if _ (alg == id) m m' (λ _. h) (λ _. k)

  module _ {D : Type 0} (cb : Callbacks D) (i : ℕ) (hi : i < Tss.max_pcrs) where
    step_digest2-Ensures :
        (alg n : ℕ) (digest : Bytes) (ctx : Context D)
        → 2 + n ≤ length digest
        → IsLog ctx
        → Ensures IsLog (step_digest2 hash cb i alg n digest ctx)
    unfolding step_digest2
    step_digest2-Ensures alg n digest ctx h l =
        Ensures-bind _ IsLog (extend_alg hash alg i (drop 2 digest) n ctx) _
          (extend_alg-Ensures alg i (drop 2 digest) n ctx l hi
            (omega (arith, length-drop 2 digest)))
          (λ ctx' l'. call-Ensures (Option.map (λ f. f digest n) cb.digest2_cb) ctx' l'.0)

    -- The loop stays within `size` bytes, and on success the digests fit them.
    pub digest2_loop-Ensures :
        (count : ℕ) (digest : Bytes) (size : ℕ) (ctx : Context D)
        → size ≤ length digest
        → IsLog ctx
        → Ensures IsLog (digest2_loop hash cb i count digest size ctx)
    unfolding digest2_loop
    digest2_loop-Ensures zero digest size ctx h l = l
    digest2_loop-Ensures (suc count) digest size ctx h l =
        Ensures-refuse_if IsLog (ltb size 2) _ λ two.
          Ensures-ok IsLog _ (read_le-ok 2 digest (ground arith)) (
            Ensures-refuse_if IsLog (ltb size (digest_width digest)) _ λ fits.
              Ensures-bind IsLog IsLog (step_digest2 hash cb i alg n digest ctx) _
                (step_digest2-Ensures alg n digest ctx (ground arith) l)
                (λ ctx' l'.
                  digest2_loop-Ensures count (drop (2 + n) digest) (size - (2 + n)) ctx'
                    (omega (arith, length-drop (2 + n) digest)) l'))
      where
        alg : ℕ
        alg = value_le 2 digest

        n : ℕ
        n = get_hash_size alg

  -- What the accumulating pass of `parse_event2` finds: the width of the digests.
  module _ (i : ℕ) (hi : i < Tss.max_pcrs) where
    pub record Accumulated (count : ℕ) (digest : Bytes) (size : ℕ) (ctx ctx' : Context ℕ)
        : Type 0 where
      pub width : ctx'.user ≡ ctx.user + digests_width count digest
      pub fits : digests_width count digest ≤ size

    step_digest2-user :
        (alg n : ℕ) (digest : Bytes) (ctx : Context ℕ)
        → 2 + n ≤ length digest
        → IsLog ctx
        → Ensures
            (λ ctx'. IsLog ctx' × (ctx'.user ≡ ctx.user + (2 + n)))
            (step_digest2 hash accumulating i alg n digest ctx)
    unfolding step_digest2 digest2_accumulator
    step_digest2-user alg n digest ctx h l =
        Ensures-bind _ _ (extend_alg hash alg i (drop 2 digest) n ctx) _
          (extend_alg-Ensures alg i (drop 2 digest) n ctx l hi
            (omega (arith, length-drop 2 digest)))
          (λ ctx' l'. ground arith)

    pub digest2_loop-accumulating :
        (count : ℕ) (digest : Bytes) (size : ℕ) (ctx : Context ℕ)
        → size ≤ length digest
        → IsLog ctx
        → Ensures
            (Accumulated count digest size ctx)
            (digest2_loop hash accumulating i count digest size ctx)
    unfolding digest2_loop
    digest2_loop-accumulating zero digest size ctx h l = omega arith
    digest2_loop-accumulating (suc count) digest size ctx h l =
        Ensures-refuse_if _ (ltb size 2) _ λ two.
          Ensures-ok _ _ (read_le-ok 2 digest (ground arith)) (
            Ensures-refuse_if _ (ltb size (digest_width digest)) _ λ fits.
              Ensures-bind _ _ (step_digest2 hash accumulating i alg n digest ctx) _
                (step_digest2-user alg n digest ctx (ground arith) l)
                (λ ctx' l'.
                  Ensures-mono (Accumulated count (drop (2 + n) digest) (size - (2 + n)) ctx') _ _
                    (λ ctx'' a. ground arith)
                    (digest2_loop-accumulating count (drop (2 + n) digest) (size - (2 + n)) ctx'
                      (omega (arith, length-drop (2 + n) digest)) l'.0)))
      where
        alg : ℕ
        alg = value_le 2 digest

        n : ℕ
        n = get_hash_size alg
