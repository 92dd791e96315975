-- ===== src/EventLog/Replay/Loop.antt =====
-- The loops over the digests and events of an encoded log.
use mathlib.Core.Option
use tpm2_tools.Base.Bytes.{Bytes, read_le, read_le-ok}
use tpm2_tools.Base.Outcome.{Outcome, ok, ◌>>=◌}
use tpm2_tools.Base.{
  ℕ, suc, ◌+◌, ◌-◌, ◌≡◌, ◌≤◌, ◌<◌, refl, ap, sym, ◌∙◌, false, List, [], ◌∷◌, ◌++◌, arith, ltb,
  length, drop, length-append, All,
}
use tpm2_tools.EventLog.Digests.{IsLog}
use tpm2_tools.EventLog.Replay.{
  Digest, encode_digests, HasBank, IsDigest, pcr_value, replay_digests,
}
use tpm2_tools.EventLog.Replay.Banks.{total, extend_alg-Extends}
use tpm2_tools.EventLog.Replay.Encoding.{digest_alg, digest_short, drop-digest_bytes, drop-digest}
use tpm2_tools.EventLog.{
  Callbacks, Context, call, get_hash_size, extend_alg, step_digest2, digest2_loop,
}
use tpm2_tools.Tss

-- The callback for digests, where there is one, returns true, for any digest and context.
abbrev pub TakesDigests : {D : Type 0} → Callbacks D → Type 0
TakesDigests {D} cb =
    (digest : Bytes) (n : ℕ) (ctx : Context D)
    → (u : D) × (call (Option.map (λ f. f digest n) cb.digest2_cb) ctx
        ≡ ok (record ctx { user = u }))

module _ (h : ℕ → Bytes → Bytes) {D : Type 0} where
  -- Every PCR of every bank holds what the digests leave of its value before.
  pub record Replayed (i : ℕ) (ds : List Digest) (ctx ctx' : Context D) : Type 0 where
    pub log : IsLog ctx'
    pub value :
        (alg j : ℕ)
        → HasBank alg
        → pcr_value alg j ctx' ≡ replay_digests h alg j i ds (pcr_value alg j ctx)

  module _ (cb : Callbacks D) (takes : TakesDigests cb) (i : ℕ) (hi : i < Tss.max_pcrs) where
    step_digest2-Replayed :
        (d : Digest) (ds : List Digest) (rest : Bytes) (ctx : Context D)
        → IsDigest d
        → IsLog ctx
        → (ctx' : Context D) × (step_digest2
              (total h)
              cb
              i
              d.0
              (length d.1)
              (encode_digests (d ∷ ds) ++ rest)
              ctx
            ≡ ok ctx')
          × Replayed i (d ∷ []) ctx ctx'
    unfolding step_digest2
    step_digest2-Replayed d ds rest ctx hd l =
        let (ctx1, e, x) =
          extend_alg-Extends h d.0 i d.1 (encode_digests ds ++ rest) ctx hd.0 (digest_short d hd) hi
            l in
        let (u, ec) = takes (encode_digests (d ∷ ds) ++ rest) (length d.1) ctx1 in
        (
          record ctx1 { user = u },
          ap (λ l. extend_alg (total h) d.0 i l (length d.1) ctx >>= next)
                (drop-digest_bytes d ds rest)
              ∙ ap (λ m. m >>= next) e
              ∙ ec,
          record { log = ground (arith, x.log); value = λ alg j known. x.value alg j known },
        )
      where
        next : Context D → Outcome (Context D)
        next =
            call (Option.map (λ f. f (encode_digests (d ∷ ds) ++ rest) (length d.1)) cb.digest2_cb)

    digest2_loop-step :
        (digest : Bytes) (alg n count size : ℕ) (ctx ctx1 : Context D) (r : Outcome (Context D))
        → read_le 2 digest ≡ ok alg
        → get_hash_size alg ≡ n
        → 2 + n ≤ size
        → step_digest2 (total h) cb i alg n digest ctx ≡ ok ctx1
        → digest2_loop (total h) cb i count (drop (2 + n) digest) (size - (2 + n)) ctx1 ≡ r
        → digest2_loop (total h) cb i (suc count) digest size ctx ≡ r
    unfolding digest2_loop
    digest2_loop-step digest alg n count size ctx ctx1 r read known fits step rest =
        let two : ltb size 2 ≡ false = ground arith in
        let room : ltb size (2 + n) ≡ false = ground arith in
        rw (two, read, ◌>>=◌) (rw (known, room) (ap (λ m. m >>= next) step ∙ rest))
      where
        next : Context D → Outcome (Context D)
        next c = digest2_loop (total h) cb i count (drop (2 + n) digest) (size - (2 + n)) c

    pub digest2_loop-Replayed :
        (ds : List Digest) (rest : Bytes) (size : ℕ) (ctx : Context D)
        → All IsDigest ds
        → length (encode_digests ds) ≤ size
        → IsLog ctx
        → (ctx' : Context D) × (digest2_loop
              (total h)
              cb
              i
              (length ds)
              (encode_digests ds ++ rest)
              size
              ctx
            ≡ ok ctx')
          × Replayed i ds ctx ctx'
    unfolding digest2_loop
    digest2_loop-Replayed [] rest size ctx hd hs l =
        (ctx, refl, record { log = l; value = λ alg j known. refl })
    digest2_loop-Replayed (d ∷ ds) rest size ctx hd hs l =
        let (ctx1, e1, r1) = step_digest2-Replayed d ds rest ctx hd.0 l in
        let (ctx2, e2, r2) =
          digest2_loop-Replayed ds rest (size - (2 + length d.1)) ctx1 hd.1 (omega (arith, size_of))
            r1.log in
        (
          ctx2,
          digest2_loop-step (encode_digests (d ∷ ds) ++ rest) d.0 (length d.1) (length ds) size ctx
              ctx1 (ok ctx2) read known fits e1
              (ap (λ l. digest2_loop (total h) cb i (length ds) l (size - (2 + length d.1)) ctx1)
                  (drop-digest d ds rest (length d.1) refl)
                ∙ e2),
          record {
            log = r2.log;
            value = λ alg j known.
                r2.value alg j known
                ∙ ap (λ v. replay_digests h alg j i ds v) (r1.value alg j known);
          },
        )
      where
        size_of : length (encode_digests (d ∷ ds)) ≡ 2 + length d.1 + length (encode_digests ds)
        size_of = omega (arith, length-append d.1 (encode_digests ds))

        read : read_le 2 (encode_digests (d ∷ ds) ++ rest) ≡ ok d.0
        read =
            read_le-ok 2 (encode_digests (d ∷ ds) ++ rest) (omega arith)
            ∙ ap ok (digest_alg d ds rest hd.0)

        known : get_hash_size d.0 ≡ length d.1
        known = sym hd.0.1

        fits : 2 + length d.1 ≤ size
        fits = omega (arith, size_of, hs)
