-- ===== src/EventLog/Replay/Banks.antt =====
-- What the extension of a PCR by one digest does to every PCR of every bank.
use tpm2_tools.Base.Bytes.{Bytes, read_bytes-ok}
use tpm2_tools.Base.Outcome.{ok, ◌>>=◌}
use tpm2_tools.Base.{
  ℕ, ◌%◌, ◌^◌, ◌≡◌, ◌≤◌, ◌<◌, inl, inr, refl, subst, true, false, ◌&&◌, [], ◌++◌, Option, some,
  arith, ◌==◌, if◌then◌else◌, length, take-append, length-append, length-set, get_elem?-get_or,
  get_or, set, bit_or, get_or-set_self, get_or-set_ne, Bool-cases,
}
use tpm2_tools.EventLog.Digests.{IsLog}
use tpm2_tools.EventLog.Replay.{HasBank, pcr_value}
use tpm2_tools.EventLog.{Context, PcrBank, pcr_extend, extend_bank, extend_alg}
use tpm2_tools.Tss

module _ (h : ℕ → Bytes → Bytes) where
  abbrev pub total : ℕ → Bytes → Option Bytes
  total alg msg = some (h alg msg)

  abbrev extended : ℕ → ℕ → Bytes → PcrBank → PcrBank
  extended alg i d b = record {
    used = bit_or b.used (2 ^ i);
    pcrs = set b.pcrs i (h alg (get_or b.pcrs i [] ++ d));
  }

  extend_bank-extended :
      (alg i : ℕ) (d rest : Bytes) (b : PcrBank)
      → length b.pcrs ≡ Tss.max_pcrs
      → i < Tss.max_pcrs
      → length d < 2 ^ 16
      → extend_bank total alg i (d ++ rest) (length d) b ≡ ok (extended alg i d b)
  unfolding extend_bank pcr_extend
  extend_bank-extended alg i d rest b size hi small =
      let short : length d % 2 ^ 16 ≡ length d = omega (arith, small) in
      let fits : length d ≤ length (d ++ rest) = omega (arith, length-append d rest) in
      rw (get_elem?-get_or b.pcrs i [] (omega (arith, size, hi)), extend_bank)
        (rw (short, read_bytes-ok (length d) (d ++ rest) fits, take-append d rest, ◌>>=◌) refl)

  -- One PCR of one algorithm is extended, and the others are as before.
  pub record Extends {D : Type 0} (alg i : ℕ) (d : Bytes) (ctx ctx' : Context D) : Type 0 where
    pub same_user : ctx'.user ≡ ctx.user
    pub log : IsLog ctx'
    pub value :
        (alg' j : ℕ)
        → HasBank alg'
        → pcr_value alg' j ctx' ≡ (
            if alg == alg' && i == j
            then h alg (pcr_value alg' j ctx ++ d)
            else pcr_value alg' j ctx)

  extended-value :
      (alg i j : ℕ) (d : Bytes) (b : PcrBank)
      → i < length b.pcrs
      → get_or (extended alg i d b).pcrs j []
        ≡ (if i == j then h alg (get_or b.pcrs j [] ++ d) else get_or b.pcrs j [])
  extended-value alg i j d b hi = elim (Bool-cases (i == j)) [
    | inl e ↦
        let same : i ≡ j = ground arith in
        rw e (
          subst (λ k. get_or (extended alg i d b).pcrs k [] ≡ h alg (get_or b.pcrs k [] ++ d)) same
            (get_or-set_self b.pcrs i (h alg (get_or b.pcrs i [] ++ d)) [] hi))
    | inr ne ↦ rw ne (get_or-set_ne b.pcrs i j (h alg (get_or b.pcrs i [] ++ d)) [] (ground arith))
  ]

  pub extend_alg-Extends :
      {D : Type 0} (alg i : ℕ) (d rest : Bytes) (ctx : Context D)
      → HasBank alg
      → length d < 2 ^ 16
      → i < Tss.max_pcrs
      → IsLog ctx
      → (ctx' : Context D) × (extend_alg total alg i (d ++ rest) (length d) ctx ≡ ok ctx')
        × Extends alg i d ctx ctx'
  unfolding extend_alg
  extend_alg-Extends alg i d rest ctx (inl e) small hi l =
      let is : (alg == Tss.alg_sha1) ≡ true = ground arith in
      (
        record ctx { sha1 = extended alg i d ctx.sha1 },
        rw (is) (rw (extend_bank-extended alg i d rest ctx.sha1 l.sha1_size hi small, ◌>>=◌) refl),
        record {
          same_user = refl;
          log = ground (arith, length-set ctx.sha1.pcrs i (h alg (get_or ctx.sha1.pcrs i [] ++ d)));
          value = λ alg' j known.
              ground (
                arith,
                e,
                known,
                extended-value alg i j d ctx.sha1 (omega (arith, l.sha1_size, hi)),
              );
        },
      )
  extend_alg-Extends alg i d rest ctx (inr (inl e)) small hi l =
      let not_sha1 : (alg == Tss.alg_sha1) ≡ false = ground arith in
      let is : (alg == Tss.alg_sha256) ≡ true = ground arith in
      (
        record ctx { sha256 = extended alg i d ctx.sha256 },
        rw (not_sha1, is)
            (rw (extend_bank-extended alg i d rest ctx.sha256 l.sha256_size hi small, ◌>>=◌) refl),
        record {
          same_user = refl;
          log =
              ground
                (arith, length-set ctx.sha256.pcrs i (h alg (get_or ctx.sha256.pcrs i [] ++ d)));
          value = λ alg' j known. ground (
            arith,
            e,
            known,
            extended-value alg i j d ctx.sha256 (omega (arith, l.sha256_size, hi)),
          );
        },
      )
  extend_alg-Extends alg i d rest ctx (inr (inr (inl e))) small hi l =
      let not_sha1 : (alg == Tss.alg_sha1) ≡ false = ground arith in
      let not_sha256 : (alg == Tss.alg_sha256) ≡ false = ground arith in
      let is : (alg == Tss.alg_sha384) ≡ true = ground arith in
      (
        record ctx { sha384 = extended alg i d ctx.sha384 },
        rw (not_sha1, not_sha256, is)
            (rw (extend_bank-extended alg i d rest ctx.sha384 l.sha384_size hi small, ◌>>=◌) refl),
        record {
          same_user = refl;
          log =
              ground
                (arith, length-set ctx.sha384.pcrs i (h alg (get_or ctx.sha384.pcrs i [] ++ d)));
          value = λ alg' j known. ground (
            arith,
            e,
            known,
            extended-value alg i j d ctx.sha384 (omega (arith, l.sha384_size, hi)),
          );
        },
      )
  extend_alg-Extends alg i d rest ctx (inr (inr (inr (inl e)))) small hi l =
      let not_sha1 : (alg == Tss.alg_sha1) ≡ false = ground arith in
      let not_sha256 : (alg == Tss.alg_sha256) ≡ false = ground arith in
      let not_sha384 : (alg == Tss.alg_sha384) ≡ false = ground arith in
      let is : (alg == Tss.alg_sha512) ≡ true = ground arith in
      (
        record ctx { sha512 = extended alg i d ctx.sha512 },
        rw (not_sha1, not_sha256, not_sha384, is)
            (rw (extend_bank-extended alg i d rest ctx.sha512 l.sha512_size hi small, ◌>>=◌) refl),
        record {
          same_user = refl;
          log =
              ground
                (arith, length-set ctx.sha512.pcrs i (h alg (get_or ctx.sha512.pcrs i [] ++ d)));
          value = λ alg' j known. ground (
            arith,
            e,
            known,
            extended-value alg i j d ctx.sha512 (omega (arith, l.sha512_size, hi)),
          );
        },
      )
  extend_alg-Extends alg i d rest ctx (inr (inr (inr (inr e)))) small hi l =
      let not_sha1 : (alg == Tss.alg_sha1) ≡ false = ground arith in
      let not_sha256 : (alg == Tss.alg_sha256) ≡ false = ground arith in
      let not_sha384 : (alg == Tss.alg_sha384) ≡ false = ground arith in
      let not_sha512 : (alg == Tss.alg_sha512) ≡ false = ground arith in
      let is : (alg == Tss.alg_sm3_256) ≡ true = ground arith in
      (
        record ctx { sm3_256 = extended alg i d ctx.sm3_256 },
        rw (not_sha1, not_sha256, not_sha384, not_sha512, is)
            (rw (extend_bank-extended alg i d rest ctx.sm3_256 l.sm3_256_size hi small, ◌>>=◌)
              refl),
        record {
          same_user = refl;
          log =
              ground
                (arith, length-set ctx.sm3_256.pcrs i (h alg (get_or ctx.sm3_256.pcrs i [] ++ d)));
          value = λ alg' j known. ground (
            arith,
            e,
            known,
            extended-value alg i j d ctx.sm3_256 (omega (arith, l.sm3_256_size, hi)),
          );
        },
      )
