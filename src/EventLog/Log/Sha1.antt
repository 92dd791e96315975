-- ===== src/EventLog/Log/Sha1.antt =====
-- Logs in the SHA-1 format: what `parse_sha1_log_event` does with the index of the PCR.
use tpm2_tools.Base.Bytes.{Bytes, read_field-ok, field_le}
use tpm2_tools.Base.Outcome.{
  Outcome, ok, refused, fault, ◌>>=◌, Ensures, Ensures-bind, Ensures-ok, Ensures-refuse_if,
}
use tpm2_tools.Base.{
  ℕ, zero, suc, ◌+◌, ◌≤◌, ◌<◌, ◌≡◌, refl, false, List, [], ◌∷◌, Option, none, arith, ltb, bit_or,
  ◌^◌, length, get_elem?, drop, length-drop,
}
use tpm2_tools.EventLog.Digests.{IsLog, extend_bank-Ensures}
use tpm2_tools.EventLog.Log.{extend_sha1, parse_sha1_log_event}
use tpm2_tools.EventLog.{Context, Callbacks, PcrBank, extend_bank}
use tpm2_tools.Tss

get_elem?-none : (xs : List Bytes) (i : ℕ) → length xs ≤ i → get_elem? xs i ≡ none
get_elem?-none [] i h = refl
get_elem?-none (x ∷ xs) zero h = absurd (omega arith)
get_elem?-none (x ∷ xs) (suc i) h = get_elem?-none xs i (omega arith)

module _ (hash : ℕ → Bytes → Option Bytes) {D : Type 0} (cb : Callbacks D) where
  -- What the parser leaves: a log, and a size of the event that lies in the buffer.
  abbrev pub IsParsed : Bytes → ℕ → ℕ × Context D → Type 0
  IsParsed event size r = (r.0 ≡ 32 + field_le 28 4 event) × (r.0 ≤ size) × IsLog r.1

  extend_sha1-Ensures :
      (i : ℕ) (d : Bytes) (ctx : Context D)
      → IsLog ctx
      → i < Tss.max_pcrs
      → 20 ≤ length d
      → Ensures IsLog (extend_sha1 hash cb i d ctx)
  unfolding extend_sha1
  extend_sha1-Ensures i d ctx l hi hd = taken (extend_bank hash Tss.alg_sha1 i d 20 ctx.sha1) bank
    where
      bank :
          Ensures
            (λ b. length b.pcrs ≡ Tss.max_pcrs)
            (extend_bank hash Tss.alg_sha1 i d 20 ctx.sha1)
      bank = extend_bank-Ensures hash Tss.alg_sha1 i d 20 ctx.sha1 l.sha1_size hi hd

      taken :
          (m : Outcome PcrBank)
          → Ensures (λ b. length b.pcrs ≡ Tss.max_pcrs) m
          → Ensures IsLog (elim m [
            | ok b ↦ ok (record ctx { sha1 = b })
            | refused ↦
                let b = ctx.sha1 in
                ok (record ctx { sha1 = record b { used = bit_or b.used (2 ^ i) } })
            | fault ↦ fault
          ])
      taken (ok b) h = ground arith
      taken refused h = ground arith
      taken fault h = absurd h

  -- With the index of a PCR that exists, on a buffer of at least `size` bytes and banks of 32
  -- PCRs, `parse_sha1_log_event` reads nothing outside the buffer, and on success gives the
  -- event's size, which is within `size`, and leaves banks of 32 PCRs.
  pub parse_sha1_log_event-IsParsed :
      (event : Bytes) (size : ℕ) (ctx : Context D)
      → size ≤ length event
      → IsLog ctx
      → field_le 0 4 event < Tss.max_pcrs
      → Ensures (IsParsed event size) (parse_sha1_log_event hash cb event size ctx)
  unfolding parse_sha1_log_event
  parse_sha1_log_event-IsParsed event size ctx h l hi =
      Ensures-refuse_if _ (ltb size 32) _ λ header.
        Ensures-ok _ _ (read_field-ok 0 4 event (ground arith)) (
          Ensures-bind IsLog _ (extend_sha1 hash cb (field_le 0 4 event) (drop 8 event) ctx) _
            (extend_sha1-Ensures (field_le 0 4 event) (drop 8 event) ctx l hi
              (ground (arith, length-drop 8 event)))
            (λ ctx' l'. Ensures-ok _ _ (read_field-ok 28 4 event (ground arith)) (
              Ensures-refuse_if _ (ltb size (32 + field_le 28 4 event)) _
                λ fits. (refl, ground arith, l'))))

  extend_sha1-fault :
      (i : ℕ) (d : Bytes) (ctx : Context D)
      → length ctx.sha1.pcrs ≤ i
      → extend_sha1 hash cb i d ctx ≡ fault
  unfolding extend_sha1 extend_bank
  extend_sha1-fault i d ctx h = rw (get_elem?-none ctx.sha1.pcrs i h, extend_bank, extend_sha1) refl

  -- The index is not checked: on a buffer with a whole header and banks of 32 PCRs, an index from
  -- 32 on accesses the array of PCRs outside its bounds.
  pub parse_sha1_log_event-fault :
      (event : Bytes) (size : ℕ) (ctx : Context D)
      → 32 ≤ size
      → size ≤ length event
      → IsLog ctx
      → Tss.max_pcrs ≤ field_le 0 4 event
      → parse_sha1_log_event hash cb event size ctx ≡ fault
  unfolding parse_sha1_log_event
  parse_sha1_log_event-fault event size ctx header h l hi =
      let small : ltb size 32 ≡ false = ground arith in
      let outside = extend_sha1-fault (field_le 0 4 event) (drop 8 event) ctx (rw l.sha1_size hi) in
      rw (small, read_field-ok 0 4 event (omega arith), ◌>>=◌) (rw (outside, ◌>>=◌) refl)
