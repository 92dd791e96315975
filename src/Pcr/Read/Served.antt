-- ===== src/Pcr/Read/Served.antt =====
-- What a successful read has read.

use tpm2_tools.Base.{
  ℕ, zero, suc, ◌+◌, ◌≤◌, ◌≡◌, ◌≢◌, ◌⊎◌, inl, inr, refl, sym, ap, ◌∙◌, not, ◌&&◌, List, [], ◌∷◌,
  ◌++◌, arith, ltb, if◌then◌else◌, length, length-append, take, Bool-cases,
}
use tpm2_tools.ToolRc.{ToolRc, success}
use tpm2_tools.Pcr.Read.{
  Digests, PcrReply, failed, values, max_reads, finish_read, read_loop, pcr_read_pcr_values,
}
use tpm2_tools.Pcr.{Selections, bank_at, pcr_update_pcr_selections, pcr_unset_pcr_sections}
use tpm2_tools.Pcr.Read.Update.{
  HasPcr, WellFormed, IsAsked, pcr_unset_pcr_sections-IsAsked, pcr_update_pcr_selections-IsAsked,
}

module _ {Tpm : Type 0} (pcr_read : Tpm → Selections → PcrReply Tpm) where
  -- Reading on from this state, a TPM reply has the PCR.
  pub data IsRead (hash pcr : ℕ) : Tpm → Selections → Type 0 where
    now :
        {tpm tpm' : Tpm} {tmp out : Selections} {v : Digests}
        → pcr_read tpm tmp ≡ values tpm' out v
        → HasPcr hash pcr (take out.count out.banks)
        → IsRead hash pcr tpm tmp
    later :
        {tpm tpm' : Tpm} {tmp out : Selections} {v : Digests}
        → pcr_read tpm tmp ≡ values tpm' out v
        → IsRead hash pcr tpm' (pcr_update_pcr_selections tmp out)
        → IsRead hash pcr tpm tmp

finish_read-IsAsked :
    (pcrs : List Digests) (tmp : Selections) (i pcr : ℕ)
    → max_reads ≤ length pcrs
    → IsAsked tmp i pcr
    → (finish_read pcrs tmp).rc ≢ success
unfolding finish_read
finish_read-IsAsked pcrs tmp i pcr h a e =
    ground (arith, pcr_unset_pcr_sections-IsAsked tmp i pcr a)

module _ {Tpm : Type 0} (pcr_read : Tpm → Selections → PcrReply Tpm) where
  -- The masks of every reply are bytes, as the type of TPMS_PCR_SELECTION has it.
  abbrev pub RepliesBytes : Type 0
  RepliesBytes =
      (tpm tpm' : Tpm) (s out : Selections) (v : Digests)
      → pcr_read tpm s ≡ values tpm' out v
      → WellFormed (take out.count out.banks)

  -- A failed call does not report success.
  abbrev pub FailsWithError : Type 0
  FailsWithError = (tpm : Tpm) (s : Selections) → pcr_read tpm s ≢ failed success

  reply-cases :
      (r : PcrReply Tpm)
      → ((rc : ToolRc) × (r ≡ failed rc))
        ⊎ ((tpm' : Tpm) × (out : Selections) × (v : Digests) × (r ≡ values tpm' out v))
  reply-cases (failed rc) = inl (rc, refl)
  reply-cases (values tpm' out v) = inr (tpm', out, v, refl)

  read_loop-values :
      {tpm tpm' : Tpm} {tmp out : Selections} {v : Digests} (left : ℕ) (pcrs : List Digests)
      → pcr_read tpm tmp ≡ values tpm' out v
      → let pcrs' = pcrs ++ v ∷ [] in
        let tmp' = pcr_update_pcr_selections tmp out in
        read_loop pcr_read (suc left) tpm pcrs tmp ≡ (
          if ltb (length pcrs') max_reads && not (pcr_unset_pcr_sections tmp')
          then read_loop pcr_read left tpm' pcrs' tmp'
          else finish_read pcrs' tmp')
  unfolding read_loop
  read_loop-values left pcrs e = rw (e, read_loop)

  read_loop-failed :
      {tpm : Tpm} {tmp : Selections} {rc : ToolRc} (left : ℕ) (pcrs : List Digests)
      → pcr_read tpm tmp ≡ failed rc
      → (read_loop pcr_read (suc left) tpm pcrs tmp).rc ≡ rc
  unfolding read_loop
  read_loop-failed left pcrs e = rw (e, read_loop)

  read_loop-IsRead :
      RepliesBytes
      → FailsWithError
      → (left i pcr : ℕ) (tpm : Tpm) (pcrs : List Digests) (tmp : Selections)
      → max_reads ≡ length pcrs + left
      → IsAsked tmp i pcr
      → (read_loop pcr_read left tpm pcrs tmp).rc ≡ success
      → IsRead pcr_read (bank_at tmp.banks i).hash pcr tpm tmp
  read_loop-IsRead bytes fails zero i pcr tpm pcrs tmp el a e =
      absurd (finish_read-IsAsked pcrs tmp i pcr (omega arith) a (unfold read_loop in e))
  read_loop-IsRead bytes fails (suc left) i pcr tpm pcrs tmp el a e =
      elim (reply-cases (pcr_read tpm tmp)) [
        | inl (rc, r) ↦
            absurd (fails tpm tmp (r ∙ ap failed (sym (read_loop-failed left pcrs r) ∙ e)))
        | inr (tpm', out, v, r) ↦
            elim (pcr_update_pcr_selections-IsAsked tmp out i pcr (bytes tpm tpm' tmp out v r) a) [
              | inr has ↦ now r has
              | inl (a', same) ↦
                  let pcrs' = pcrs ++ v ∷ [] in
                  let tmp' = pcr_update_pcr_selections tmp out in
                  let still = pcr_unset_pcr_sections-IsAsked tmp' i pcr a' in
                  let step = read_loop-values left pcrs r in
                  let size = length-append pcrs (v ∷ []) in
                  elim (Bool-cases (ltb (length pcrs') max_reads)) [
                    | inl more ↦
                        let e' : (read_loop pcr_read left tpm' pcrs' tmp').rc ≡ success =
                          ground (arith, step, still, more, e) in
                        later r (
                          rw same at (
                            read_loop-IsRead bytes fails left i pcr tpm' pcrs' tmp' (omega arith) a'
                              e'))
                    | inr full ↦
                        let e' : (finish_read pcrs' tmp').rc ≡ success =
                          ground (arith, step, still, full, e) in
                        absurd (finish_read-IsAsked pcrs' tmp' i pcr (ground arith) a' e')
                  ]
            ]
      ]

  -- When `pcr_read_pcr_values` succeeds, every PCR that the request selects within the size of its
  -- bank was in a reply of the TPM, in a bank of that hash, provided that the replies' masks are
  -- bytes and that a failed call reports an error.
  pub pcr_read_pcr_values-IsRead :
      RepliesBytes
      → FailsWithError
      → (tpm : Tpm) (request : Selections) (i pcr : ℕ) → IsAsked request i pcr
      → (pcr_read_pcr_values pcr_read tpm request).rc ≡ success
      → IsRead pcr_read (bank_at request.banks i).hash pcr tpm request
  unfolding pcr_read_pcr_values
  pcr_read_pcr_values-IsRead bytes fails tpm request i pcr a e =
      read_loop-IsRead bytes fails max_reads i pcr tpm [] request (omega arith) a e
