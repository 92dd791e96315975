-- ===== src/Pcr/Read.antt =====
-- `pcr_read_pcr_values`, for any TPM. `Esys_PCR_Read` returns some of the PCRs asked for, so the code
-- asks again for the rest, 32 times at most (the length of `tpm2_pcrs.pcr_values`).
pub mod Update
pub mod Served
use tpm2_tools.Base.{
  ℕ, zero, suc, ◌-◌, Bool, true, false, not, ◌&&◌, List, [], ◌∷◌, ◌++◌, ltb, ◌==◌, if◌then◌else◌,
  length,
}
use tpm2_tools.ToolRc.{ToolRc, success, general_error}
use tpm2_tools.Pcr.{Selection, Selections, pcr_update_pcr_selections, pcr_unset_pcr_sections}

-- TPML_DIGEST: the values that one reply carries.
abbrev pub Digests : Type 0
Digests = List (List ℕ)

-- What `tpm2_pcr_read` gives: an error, or the TPM after the call, the PCRs that it read (both as
-- the first `count` entries of a list of selections), and their values.
pub data PcrReply (Tpm : Type 0) : Type 0 where
  failed : ToolRc → PcrReply Tpm
  values : Tpm → Selections → Digests → PcrReply Tpm

-- The outcome, `tpm2_pcrs.pcr_values` up to its count, and what is still to be read.
pub record ReadResult : Type 0 where
  pub rc : ToolRc
  pub pcrs : List Digests
  pub pcr_selection_tmp : Selections

-- ARRAY_LEN(pcrs->pcr_values)
abbrev pub max_reads : ℕ
max_reads = 32

-- The test behind the loop.
unfoldable pub finish_read : List Digests → Selections → ReadResult
finish_read pcrs tmp = record {
  rc =
      if not (ltb (length pcrs) max_reads) && not (pcr_unset_pcr_sections tmp)
      then general_error
      else success;
  pcrs = pcrs;
  pcr_selection_tmp = tmp;
}

module _ {Tpm : Type 0} (pcr_read : Tpm → Selections → PcrReply Tpm) where
  -- The loop with `left` rounds to go before the array is full.
  unfoldable pub read_loop : ℕ → Tpm → List Digests → Selections → ReadResult
  unfolding finish_read
  read_loop zero tpm pcrs tmp = finish_read pcrs tmp
  read_loop (suc left) tpm pcrs tmp = elim (pcr_read tpm tmp) [
    | failed rc ↦ record { rc = rc; pcrs = pcrs; pcr_selection_tmp = tmp }
    | values tpm' out v ↦
        let tmp' = pcr_update_pcr_selections tmp out in
        let again = read_loop left tpm' (pcrs ++ v ∷ []) tmp' in
        let done = finish_read (pcrs ++ v ∷ []) tmp' in
        if ltb (length (pcrs ++ v ∷ [])) max_reads && not (pcr_unset_pcr_sections tmp')
        then again
        else done
  ]

  unfoldable pub pcr_read_pcr_values : Tpm → Selections → ReadResult
  unfolding read_loop
  pcr_read_pcr_values tpm request = read_loop max_reads tpm [] request
