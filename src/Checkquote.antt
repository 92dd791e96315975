-- ===== src/Checkquote.antt =====
-- tools/misc/tpm2_checkquote.c: the PCR values of a file, read for a selection that is given as text.
-- A parse of the selection has gone before; the file is the list of the bytes that are still to read.
pub mod Lost
mod Tests
use tpm2_tools.Base.Bytes.{Bytes}
use tpm2_tools.Base.Outcome.{Outcome, ok, fault, refuse_if, ◌>>=◌, ◌>>◌}
use tpm2_tools.Base.{
  ℕ, zero, suc, ◌+◌, ◌*◌, Bool, true, false, ◌||◌, List, [], ◌∷◌, ◌++◌, Option, none, some, ltb,
  leb, ◌==◌, ◌-◌, if◌then◌else◌, get_elem?, set, take, drop, length,
}
use tpm2_tools.EventLog.{get_hash_size}
use tpm2_tools.Pcr.Walk.{Digest, DigestList, Pcrs}
use tpm2_tools.Pcr.{Selection, Selections, is_pcr_select_bit_set}
use tpm2_tools.Tss

-- `digest_list_count`, `pcrs->pcr_values`, and the rest of the file.
pub record Fill : Type 0 where
  pub digest_list_count : ℕ
  pub pcr_values : List DigestList
  pub input : Bytes

-- The digest that is read into the place of `old`.
abbrev pub read_digest : ℕ → Digest → Bytes → Digest
read_digest read_size old input = record {
  size = read_size;
  buffer = take read_size input ++ drop read_size old.buffer;
}

-- The list behind a digest: its count stays at 7.
abbrev pub counted : DigestList → Digest → DigestList
counted v d = record {
  count = if v.count == 7 then v.count else v.count + 1;
  digests = set v.digests v.count d;
}

-- The place of a digest in the list, and the place of the list in the array, if they are there.
abbrev pub store_digest : ℕ → Fill → DigestList → Option Digest → Outcome Fill
store_digest read_size f v none = fault
store_digest read_size f v (some old) = do
  refuse_if ((read_size == 0) || ltb (length f.input) read_size)
  ok (record {
    digest_list_count = if v.count == 7 then f.digest_list_count + 1 else f.digest_list_count;
    pcr_values =
        set f.pcr_values f.digest_list_count (counted v (read_digest read_size old f.input));
    input = drop read_size f.input;
  })

abbrev pub put_into : ℕ → Fill → Option DigestList → Outcome Fill
put_into read_size f none = fault
put_into read_size f (some v) = store_digest read_size f v (get_elem? v.digests v.count)

unfoldable pub put_digest : ℕ → Fill → Outcome Fill
put_digest read_size f = put_into read_size f (get_elem? f.pcr_values f.digest_list_count)

-- The loop over the PCRs of a bank.
unfoldable pub fill_bank : ℕ → ℕ → ℕ → Selection → Fill → Outcome Fill
unfolding put_digest is_pcr_select_bit_set
fill_bank zero pcr_id read_size bank f = ok f
fill_bank (suc left) pcr_id read_size bank f =
    (if is_pcr_select_bit_set bank pcr_id then put_digest read_size f else ok f) >>= λ f'.
    fill_bank left (pcr_id + 1) read_size bank f'

unfoldable pub fill_banks : List Selection → Fill → Outcome Fill
unfolding fill_bank get_hash_size
fill_banks [] f = ok f
fill_banks (bank ∷ banks) f = do
  refuse_if (leb (Tss.max_pcrs - 1) f.digest_list_count)
  f' ← fill_bank (bank.size_of_select * 8) 0 (get_hash_size bank.hash) bank f
  fill_banks banks f'

-- `parse_selection_data_from_selection_string` behind the parse; `cleared` is the array of
-- `tpm2_pcrs` set to 0.
unfoldable pub parse_selection_data : Selections → List DigestList → Bytes → Outcome Pcrs
unfolding fill_banks
parse_selection_data sel cleared input = do
  f ←
      fill_banks (take sel.count sel.banks)
        (record { digest_list_count = 0; pcr_values = cleared; input = input })
  ok (record { count = f.digest_list_count + 1; pcr_values = f.pcr_values })
