-- ===== src/Pcr/Tests.antt =====
-- PCR selections by example.

use tpm2_tools.Base.Bytes.{Bytes}
use tpm2_tools.Base.Outcome.{ok}
use tpm2_tools.Base.Text.{join}
use tpm2_tools.Pcr.Walk.Both.{hash_pcr_banks-hash_pcr_values, pcr_print_pcr_struct-lines_of}
use tpm2_tools.Pcr.Walk.Zip.{IsPcrs}
use tpm2_tools.Pcr.Walk.{
  Digest, Pcrs, host_order, bank_line, pcr_line, Evp, hash_pcr_banks, hash_pcr_values,
  pcr_print_pcr_struct,
}
use tpm2_tools.Base.{
  ℕ, ◌+◌, ◌-◌, ◌++◌, some, min, ◌≡◌, ◌↔◌, refl, false, List, [], ◌∷◌, arith, ◌==◌, if◌then◌else◌,
  length, map, take,
}
use tpm2_tools.ToolRc.{success}
use tpm2_tools.Pcr.Check.{IsReduced, entries, pcr_check_pcr_selection-IsReduced}
use tpm2_tools.Pcr.Init.{Copies, pcr_init_pcr_selection-Copies}
use tpm2_tools.Pcr.Mask.{mask_bit, mask_bit-clear_bank}
use tpm2_tools.Pcr.Parse.{pcr_parse_list}
use tpm2_tools.Pcr.Parse.Numbers.{Selects, numeral, pcr_parse_list-Selects}
use tpm2_tools.Pcr.Read.{PcrReply, values, pcr_read_pcr_values}
use tpm2_tools.Pcr.Read.Served.{IsRead, RepliesBytes, FailsWithError, pcr_read_pcr_values-IsRead}
use tpm2_tools.Pcr.Read.Update.{IsAsked}
use tpm2_tools.Pcr.Shrink.{used_banks, shrink_pcr_selection-used_banks}
use tpm2_tools.Pcr.{
  Selection, Selections, is_pcr_select_bit_set, seek_used, pcr_unset_pcr_sections, unset_banks,
  pcr_update_pcr_selections, update_loop, move_bank, clear_bank, shrink_pcr_selection,
  pcr_check_pcr_selection, pcr_init_pcr_selection,
}

abbrev bank : ℕ → ℕ → ℕ → Selection
bank hash low high = record {
  hash = hash;
  size_of_select = 3;
  pcr_select = low ∷ high ∷ 0 ∷ 0 ∷ [];
}

-- Four entries in use, of which two are empty, and one beyond.
abbrev gaps : Selections
gaps = record {
  count = 4;
  banks = bank 0 1 1 ∷ bank 4 7 0 ∷ bank 0 2 2 ∷ bank 11 1 0 ∷ bank 13 1 1 ∷ [];
}

gaps_close : take 2 (shrink_pcr_selection gaps).banks ≡ bank 4 7 0 ∷ bank 11 1 0 ∷ []
unfolding shrink_pcr_selection seek_used move_bank
gaps_close = refl

shrink_pcr_selection-used_banks_example :
    let r = shrink_pcr_selection gaps in
    (r.count ≡ length (used_banks (take gaps.count gaps.banks)))
    × (take r.count r.banks ≡ used_banks (take gaps.count gaps.banks))
shrink_pcr_selection-used_banks_example = shrink_pcr_selection-used_banks gaps (omega arith)

abbrev assigned : Selections
assigned = record { count = 1; banks = bank 4 255 255 ∷ [] }

pcr_check_pcr_selection-IsReduced_example :
    let (any, r) = pcr_check_pcr_selection assigned gaps in
    IsReduced (entries assigned) (entries gaps) (entries r) × ((any ≡ false) ↔ (entries r ≡ []))
pcr_check_pcr_selection-IsReduced_example =
    pcr_check_pcr_selection-IsReduced assigned gaps (omega arith)

abbrev two_assigned : Selections
two_assigned = record { count = 2; banks = bank 4 255 255 ∷ bank 11 255 1 ∷ [] }

pcr_init_pcr_selection-Copies_example :
    let (any, r) = pcr_init_pcr_selection two_assigned gaps 11 in
    Copies (bank 11 255 1 ∷ []) (entries r) × ((any ≡ false) ↔ (bank 11 255 1 ∷ [] ≡ []))
pcr_init_pcr_selection-Copies_example =
    pcr_init_pcr_selection-Copies 4 two_assigned gaps 11 (omega arith)
      (refl, (refl, (refl, (refl, (refl, tt))))) (omega arith, (omega arith, tt))

pcr_parse_list-Selects_example :
    Selects
      (0 ∷ 7 ∷ 23 ∷ [])
      (bank 4 0 0)
      (pcr_parse_list (join b',' (map numeral (0 ∷ 7 ∷ 23 ∷ []))) (bank 4 0 0))
pcr_parse_list-Selects_example =
    pcr_parse_list-Selects 0 (7 ∷ 23 ∷ []) (bank 4 0 0)
      (omega arith, (omega arith, (omega arith, tt))) refl

mask_bit-clear_bank_example : mask_bit (clear_bank (bank 4 2 0) (bank 4 7 0)) 1 ≡ (
    if 4 == 4
    then min (mask_bit (bank 4 7 0) 1) (1 - mask_bit (bank 4 2 0) 1)
    else mask_bit (bank 4 7 0) 1)
mask_bit-clear_bank_example =
    mask_bit-clear_bank (bank 4 2 0) (bank 4 7 0) 1
      (omega arith, (omega arith, (omega arith, (omega arith, tt)))) (omega arith)

-- A TPM that reads the PCRs of the first entry's first byte, one bank with each call.
abbrev one_reply : ℕ → Selections → PcrReply ℕ
one_reply n request =
    values (n + 1) (record { count = 1; banks = bank 4 3 0 ∷ [] }) ((1 ∷ []) ∷ (2 ∷ []) ∷ [])

abbrev request : Selections
request = record { count = 1; banks = bank 4 3 0 ∷ [] }

values_out :
    (n n' : ℕ) (s out : Selections) (v : List (List ℕ))
    → one_reply n s ≡ values n' out v
    → out ≡ record { count = 1; banks = bank 4 3 0 ∷ [] }
values_out n n' s out v e = cc e

one_reply-RepliesBytes : RepliesBytes one_reply
one_reply-RepliesBytes n n' s out v e =
    rw (values_out n n' s out v e)
      ((omega arith, (omega arith, (omega arith, (omega arith, tt)))), tt)

one_reply-FailsWithError : FailsWithError one_reply
one_reply-FailsWithError n s e = cc e

request-IsAsked : IsAsked request 0 1
request-IsAsked = record {
  in_use = omega arith;
  in_array = omega arith;
  in_size = omega arith;
  selected = refl;
}

request_is_served : (pcr_read_pcr_values one_reply 0 request).rc ≡ success
unfolding pcr_read_pcr_values pcr_unset_pcr_sections unset_banks pcr_update_pcr_selections
    update_loop clear_bank
request_is_served = refl

pcr_read_pcr_values-IsRead_example : IsRead one_reply 4 1 0 request
pcr_read_pcr_values-IsRead_example =
    pcr_read_pcr_values-IsRead one_reply one_reply-RepliesBytes one_reply-FailsWithError 0 request 0
      1 request-IsAsked request_is_served

-- Two banks with three PCRs, and their digests in two lists, behind which there is an unused one.
abbrev two_banks : Selections
two_banks = record { count = 2; banks = bank 4 5 0 ∷ bank 11 1 0 ∷ [] }

abbrev digest : ℕ → Digest
digest n = record { size = 2; buffer = n ∷ n ∷ 0 ∷ [] }

abbrev three_digests : Pcrs
three_digests = record {
  count = 2;
  pcr_values =
      record { count = 2; digests = digest 7 ∷ digest 8 ∷ [] }
      ∷ record { count = 1; digests = digest 9 ∷ digest 0 ∷ [] }
      ∷ record { count = 0; digests = digest 0 ∷ [] }
      ∷ [];
}

abbrev joining : Evp Bytes
joining = record { init = λ halg. some []; update = λ a b. some (a ++ b); final = λ a. some a }

three_digests-IsPcrs : IsPcrs host_order three_digests
three_digests-IsPcrs = (
  omega arith,
  (
    (omega arith, omega arith, (omega arith, (omega arith, tt))),
    ((omega arith, omega arith, (omega arith, tt)), tt),
  ),
)

hash_pcr_banks-hash_pcr_values_example :
    hash_pcr_banks joining host_order 11 two_banks three_digests
    ≡ hash_pcr_values joining 11 ((7 ∷ 7 ∷ []) ∷ (8 ∷ 8 ∷ []) ∷ (9 ∷ 9 ∷ []) ∷ [])
unfolding is_pcr_select_bit_set
hash_pcr_banks-hash_pcr_values_example =
    hash_pcr_banks-hash_pcr_values joining host_order 11 two_banks three_digests
      three_digests-IsPcrs

pcr_print_pcr_struct-lines_of_example :
    pcr_print_pcr_struct host_order two_banks three_digests
    ≡ ok (
        bank_line 4
        ∷ pcr_line 0 (7 ∷ 7 ∷ [])
        ∷ pcr_line 2 (8 ∷ 8 ∷ [])
        ∷ bank_line 11
        ∷ pcr_line 0 (9 ∷ 9 ∷ [])
        ∷ [])
unfolding is_pcr_select_bit_set
pcr_print_pcr_struct-lines_of_example =
    pcr_print_pcr_struct-lines_of host_order two_banks three_digests three_digests-IsPcrs
