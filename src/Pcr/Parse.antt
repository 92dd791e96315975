-- ===== src/Pcr/Parse.antt =====
-- PCR selections on the command line, such as "sha1:0,1,2+sha256:all": `pcr_parse_selections` of
-- lib/pcr.c. The names of hash algorithms are a parameter: `tpm2_alg_util_from_optarg`, with `none`
-- for TPM2_ALG_ERROR.
pub mod Numbers
use tpm2_tools.Base.Bytes.{Bytes}
use tpm2_tools.Base.Text.{codes, is_prefix, str_chr, split_on}
use tpm2_tools.Base.Outcome.{Outcome, ok, refused, fault, refuse_if, ◌>>=◌, ◌>>◌}
use tpm2_tools.Base.{
  ℕ, zero, suc, ◌+◌, ◌-◌, ◌*◌, ◌/◌, ◌%◌, ◌^◌, bit_or, Bool, true, false, List, [], ◌∷◌, Option,
  none, some, ltb, ◌==◌, if◌then◌else◌, length, get_elem?, get_or, set, drop,
}
use tpm2_tools.Util.Handle.{flags_pcr, handle_from_optarg}
use tpm2_tools.Pcr.{Selection, Selections}

-- `pcr_get_id`
unfoldable pub pcr_get_id : Bytes → Option ℕ
unfolding handle_from_optarg
pcr_get_id arg = handle_from_optarg arg flags_pcr

-- pcrSelect[pcr / 8] |= (1 << (pcr % 8))
abbrev pub select_pcr : ℕ → List ℕ → Outcome (List ℕ)
select_pcr pcr mask = elim (get_elem? mask (pcr / 8)) [
  | none ↦ fault
  | some byte ↦ ok (set mask (pcr / 8) (bit_or byte (2 ^ (pcr % 8))))
]

abbrev pub select_id : Option ℕ → List ℕ → Outcome (List ℕ)
select_id none mask = refused
select_id (some pcr) mask = select_pcr pcr mask

-- The loop of `pcr_parse_list` over the texts between commas, which `buf` limits to three bytes.
unfoldable pub parse_ids : List Bytes → List ℕ → Outcome (List ℕ)
unfolding pcr_get_id
parse_ids [] mask = ok mask
parse_ids (id ∷ ids) mask = do
  refuse_if (ltb 3 (length id))
  mask' ← select_id (pcr_get_id id) mask
  parse_ids ids mask'

-- pcrSelect[0] = pcrSelect[1] = pcrSelect[2] = byte; the rest of the array keeps what it holds.
abbrev pub fill_mask : ℕ → List ℕ → List ℕ
fill_mask byte mask = byte ∷ byte ∷ byte ∷ drop 3 mask

-- `pcr_parse_list`, on the text up to its length
unfoldable pub pcr_parse_list : Bytes → Selection → Outcome Selection
unfolding parse_ids
pcr_parse_list [] sel = refused
pcr_parse_list (c ∷ str) sel =
    if is_prefix (codes "all") (c ∷ str)
    then ok (record sel { size_of_select = 3; pcr_select = fill_mask 0xff sel.pcr_select })
    else if is_prefix (codes "none") (c ∷ str)
    then ok (record sel { size_of_select = 3; pcr_select = fill_mask 0 sel.pcr_select })
    else (do
      mask ← parse_ids (split_on b',' (c ∷ str)) (fill_mask 0 sel.pcr_select)
      ok (record sel { size_of_select = 3; pcr_select = mask }))

module _ (alg_from_optarg : Bytes → Option ℕ) where
  abbrev pub parse_named : Option ℕ → Bytes → Selection → Outcome Selection
  parse_named none list sel = refused
  parse_named (some alg) list sel = pcr_parse_list list (record sel { hash = alg })

  -- `pcr_parse_selection`, on the text up to its length
  unfoldable pub pcr_parse_selection : Bytes → Selection → Outcome Selection
  unfolding pcr_parse_list
  pcr_parse_selection str sel = elim (str_chr b':' str) [
    | none ↦ refused
    | some (name, list) ↦ do
      refuse_if (ltb 8 (length name))
      parse_named (alg_from_optarg name) list sel
  ]

  -- The loop of `pcr_parse_selections`, which writes each selection to the next entry.
  unfoldable pub parse_selections_loop : List Bytes → Selections → Outcome Selections
  unfolding pcr_parse_selection
  parse_selections_loop [] s = ok s
  parse_selections_loop (str ∷ strs) s = elim (get_elem? s.banks s.count) [
    | none ↦ fault
    | some old ↦ do
      sel ← pcr_parse_selection str old
      parse_selections_loop strs (record { count = s.count + 1; banks = set s.banks s.count sel })
  ]

  unfoldable pub pcr_parse_selections : Bytes → Selections → Outcome Selections
  unfolding parse_selections_loop
  pcr_parse_selections arg s = parse_selections_loop (split_on b'+' arg) (record s { count = 0 })
