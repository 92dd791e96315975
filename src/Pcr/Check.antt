-- ===== src/Pcr/Check.antt =====
-- `pcr_check_pcr_selection` and `pcr_init_pcr_selection` against the banks that the TPM assigns.
use tpm2_tools.Base.Bits.{bit-bit_and}
use tpm2_tools.Base.{
  ℕ, ◌/◌, ◌%◌, ◌≤◌, ◌<◌, bit_and, ◌≡◌, ◌≢◌, ◌⊎◌, refl, false, min, List, [], ◌∷◌, none, some, arith,
  ◌==◌, get_or, take, length, each, map, length-each, take-each, All, Bool-cases, ◌↔◌, inl, inr,
}
use tpm2_tools.Base.Bits.{zero-bit_and}
use tpm2_tools.Pcr.Mask.{mask_bit, get_or-zip_bytes}
use tpm2_tools.Pcr.Shrink.{used_banks, shrink_pcr_selection-used_banks}
use tpm2_tools.Pcr.{
  Selection, Selections, find_bank, check_bank, zip_bytes, shrink_pcr_selection,
  pcr_check_pcr_selection,
}

-- The first bank of a hash algorithm.
abbrev IsFirst : ℕ → Selection → List Selection → Type 0
IsFirst hash bank [] = ⊥
IsFirst hash bank (c ∷ caps) =
    ((c.hash ≡ hash) × (c ≡ bank)) ⊎ ((c.hash ≢ hash) × IsFirst hash bank caps)

abbrev Lacks : ℕ → List Selection → Type 0
Lacks hash caps = All (λ c. c.hash ≢ hash) caps

-- `r` selects the PCRs that both banks select, within the size of `b`.
abbrev IsCommon : Selection → Selection → Selection → Type 0
IsCommon b c r =
    (r.hash ≡ b.hash)
    × (r.size_of_select ≡ b.size_of_select)
    × ((pcr : ℕ)
        → pcr / 8 < b.size_of_select
        → mask_bit r pcr ≡ min (mask_bit b pcr) (mask_bit c pcr))

-- What is left of a request against the banks `caps`: an entry that is not in use and one whose hash
-- has no bank are left out, any other is cut down to what the hash's first bank has.
pub data IsReduced (caps : List Selection) : List Selection → List Selection → Type 0 where
  nothing : IsReduced caps [] []
  unused :
      (b : Selection) {bs rs : List Selection}
      → b.hash ≡ 0
      → IsReduced caps bs rs
      → IsReduced caps (b ∷ bs) rs
  lacking :
      (b : Selection) {bs rs : List Selection}
      → Lacks b.hash caps
      → IsReduced caps bs rs
      → IsReduced caps (b ∷ bs) rs
  common :
      (b bank r : Selection) {bs rs : List Selection}
      → b.hash ≢ 0
      → IsFirst b.hash bank caps
      → IsCommon b bank r
      → IsReduced caps bs rs
      → IsReduced caps (b ∷ bs) (r ∷ rs)

find_bank-IsFirst :
    (hash : ℕ) (caps : List Selection)
    → ((find_bank hash caps ≡ none) × Lacks hash caps)
      ⊎ ((c : Selection) × (find_bank hash caps ≡ some c) × IsFirst hash c caps)
unfolding find_bank
find_bank-IsFirst hash [] = inl (refl, tt)
find_bank-IsFirst hash (c ∷ caps) = elim (Bool-cases (hash == c.hash)) [
  | inl same ↦ inr (c, rw same refl, inl (ground arith, refl))
  | inr other ↦
      let differ : c.hash ≢ hash = λ e. ground arith in
      elim (find_bank-IsFirst hash caps) [
        | inl (e, l) ↦ inl (rw other e, (differ, l))
        | inr (d, e, f) ↦ inr (d, rw other e, inr (differ, f))
      ]
]

abbrev masked : Selection → Selection → Selection
masked b c = record b { pcr_select = zip_bytes bit_and b.size_of_select b.pcr_select c.pcr_select }

masked-IsCommon : (b c : Selection) → IsCommon b c (masked b c)
masked-IsCommon b c = (
  refl,
  refl,
  λ pcr lt.
      let e =
        get_or-zip_bytes bit_and b.size_of_select b.pcr_select c.pcr_select (pcr / 8)
          zero-bit_and in
      ground (
        arith,
        e,
        bit-bit_and (get_or b.pcr_select (pcr / 8) 0) (get_or c.pcr_select (pcr / 8) 0) (pcr % 8),
      ),
)

check_bank-missing :
    (caps : List Selection) (b : Selection)
    → find_bank b.hash caps ≡ none
    → check_bank caps b ≡ record b { hash = 0 }
unfolding check_bank
check_bank-missing caps b e = rw (e, check_bank) refl

check_bank-found :
    (caps : List Selection) (b c : Selection)
    → find_bank b.hash caps ≡ some c
    → check_bank caps b ≡ masked b c
unfolding check_bank
check_bank-found caps b c e = rw (e, check_bank) refl

used_banks-IsReduced :
    (caps bs : List Selection) → IsReduced caps bs (used_banks (map (check_bank caps) bs))
used_banks-IsReduced caps [] = nothing
used_banks-IsReduced caps (b ∷ bs) = elim (find_bank-IsFirst b.hash caps) [
  | inl (e, l) ↦ rw (check_bank-missing caps b e) (lacking b l (used_banks-IsReduced caps bs))
  | inr (c, e, f) ↦ elim (Bool-cases (b.hash == 0)) [
    | inl empty ↦
        rw (check_bank-found caps b c e, empty)
          (unused b (ground arith) (used_banks-IsReduced caps bs))
    | inr used ↦
        rw (check_bank-found caps b c e, used)
          (common b c _ (λ z. ground arith) f (masked-IsCommon b c) (used_banks-IsReduced caps bs))
  ]
]

length-zero : (bs : List Selection) → (length bs ≡ 0) ↔ (bs ≡ [])
length-zero [] = (λ _. refl, λ _. refl)
length-zero (b ∷ bs) = (λ e. absurd (omega arith), λ e. cc)

-- The entries of a list of selections that are in use.
abbrev pub entries : Selections → List Selection
entries s = take s.count s.banks

-- `pcr_check_pcr_selection` leaves, in order, the requested banks in use whose hash the TPM has a
-- bank of, each with exactly the PCRs within its size that are both requested and in the first such
-- bank, and returns true exactly if one is left; provided that the count of the request does not
-- exceed its array.
pub pcr_check_pcr_selection-IsReduced :
    (assigned s : Selections)
    → s.count ≤ length s.banks
    → let (any, r) = pcr_check_pcr_selection assigned s in
      IsReduced (entries assigned) (entries s) (entries r) × ((any ≡ false) ↔ (entries r ≡ []))
unfolding pcr_check_pcr_selection
pcr_check_pcr_selection-IsReduced assigned s h = (
  rw kept (used_banks-IsReduced caps (entries s)),
  rw kept (ground (arith, count_is, length-zero kept_banks)),
)
  where
    caps : List Selection
    caps = entries assigned

    checked : Selections
    checked = record s { banks = each s.count (check_bank caps) s.banks }

    kept_banks : List Selection
    kept_banks = used_banks (map (check_bank caps) (entries s))

    shrunk :
        (let r = shrink_pcr_selection checked in
          (r.count ≡ length (used_banks (entries checked)))
          × (entries r ≡ used_banks (entries checked)))
    shrunk =
        shrink_pcr_selection-used_banks checked
          (rw (length-each s.count (check_bank caps) s.banks) h)

    same : entries checked ≡ map (check_bank caps) (entries s)
    same = take-each s.count (check_bank caps) s.banks

    count_is : (shrink_pcr_selection checked).count ≡ length kept_banks
    count_is = rw (← same) shrunk.0

    kept : entries (shrink_pcr_selection checked) ≡ kept_banks
    kept = rw (← same) shrunk.1
