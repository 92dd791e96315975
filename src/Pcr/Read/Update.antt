-- ===== src/Pcr/Read/Update.antt =====
-- What is left of a request after the PCRs of a reply are taken from it.
use tpm2_tools.Base.Bits.{bit, bit-zero, bit-le-one}
use tpm2_tools.Base.{
  ℕ, zero, suc, ◌/◌, ◌%◌, ◌<◌, ◌≡◌, ◌⊎◌, inl, inr, refl, ap, ◌∙◌, true, false, List, [], ◌∷◌, arith,
  length, take, get_or, each, get_or-each, length-each, All, Bool-cases,
}
use native.Mathlib.Decide.{ℕ_discrete}
use tpm2_tools.Pcr.Mask.{mask_bit, mask_bit-clear_bank, IsBytes, unset_bytes-get_or}
use tpm2_tools.Pcr.{
  Selection, Selections, bank_at, no_bank, clear_bank, update_loop, pcr_update_pcr_selections,
  unset_banks, pcr_unset_pcr_sections,
}

-- Some entry of a reply has the PCR in a bank of this hash.
abbrev pub HasPcr : ℕ → ℕ → List Selection → Type 0
HasPcr hash pcr [] = ⊥
HasPcr hash pcr (o ∷ os) = ((o.hash ≡ hash) × (mask_bit o pcr ≡ 1)) ⊎ HasPcr hash pcr os

abbrev pub WellFormed : List Selection → Type 0
WellFormed = All (λ o. IsBytes o.pcr_select)

clear_bank-frame :
    (out b : Selection)
    → ((clear_bank out b).hash ≡ b.hash) × ((clear_bank out b).size_of_select ≡ b.size_of_select)
unfolding clear_bank
clear_bank-frame out b = ground arith

-- After the update a PCR of bank `i` is still to be read, or one of the outs had it.
update_loop-bit :
    (outs : List Selection) (n i pcr : ℕ) (bs : List Selection)
    → WellFormed outs
    → i < n
    → i < length bs
    → pcr / 8 < (bank_at bs i).size_of_select
    → mask_bit (bank_at bs i) pcr ≡ 1
    → (mask_bit (bank_at (update_loop outs n bs) i) pcr ≡ 1) ⊎ HasPcr (bank_at bs i).hash pcr outs
unfolding update_loop
update_loop-bit [] n i pcr bs w hn hl hs hb = inl hb
update_loop-bit (o ∷ outs) n i pcr bs w hn hl hs hb =
    let b = bank_at bs i in
    let bs' = each n (clear_bank o) bs in
    let at_i : bank_at bs' i ≡ clear_bank o b = get_or-each n (clear_bank o) bs i no_bank hn hl in
    let frame = clear_bank-frame o b in
    let cleared = mask_bit-clear_bank o b pcr w.0 hs in
    let hash_is : (bank_at bs' i).hash ≡ b.hash = ap (λ c. c.hash) at_i ∙ frame.0 in
    let rest =
      update_loop-bit outs n i pcr bs' w.1 hn (rw (length-each n (clear_bank o) bs) hl)
        (rw (at_i, frame.1) hs) in
    elim (ℕ_discrete (mask_bit (bank_at bs' i) pcr) 1) [
      | yes still ↦ elim (rest still) [ inl a ↦ inl a | inr c ↦ inr (inr (rw hash_is at c)) ]
      | no gone ↦ inr (
          inl (
            ground
              (arith, at_i, cleared, gone, bit-le-one (get_or o.pcr_select (pcr / 8) 0) (pcr % 8))))
    ]

unset_banks-size :
    (bs : List Selection) (n i pcr : ℕ)
    → unset_banks (take n bs) ≡ true
    → i < n
    → i < length bs
    → pcr / 8 < (bank_at bs i).size_of_select
    → mask_bit (bank_at bs i) pcr ≡ 0
unfolding unset_banks
unset_banks-size bs zero i pcr e hn hl hs = absurd (omega arith)
unset_banks-size [] (suc n) i pcr e hn hl hs = absurd (omega arith)
unset_banks-size (b ∷ bs) (suc n) zero pcr e hn hl hs =
    let byte = unset_bytes-get_or b.size_of_select b.pcr_select (pcr / 8) (ground arith) hs in
    ap (λ t. bit t (pcr % 8)) byte ∙ bit-zero (pcr % 8)
unset_banks-size (b ∷ bs) (suc n) (suc i) pcr e hn hl hs =
    unset_banks-size bs n i pcr (ground arith) (omega arith) (omega arith) hs

-- The bank `i` of a list of selections and one of its PCRs, asked for within the bank's size.
pub record IsAsked (s : Selections) (i pcr : ℕ) : Type 0 where
  pub in_use : i < s.count
  pub in_array : i < length s.banks
  pub in_size : pcr / 8 < (bank_at s.banks i).size_of_select
  pub selected : mask_bit (bank_at s.banks i) pcr ≡ 1

pub pcr_unset_pcr_sections-IsAsked :
    (s : Selections) (i pcr : ℕ) → IsAsked s i pcr → pcr_unset_pcr_sections s ≡ false
unfolding pcr_unset_pcr_sections
pcr_unset_pcr_sections-IsAsked s i pcr a = elim (Bool-cases (unset_banks (take s.count s.banks))) [
  | inl e ↦ absurd (
      omega
        (arith, unset_banks-size s.banks s.count i pcr e a.in_use a.in_array a.in_size, a.selected))
  | inr e ↦ e
]

-- What is left of a bank keeps its hash and size.
update_loop-frame :
    (outs : List Selection) (n i : ℕ) (bs : List Selection)
    → i < n
    → i < length bs
    → let b = bank_at bs i in
      let b' = bank_at (update_loop outs n bs) i in
      (length (update_loop outs n bs) ≡ length bs)
      × (b'.hash ≡ b.hash)
      × (b'.size_of_select ≡ b.size_of_select)
unfolding update_loop
update_loop-frame [] n i bs hn hl = (refl, refl, refl)
update_loop-frame (o ∷ outs) n i bs hn hl =
    let at_i = get_or-each n (clear_bank o) bs i no_bank hn hl in
    let frame = clear_bank-frame o (bank_at bs i) in
    let size = length-each n (clear_bank o) bs in
    let r = update_loop-frame outs n i (each n (clear_bank o) bs) hn (rw size hl) in
    (
      r.0 ∙ size,
      r.1 ∙ ap (λ c. c.hash) at_i ∙ frame.0,
      r.2 ∙ ap (λ c. c.size_of_select) at_i ∙ frame.1,
    )

-- After an update a PCR is still asked for, or the reply had it.
pub pcr_update_pcr_selections-IsAsked :
    (s out : Selections) (i pcr : ℕ)
    → WellFormed (take out.count out.banks)
    → IsAsked s i pcr
    → (IsAsked (pcr_update_pcr_selections s out) i pcr
        × ((bank_at (pcr_update_pcr_selections s out).banks i).hash ≡ (bank_at s.banks i).hash))
      ⊎ HasPcr (bank_at s.banks i).hash pcr (take out.count out.banks)
unfolding pcr_update_pcr_selections
pcr_update_pcr_selections-IsAsked s out i pcr w a =
    let outs = take out.count out.banks in
    let frame = update_loop-frame outs s.count i s.banks a.in_use a.in_array in
    elim (update_loop-bit outs s.count i pcr s.banks w a.in_use a.in_array a.in_size a.selected) [
      | inl still ↦ inl (
        record {
          in_use = a.in_use;
          in_array = rw frame.0 a.in_array;
          in_size = rw frame.2 a.in_size;
          selected = still;
        },
        frame.1,
      )
      | inr has ↦ inr has
    ]
