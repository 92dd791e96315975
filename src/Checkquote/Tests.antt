-- ===== src/Checkquote/Tests.antt =====
-- The values of eight PCRs.
use tpm2_tools.Base.{ℕ, zero, suc, ◌≤◌, ◌<◌, true, [], ◌∷◌, replicate, ◌≡◌, refl, arith}
use tpm2_tools.Base.Outcome.{ok}
use tpm2_tools.Checkquote.{Fill, fill_bank}
use tpm2_tools.Checkquote.Lost.{IsFilled, fill_bank-lost}
use tpm2_tools.Pcr.{Selection, is_pcr_select_bit_set}

abbrev eight_pcrs : Selection
eight_pcrs = record { hash = 4; size_of_select = 1; pcr_select = 255 ∷ [] }

abbrev unread : Fill
unread = record {
  digest_list_count = 0;
  pcr_values =
      record { count = 0; digests = replicate 8 (record { size = 0; buffer = 0 ∷ 0 ∷ [] }) } ∷ [];
  input = 1 ∷ 2 ∷ 3 ∷ 4 ∷ 5 ∷ 6 ∷ 7 ∷ 8 ∷ [];
}

eight_are_selected : (i : ℕ) → 0 ≤ i → i < 8 → is_pcr_select_bit_set eight_pcrs i ≡ true
unfolding is_pcr_select_bit_set
eight_are_selected zero h k = refl
eight_are_selected (suc zero) h k = refl
eight_are_selected (suc (suc zero)) h k = refl
eight_are_selected (suc (suc (suc zero))) h k = refl
eight_are_selected (suc (suc (suc (suc zero)))) h k = refl
eight_are_selected (suc (suc (suc (suc (suc zero))))) h k = refl
eight_are_selected (suc (suc (suc (suc (suc (suc zero)))))) h k = refl
eight_are_selected (suc (suc (suc (suc (suc (suc (suc zero))))))) h k = refl
eight_are_selected (suc (suc (suc (suc (suc (suc (suc (suc i)))))))) h k = absurd (omega arith)

fill_bank-lost_example :
    (f : Fill) × (fill_bank 8 0 1 eight_pcrs unread ≡ ok f) × IsFilled 0 1 unread.input f
fill_bank-lost_example = fill_bank-lost 0 0 1 eight_pcrs unread (omega arith) eight_are_selected (
  refl,
  (
    record { count = 0; digests = replicate 8 (record { size = 0; buffer = 0 ∷ 0 ∷ [] }) },
    refl,
    refl,
    refl,
  ),
  omega arith,
)
