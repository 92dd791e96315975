-- ===== src/Errata/Applied.antt =====
-- Which TPMs the correction of `tpm2_errata_fixup` is for.
use tpm2_tools.Base.{ℕ, ◌&&◌, List, ◌∷◌, none, ◌==◌, if◌then◌else◌, ◌≡◌, arith}
use tpm2_tools.Errata.{
  TaggedProperty, read_properties, find_info, process, tpm2_errata_fixup, errata_query,
  errata_match, errata_desc_list, fixup_sign_decrypt_attribute_encoding, clear_flags, sign_encrypt,
  spec_116_errata_2_7, pt_level, pt_revision, pt_day_of_year, pt_year,
}

abbrev tagged : ℕ → ℕ → TaggedProperty
tagged tag value = record { property = tag; value = value }

-- What a TPM answers that is asked for its properties from the level to the year.
abbrev pub spec_properties : ℕ → ℕ → ℕ → ℕ → List TaggedProperty → List TaggedProperty
spec_properties level rev day year rest =
    tagged pt_level level
    ∷ tagged pt_revision rev
    ∷ tagged pt_day_of_year day
    ∷ tagged pt_year year
    ∷ rest

-- A TPM that reports its specification's level, revision and date has the attribute SIGN_ENCRYPT
-- cleared exactly if they are those of revision 1.16 without errata: level 0, day 303 of 2014.
pub process-tpm2_errata_fixup :
    (level rev day year attrs : ℕ) (rest : List TaggedProperty)
    → tpm2_errata_fixup
        (process (spec_properties level rev day year rest) none)
        spec_116_errata_2_7
        attrs
      ≡ (if (level == 0) && (rev == 116) && (day == 303) && (year == 2014)
          then clear_flags attrs sign_encrypt
          else attrs)
unfolding process read_properties find_info tpm2_errata_fixup errata_query errata_match
    errata_desc_list fixup_sign_decrypt_attribute_encoding
process-tpm2_errata_fixup level rev day year attrs rest = ground arith
