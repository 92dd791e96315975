-- ===== src/Errata/Tests.antt =====
-- The errata by example.
use tpm2_tools.Base.{none, [], ◌≡◌}
use tpm2_tools.Errata.{process, tpm2_errata_fixup, spec_116_errata_2_7}
use tpm2_tools.Errata.Applied.{spec_properties, process-tpm2_errata_fixup}

process-tpm2_errata_fixup_example :
    tpm2_errata_fixup (process (spec_properties 0 116 303 2014 []) none) spec_116_errata_2_7 0x60000
    ≡ 0x20000
process-tpm2_errata_fixup_example = process-tpm2_errata_fixup 0 116 303 2014 0x60000 []
