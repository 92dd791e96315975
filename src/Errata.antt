-- ===== src/Errata.antt =====
-- lib/tpm2_errata.c: which errata of the specification a TPM has, told by its properties, and the
-- correction that they call for. `this_errata_info` is a value that is passed along; `none` is NULL.
mod Applied
mod Tests
use tpm2_tools.Base.{
  ℕ, zero, suc, ◌-◌, ◌^◌, bit_and, Bool, true, false, not, ◌&&◌, ◌||◌, List, [], ◌∷◌, Option, none,
  some, ltb, leb, ◌==◌, if◌then◌else◌, get_elem?,
}

-- `tpm2_errata_info`
pub record ErrataInfo : Type 0 where
  pub spec_level : ℕ
  pub spec_rev : ℕ
  pub errata_ver : ℕ
  pub year : ℕ
  pub day_of_year : ℕ

abbrev info : ℕ → ℕ → ℕ → ℕ → ℕ → ErrataInfo
info level rev ver year day = record {
  spec_level = level;
  spec_rev = rev;
  errata_ver = ver;
  year = year;
  day_of_year = day;
}

abbrev pub known_errata_info : List ErrataInfo
known_errata_info =
    info 0 116 0 2014 303
    ∷ info 0 116 120 2015 4
    ∷ info 0 116 130 2015 167
    ∷ info 0 116 140 2016 15
    ∷ info 0 116 150 2016 265
    ∷ info 0 138 0 2016 273
    ∷ info 0 138 100 2017 16
    ∷ info 0 138 110 2017 61
    ∷ []

-- `tpm2_errata_desc`; the correction is a function on the attributes.
pub record ErrataDesc : Type 0 where
  pub spec_level : ℕ
  pub spec_rev : ℕ
  pub errata_ver : ℕ
  pub fixup : ℕ → ℕ

-- TPMA_OBJECT_SIGN_ENCRYPT
abbrev pub sign_encrypt : ℕ
sign_encrypt = 0x40000

-- `attrs &= ~flags`
abbrev pub clear_flags : ℕ → ℕ → ℕ
clear_flags attrs flags = bit_and attrs (2 ^ 32 - 1 - flags)

pub fixup_sign_decrypt_attribute_encoding : ℕ → ℕ
fixup_sign_decrypt_attribute_encoding attrs = clear_flags attrs sign_encrypt

-- SPEC_116_ERRATA_2_7, the only index there is
abbrev pub spec_116_errata_2_7 : ℕ
spec_116_errata_2_7 = 0

pub errata_desc_list : List ErrataDesc
unfolding fixup_sign_decrypt_attribute_encoding
errata_desc_list =
    record {
      spec_level = 0;
      spec_rev = 116;
      errata_ver = 120;
      fixup = fixup_sign_decrypt_attribute_encoding;
    }
    ∷ []

pub errata_match : ErrataDesc → ErrataInfo → Bool
errata_match errata this =
    ltb this.errata_ver errata.errata_ver
    && leb this.spec_rev errata.spec_rev
    && (errata.spec_level == this.spec_level)

pub errata_query : ℕ → Option ErrataDesc
unfolding errata_desc_list
errata_query index = get_elem? errata_desc_list index

unfoldable pub tpm2_errata_fixup : Option ErrataInfo → ℕ → ℕ → ℕ
unfolding errata_query errata_match
tpm2_errata_fixup none index attrs = attrs
tpm2_errata_fixup (some this) index attrs = elim (errata_query index) [
  | none ↦ attrs
  | some errata ↦ if errata_match errata this then errata.fixup attrs else attrs
]

-- TPMS_TAGGED_PROPERTY
pub record TaggedProperty : Type 0 where
  pub property : ℕ
  pub value : ℕ

abbrev pub pt_level : ℕ
pt_level = 0x101

abbrev pub pt_revision : ℕ
pt_revision = 0x102

abbrev pub pt_day_of_year : ℕ
pt_day_of_year = 0x103

abbrev pub pt_year : ℕ
pt_year = 0x104

-- The variables of `process`.
pub record Reported : Type 0 where
  pub spec_level : ℕ
  pub spec_rev : ℕ
  pub day_of_year : ℕ
  pub year : ℕ

abbrev pub unreported : Reported
unreported = record { spec_level = 2 ^ 32 - 1; spec_rev = 0; day_of_year = 0; year = 0 }

-- The first loop of `process`.
pub read_properties : List TaggedProperty → Reported → Reported
read_properties [] r = r
read_properties (p ∷ ps) r =
    let next = read_properties ps in
    if p.property == pt_level
    then next (record r { spec_level = p.value })
    else if p.property == pt_revision
    then next (record r { spec_rev = p.value })
    else if p.property == pt_day_of_year
    then next (record r { day_of_year = p.value })
    else if p.property == pt_year
    then record r { year = p.value }
    else if ltb pt_year p.property
    then r
    else next r

abbrev pub is_info : Reported → ErrataInfo → Bool
is_info r i =
    (i.day_of_year == r.day_of_year)
    && (i.year == r.year)
    && (i.spec_rev == r.spec_rev)
    && (i.spec_level == r.spec_level)

-- Its second loop.
pub find_info : Reported → List ErrataInfo → Option ErrataInfo → Option ErrataInfo
find_info r [] this = this
find_info r (i ∷ is) this = if is_info r i then some i else find_info r is this

unfoldable pub process : List TaggedProperty → Option ErrataInfo → Option ErrataInfo
unfolding read_properties find_info
process properties this =
    let r = read_properties properties unreported in
    if (r.spec_rev == 0) || (r.day_of_year == 0) || (r.year == 0)
    then this
    else find_info r known_errata_info this
