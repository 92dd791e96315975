-- ===== src/Util/Handle.antt =====
-- Handles on the command line: `tpm2_util_handle_from_optarg` of lib/tpm2_util.c with its filters.
pub mod Permitted
use tpm2_tools.Base.Bytes.{Bytes}
use tpm2_tools.Base.Text.{codes, is_prefix}
use tpm2_tools.Base.{
  ℕ, ◌+◌, ◌-◌, ◌*◌, ◌%◌, ◌^◌, bit_and, Bool, true, false, not, ◌&&◌, ◌||◌, List, [], ◌∷◌, Option,
  none, some, ltb, ◌==◌, if◌then◌else◌,
}
use tpm2_tools.Util.Number.{string_to_uint32}
use tpm2_tools.Tss

-- `tpm2_handle_flags`
abbrev pub flags_none : ℕ
flags_none = 0

abbrev pub flags_o : ℕ
flags_o = 0x1

abbrev pub flags_p : ℕ
flags_p = 0x2

abbrev pub flags_e : ℕ
flags_e = 0x4

abbrev pub flags_n : ℕ
flags_n = 0x8

abbrev pub flags_l : ℕ
flags_l = 0x10

abbrev pub flags_transient : ℕ
flags_transient = 0x20

abbrev pub flags_persistent : ℕ
flags_persistent = 0x40

abbrev pub flags_nv : ℕ
flags_nv = 0x80

abbrev pub all_w_nv : ℕ
all_w_nv = 0xff

abbrev pub flags_pcr : ℕ
flags_pcr = 0x100

-- `flags & f`, as a condition
abbrev pub has_flag : ℕ → ℕ → Bool
has_flag flags f = not (bit_and flags f == 0)

unfoldable pub filter_hierarchy_handles : ℕ → ℕ → Bool
filter_hierarchy_handles hierarchy flags =
    if hierarchy == Tss.rh_owner
    then has_flag flags flags_o
    else if hierarchy == Tss.rh_platform
    then has_flag flags flags_p
    else if hierarchy == Tss.rh_endorsement
    then has_flag flags flags_e
    else if hierarchy == Tss.rh_null
    then has_flag flags flags_n
    else if hierarchy == Tss.rh_lockout
    then has_flag flags flags_l
    else flags == all_w_nv || flags == flags_none

abbrev pub range_of : ℕ → ℕ
range_of hierarchy = bit_and hierarchy Tss.hr_range_mask

-- The tests of `filter_handles` on a handle that has its range.
unfoldable pub filter_range : ℕ → ℕ → Bool
unfolding filter_hierarchy_handles
filter_range hierarchy flags =
    if range_of hierarchy == Tss.hr_nv_index
    then has_flag flags flags_nv
      && not (ltb hierarchy Tss.nv_index_first || ltb Tss.nv_index_last hierarchy)
    else if range_of hierarchy == Tss.hr_pcr
    then has_flag flags flags_pcr && not (ltb Tss.pcr_last hierarchy)
    else if range_of hierarchy == Tss.hr_transient
    then has_flag flags flags_transient
    else if range_of hierarchy == Tss.hr_permanent
    then filter_hierarchy_handles hierarchy flags
    else if range_of hierarchy == Tss.hr_persistent
    then has_flag flags flags_persistent
      && not (ltb hierarchy Tss.persistent_first || ltb Tss.persistent_last hierarchy)
    else false

abbrev pub accepted_if : Bool → ℕ → Option ℕ
accepted_if true hierarchy = some hierarchy
accepted_if false hierarchy = none

-- `filter_handles`: the handle, with the range of an NV index or PCR added where it has none.
unfoldable pub filter_handles : ℕ → ℕ → Option ℕ
unfolding filter_range
filter_handles hierarchy flags =
    let as_nv = (hierarchy + Tss.hr_nv_index) % 2 ^ 32 in
    let as_pcr = (hierarchy + Tss.hr_pcr) % 2 ^ 32 in
    if range_of hierarchy == 0
    then (if has_flag flags flags_nv
        then accepted_if (filter_range as_nv flags) as_nv
        else if has_flag flags flags_pcr
        then accepted_if (filter_range as_pcr flags) as_pcr
        else none)
    else accepted_if (filter_range hierarchy flags) hierarchy

-- The named hierarchies, each of which any of its prefixes names; a later match takes precedence.
-- The result is 0 for any other text.
unfoldable pub named_hierarchy : Bytes → ℕ
named_hierarchy value =
    if is_prefix value (codes "lockout")
    then Tss.rh_lockout
    else if is_prefix value (codes "null")
    then Tss.rh_null
    else if is_prefix value (codes "endorsement")
    then Tss.rh_endorsement
    else if is_prefix value (codes "platform")
    then Tss.rh_platform
    else if is_prefix value (codes "owner")
    then Tss.rh_owner
    else 0

abbrev pub then_filter : ℕ → Option ℕ → Option ℕ
then_filter flags none = none
then_filter flags (some hierarchy) = filter_handles hierarchy flags

-- `tpm2_util_handle_from_optarg`
unfoldable pub handle_from_optarg : Bytes → ℕ → Option ℕ
unfolding named_hierarchy filter_handles string_to_uint32
handle_from_optarg [] flags = none
handle_from_optarg (c ∷ value) flags =
    let named = named_hierarchy (c ∷ value) in
    if has_flag flags flags_nv && has_flag flags flags_pcr
    then none
    else then_filter flags (if named == 0 then string_to_uint32 (c ∷ value) else some named)
