-- ===== src/Util/Handle/Permitted.antt =====
-- Which handles the filters let through.
use tpm2_tools.Base.Bytes.{Bytes}
use tpm2_tools.Base.{
  ℕ, ◌+◌, ◌%◌, ◌^◌, ◌≤◌, ◌≡◌, ◌⊎◌, inl, inr, Bool, true, false, ◌&&◌, ◌||◌, [], ◌∷◌, Option, none,
  some, ◌==◌, if◌then◌else◌, arith, Bool-cases,
}
use tpm2_tools.Util.Number.{string_to_uint32}
use tpm2_tools.Util.Handle.{
  flags_none, flags_o, flags_p, flags_e, flags_n, flags_l, flags_transient, flags_persistent,
  flags_nv, all_w_nv, flags_pcr, has_flag, filter_hierarchy_handles, range_of, filter_range,
  accepted_if, filter_handles, named_hierarchy, then_filter, handle_from_optarg,
}
use tpm2_tools.Tss

abbrev pub is_hierarchy : ℕ → Bool
is_hierarchy h =
    h == Tss.rh_owner
    || (h == Tss.rh_platform
        || (h == Tss.rh_endorsement || (h == Tss.rh_null || h == Tss.rh_lockout)))

-- What permits a permanent handle: for one of the five hierarchies its own flag; for any other, flags
-- that are exactly 0 or exactly those of all kinds but the PCR's.
abbrev pub PermanentIn : ℕ → ℕ → Type 0
PermanentIn flags h =
    ((h ≡ Tss.rh_owner) × (has_flag flags flags_o ≡ true))
    ⊎ (((h ≡ Tss.rh_platform) × (has_flag flags flags_p ≡ true))
        ⊎ (((h ≡ Tss.rh_endorsement) × (has_flag flags flags_e ≡ true))
            ⊎ (((h ≡ Tss.rh_null) × (has_flag flags flags_n ≡ true))
                ⊎ (((h ≡ Tss.rh_lockout) × (has_flag flags flags_l ≡ true))
                    ⊎ ((is_hierarchy h ≡ false) × ((flags ≡ all_w_nv) ⊎ (flags ≡ flags_none)))))))

-- An NV index, PCR, transient or persistent handle needs its own flag and the limits of its kind; a
-- permanent one what permits it.
pub data IsPermitted (flags h : ℕ) : Type 0 where
  nv_index :
      has_flag flags flags_nv ≡ true
      → Tss.nv_index_first ≤ h
      → h ≤ Tss.nv_index_last
      → IsPermitted flags h
  pcr : has_flag flags flags_pcr ≡ true → h ≤ Tss.pcr_last → IsPermitted flags h
  transient :
      has_flag flags flags_transient ≡ true → range_of h ≡ Tss.hr_transient → IsPermitted flags h
  permanent : range_of h ≡ Tss.hr_permanent → PermanentIn flags h → IsPermitted flags h
  persistent :
      has_flag flags flags_persistent ≡ true
      → Tss.persistent_first ≤ h
      → h ≤ Tss.persistent_last
      → IsPermitted flags h

filter_hierarchy_handles-PermanentIn :
    (flags h : ℕ) → filter_hierarchy_handles h flags ≡ true → PermanentIn flags h
unfolding filter_hierarchy_handles
filter_hierarchy_handles-PermanentIn flags h e = ground arith

filter_range-IsPermitted : (flags h : ℕ) → filter_range h flags ≡ true → IsPermitted flags h
unfolding filter_range
filter_range-IsPermitted flags h e = elim (Bool-cases (range_of h == Tss.hr_nv_index)) [
  | inl is ↦ nv_index (ground arith) (ground arith) (ground arith)
  | inr not_nv ↦ elim (Bool-cases (range_of h == Tss.hr_pcr)) [
    | inl is ↦ pcr (ground arith) (ground arith)
    | inr not_pcr ↦ elim (Bool-cases (range_of h == Tss.hr_transient)) [
      | inl is ↦ transient (ground arith) (ground arith)
      | inr not_transient ↦ elim (Bool-cases (range_of h == Tss.hr_permanent)) [
        | inl is ↦
            permanent (ground arith) (filter_hierarchy_handles-PermanentIn flags h (ground arith))
        | inr not_permanent ↦ persistent (ground arith) (ground arith) (ground arith)
      ]
    ]
  ]
]

accepted_if-IsPermitted :
    (flags h h' : ℕ) → accepted_if (filter_range h flags) h ≡ some h' → IsPermitted flags h'
accepted_if-IsPermitted flags h h' e = elim (Bool-cases (filter_range h flags)) [
  | inl is ↦ let same : h ≡ h' = ground arith in rw (← same) (filter_range-IsPermitted flags h is)
  | inr isnt ↦ absurd (ground arith)
]

pub filter_handles-IsPermitted :
    (flags h h' : ℕ) → filter_handles h flags ≡ some h' → IsPermitted flags h'
unfolding filter_handles
filter_handles-IsPermitted flags h h' e = elim (Bool-cases (range_of h == 0)) [
  | inl zero_range ↦ elim (Bool-cases (has_flag flags flags_nv)) [
    | inl nv ↦ accepted_if-IsPermitted flags ((h + Tss.hr_nv_index) % 2 ^ 32) h' (ground arith)
    | inr not_nv ↦ elim (Bool-cases (has_flag flags flags_pcr)) [
      | inl p ↦ accepted_if-IsPermitted flags ((h + Tss.hr_pcr) % 2 ^ 32) h' (ground arith)
      | inr none_of ↦ absurd (ground arith)
    ]
  ]
  | inr ranged ↦ accepted_if-IsPermitted flags h h' (ground arith)
]

then_filter-IsPermitted :
    (flags h' : ℕ) (o : Option ℕ) → then_filter flags o ≡ some h' → IsPermitted flags h'
then_filter-IsPermitted flags h' none e = absurd (cc e)
then_filter-IsPermitted flags h' (some h) e = filter_handles-IsPermitted flags h h' e

-- A handle that `tpm2_util_handle_from_optarg` accepts is an NV index, a PCR, or a transient or
-- persistent handle whose kind has its flag, within the limits of the kind; one of the five
-- hierarchies, with its own flag; or another permanent handle, which flags that are exactly 0 or
-- exactly 0xff let through.
pub handle_from_optarg-IsPermitted :
    (value : Bytes) (flags h : ℕ) → handle_from_optarg value flags ≡ some h → IsPermitted flags h
unfolding handle_from_optarg
handle_from_optarg-IsPermitted [] flags h e = absurd (cc e)
handle_from_optarg-IsPermitted (c ∷ value) flags h e =
    elim (Bool-cases (has_flag flags flags_nv && has_flag flags flags_pcr)) [
      | inl both ↦ absurd (ground arith)
      | inr one ↦
          then_filter-IsPermitted flags h
            (if named_hierarchy (c ∷ value) == 0
              then string_to_uint32 (c ∷ value)
              else some (named_hierarchy (c ∷ value)))
            (ground arith)
    ]

-- With the PCR flag alone only the numbers of the 32 PCRs are accepted.
pub handle_from_optarg-pcr :
    (value : Bytes) (pcr_id : ℕ)
    → handle_from_optarg value flags_pcr ≡ some pcr_id
    → pcr_id ≤ Tss.pcr_last
handle_from_optarg-pcr value pcr_id e =
    elim (handle_from_optarg-IsPermitted value flags_pcr pcr_id e) [
      | nv_index nv _ _ ↦ absurd (cc nv)
      | pcr _ h ↦ h
      | transient t _ ↦ absurd (cc t)
      | permanent _ p ↦ ground arith
      | persistent p _ _ ↦ absurd (cc p)
    ]
