-- ===== src/Capability.antt =====
-- lib/tpm2_capability.c, for any TPM: the pages of a capability put together, and the search for a
-- persistent handle that is free.
pub mod Pages
pub mod Complete
pub mod Vacant
mod Tests
use tpm2_tools.Base.{
  ℕ, zero, suc, ◌+◌, ◌-◌, ◌%◌, Bool, true, false, not, ◌&&◌, ◌||◌, ◌^◌, List, [], ◌∷◌, ◌++◌, Option,
  none, some, ltb, leb, ◌==◌, if◌then◌else◌, length, take, map,
}
use tpm2_tools.ToolRc.{ToolRc, success, general_error}

-- TPM2_CAP_HANDLES and TPM2_CAP_COMMANDS
abbrev pub cap_handles : ℕ
cap_handles = 1

abbrev pub cap_commands : ℕ
cap_commands = 2

-- The cases of the switch: TPM2_CAP_ALGS to TPM2_CAP_ECC_CURVES, and TPM2_CAP_VENDOR_PROPERTY.
abbrev pub is_supported : ℕ → Bool
is_supported capability = leb capability 8 || (capability == 0x100)

-- An entry of a capability's array: the number that orders it (the handle itself, or its algorithm,
-- property or tag), and what else it holds.
pub record Entry : Type 0 where
  pub key : ℕ
  pub value : ℕ

-- What `tpm2_get_capability` gives: an error, or the TPM after the call, the capability of the reply,
-- `more_data`, and the array up to its count.
pub data CapReply (Tpm : Type 0) : Type 0 where
  failed : ToolRc → CapReply Tpm
  page : Tpm → ℕ → Bool → List Entry → CapReply Tpm

-- How `tpm2_capability_get` ends; `endless` if it outruns its fuel.
pub data CapResult : Type 0 where
  got : List Entry → CapResult
  error : ToolRc → CapResult
  endless : CapResult

abbrev last_key : List Entry → ℕ
last_key [] = 0
last_key (e ∷ []) = e.key
last_key (e ∷ f ∷ es) = last_key (f ∷ es)

-- The property to ask for next. TPMA_CC_COMMANDINDEX_MASK is 0xffff.
abbrev pub next_property : ℕ → List Entry → ℕ
next_property capability data' =
    if capability == cap_commands
    then (last_key data' + 1) % 2 ^ 16
    else (last_key data' + 1) % 2 ^ 32

abbrev pub is_empty : List Entry → Bool
is_empty [] = true
is_empty (e ∷ es) = false

-- The parameters: the TPM, and how many entries the array for a capability has.
module _ {Tpm : Type 0} (get_capability : Tpm → ℕ → ℕ → ℕ → CapReply Tpm) (max_count : ℕ → ℕ) where
  -- APPEND_CAPABILITY_INFORMATION
  abbrev pub append : ℕ → List Entry → List Entry → List Entry
  append capability data' fetched = data' ++ take (max_count capability - length data') fetched

  -- What is done with a page behind `data'`. The first page becomes the result's structure and is then
  -- appended to itself at its beginning. `again` is the rest of the loop.
  abbrev pub after_page :
      ℕ → ℕ → Bool → List Entry → (Tpm → ℕ → List Entry → CapResult) → CapReply Tpm → CapResult
  after_page capability count first data' again (failed rc) = error rc
  after_page capability count first data' again (page tpm replied more fetched) =
      let all = append capability data' fetched in
      let fresh = take (max_count capability - length data') fetched in
      let next = again tpm (next_property capability all) all in
      if not (replied == capability)
      then error general_error
      else if first && not more
      then got fetched
      else if not (is_supported capability)
      then error general_error
      else if more && (ltb (length all) count && not (is_empty fresh))
      then next
      else got all

  -- The loop of `tpm2_capability_get`. `data'` is what has been fetched; `first` says that nothing has.
  unfoldable pub get_loop : ℕ → Tpm → ℕ → ℕ → ℕ → Bool → List Entry → CapResult
  get_loop zero tpm capability property count first data' = endless
  get_loop (suc left) tpm capability property count first data' =
      after_page capability count first data'
        (λ tpm' property' all. get_loop left tpm' capability property' count false all)
        (get_capability tpm capability property (count - length data'))

  -- Each round but the last adds an entry, so that `count` rounds and one more are enough.
  unfoldable pub capability_get : Tpm → ℕ → ℕ → ℕ → CapResult
  unfolding get_loop
  capability_get tpm capability property count =
      get_loop (suc count) tpm capability property count true []

-- TPM2_PERSISTENT_FIRST, TPM2_PLATFORM_PERSISTENT and TPM2_PERSISTENT_LAST
abbrev pub persistent_first : ℕ
persistent_first = 0x81000000

abbrev pub platform_persistent : ℕ
platform_persistent = 0x81800000

abbrev pub persistent_last : ℕ
persistent_last = 0x81ffffff

abbrev pub in_use : ℕ → List Entry → Bool
in_use i [] = false
in_use i (h ∷ hs) = (h.key == i) || in_use i hs

-- The loop over the handles from `i` on, of which `left` are to go.
unfoldable pub find_loop : Bool → List Entry → ℕ → ℕ → Option ℕ
find_loop is_platform handles zero i = none
find_loop is_platform handles (suc left) i =
    let rest = find_loop is_platform handles left (i + 1) in
    if not is_platform && leb platform_persistent i
    then none
    else if in_use i handles
    then rest
    else some i

abbrev pub first_handle : Bool → ℕ
first_handle is_platform = if is_platform then platform_persistent else persistent_first

unfoldable pub find_vacant : ℕ → Bool → List Entry → Option ℕ
unfolding find_loop
find_vacant max_handles is_platform handles =
    if length handles == 0
    then some (first_handle is_platform)
    else if length handles == max_handles
    then none
    else if ltb (length handles) max_handles
    then find_loop is_platform handles (persistent_last + 1 - first_handle is_platform)
        (first_handle is_platform)
    else none

abbrev pub found_or_error : Option ℕ → ToolRc × Option ℕ
found_or_error none = (general_error, none)
found_or_error (some vacant) = (success, some vacant)

-- What is done with the handles in use; `none` where `tpm2_capability_get` does not end.
unfoldable pub with_handles : ℕ → Bool → CapResult → Option (ToolRc × Option ℕ)
unfolding find_vacant
with_handles max_handles is_platform (got handles) =
    some (found_or_error (find_vacant max_handles is_platform handles))
with_handles max_handles is_platform (error rc) = some (rc, none)
with_handles max_handles is_platform endless = none

-- `tpm2_capability_find_vacant_persistent_handle`, which asks for `max_count cap_handles` handles
unfoldable pub find_vacant_persistent_handle :
    {Tpm : Type 0}
    → (Tpm → ℕ → ℕ → ℕ → CapReply Tpm)
    → (ℕ → ℕ)
    → Tpm
    → Bool
    → Option (ToolRc × Option ℕ)
unfolding capability_get with_handles
find_vacant_persistent_handle get_capability max_count tpm is_platform =
    with_handles (max_count cap_handles) is_platform (
      capability_get get_capability max_count tpm cap_handles persistent_first
        (max_count cap_handles))
