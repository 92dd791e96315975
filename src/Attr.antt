-- ===== src/Attr.antt =====
-- lib/tpm2_attr_util.c: the parsing of attribute lists such as "ownerread|authwrite|nt=0x1" into the
-- words TPMA_NV and TPMA_OBJECT. The tables are in Table, the way back is in Print.
pub mod Table
pub mod Print
pub mod Flags
pub mod Parse
pub mod Nt
mod Tests
use tpm2_tools.Base.Bytes.{Bytes}
use tpm2_tools.Base.Text.{codes, str_eq, is_prefix, str_chr, tokens}
use tpm2_tools.Base.{
  ℕ, zero, suc, ◌+◌, ◌-◌, ◌*◌, ◌^◌, bit_and, bit_or, Bool, true, false, List, [], ◌∷◌, Option, none,
  some, ltb, ◌==◌, if◌then◌else◌,
}
use tpm2_tools.Attr.Table.{
  Action, reserved, nv_flag, obj_flag, nt, Dispatch, nv_attr_table, obj_attr_table,
}
use tpm2_tools.Util.Number.{string_to_uint16, string_to_uint32}

-- `lookup_nt_friendly_name`. `type` is the variable before the call, which "ordinary" leaves alone.
pub lookup_nt_friendly_name : Bytes → ℕ → Option ℕ
lookup_nt_friendly_name arg type =
    if str_eq arg (codes "ordinary")
    then some type
    else if str_eq arg (codes "counter")
    then some 1
    else if str_eq arg (codes "bits")
    then some 2
    else if str_eq arg (codes "extend")
    then some 4
    else if str_eq arg (codes "pinfail")
    then some 8
    else if str_eq arg (codes "pinpass")
    then some 9
    else none

-- The tail of `nt`: the field is four bits wide.
abbrev set_nt : ℕ → Option ℕ → Option ℕ
set_nt nv none = none
set_nt nv (some value) =
    if ltb 0x0f value then none else some (bit_or (bit_and nv (2 ^ 32 - 1 - 0xf0)) (value * 2 ^ 4))

abbrev or_else : Option ℕ → Option ℕ → Option ℕ
or_else none o = o
or_else (some v) o = some v

-- `nt`; `value` is what its local variable holds when it is declared.
pub set_nt_field : ℕ → ℕ → Bytes → Option ℕ
unfolding string_to_uint16 lookup_nt_friendly_name
set_nt_field value nv arg =
    set_nt nv (or_else (string_to_uint16 arg) (lookup_nt_friendly_name arg value))

-- The call of a callback; a reserved entry has none and is not called.
pub run_action : ℕ → Action → ℕ → Bytes → Option ℕ
unfolding set_nt_field
run_action value reserved attrs arg = none
run_action value (nv_flag pos) attrs arg = some (bit_or attrs (2 ^ pos))
run_action value (obj_flag pos) attrs arg = some (bit_or attrs (2 ^ pos))
run_action value nt attrs arg = set_nt_field value attrs arg

pub data DispatchResult : Type 0 where
  dispatch_ok : ℕ → DispatchResult
  dispatch_err dispatch_no_match : DispatchResult

abbrev called : Option ℕ → DispatchResult
called none = dispatch_err
called (some attrs) = dispatch_ok attrs

-- An entry that takes an argument: `parts` is the token split at its first '='.
pub dispatch_arg : ℕ → Dispatch → Bytes → Option (Bytes × Bytes) → ℕ → DispatchResult
unfolding run_action
dispatch_arg value d token none attrs =
    if is_prefix token d.name then dispatch_err else dispatch_no_match
dispatch_arg value d token (some (key, [])) attrs =
    if is_prefix key d.name then dispatch_err else dispatch_no_match
dispatch_arg value d token (some (key, c ∷ arg)) attrs =
    if is_prefix key d.name
    then called (run_action value d.callback attrs (c ∷ arg))
    else dispatch_no_match

-- `handle_dispatch` with its `token_match`, for an entry with a callback.
pub dispatch_entry : ℕ → Dispatch → Bytes → ℕ → DispatchResult
unfolding dispatch_arg
dispatch_entry value d token attrs =
    if ltb 1 d.width
    then dispatch_arg value d token (str_chr b'=' token) attrs
    else if is_prefix token d.name
    then called (run_action value d.callback attrs [])
    else dispatch_no_match

pub handle_dispatch : ℕ → Dispatch → Action → Bytes → ℕ → DispatchResult
unfolding dispatch_entry
handle_dispatch value d reserved token attrs = dispatch_no_match
handle_dispatch value d (nv_flag pos) token attrs = dispatch_entry value d token attrs
handle_dispatch value d (obj_flag pos) token attrs = dispatch_entry value d token attrs
handle_dispatch value d nt token attrs = dispatch_entry value d token attrs

-- The loop over the table for one token; its end is an unknown token.
pub dispatch_token : ℕ → List Dispatch → Bytes → ℕ → Option ℕ
unfolding handle_dispatch
dispatch_token value [] token attrs = none
dispatch_token value (d ∷ table) token attrs =
    elim (handle_dispatch value d d.callback token attrs) [
      | dispatch_ok attrs' ↦ some attrs'
      | dispatch_err ↦ none
      | dispatch_no_match ↦ dispatch_token value table token attrs
    ]

-- The loop over the tokens of `strtok_r`.
pub dispatch_tokens : ℕ → List Dispatch → List Bytes → ℕ → Option ℕ
unfolding dispatch_token
dispatch_tokens value table [] attrs = some attrs
dispatch_tokens value table (token ∷ rest) attrs = elim (dispatch_token value table token attrs) [
  | none ↦ none
  | some attrs' ↦ dispatch_tokens value table rest attrs'
]

pub common_strtoattr : ℕ → Bytes → List Dispatch → Option ℕ
unfolding dispatch_tokens
common_strtoattr value attribute_list table =
    dispatch_tokens value table (tokens b'|' attribute_list) 0

-- `tpm2_attr_util_nv_strtoattr`
pub nv_strtoattr : ℕ → Bytes → Option ℕ
unfolding common_strtoattr nv_attr_table
nv_strtoattr value attribute_list = common_strtoattr value attribute_list nv_attr_table

-- `tpm2_attr_util_obj_strtoattr`
pub obj_strtoattr : ℕ → Bytes → Option ℕ
unfolding common_strtoattr obj_attr_table
obj_strtoattr value attribute_list = common_strtoattr value attribute_list obj_attr_table

-- `tpm2_attr_util_obj_from_optarg`
pub obj_from_optarg : ℕ → Bytes → Option ℕ
unfolding obj_strtoattr string_to_uint32
obj_from_optarg value arg = or_else (string_to_uint32 arg) (obj_strtoattr value arg)
