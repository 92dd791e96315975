-- ===== src/Alg.antt =====
-- lib/tpm2_alg_util.c: the names of algorithms, in both directions. A parameter that is a pointer is
-- not NULL; TPM2_ALG_ERROR is 0.
pub mod Table
pub mod Names
pub mod Hashes
pub mod Optarg
pub mod Digests
pub mod Ids
pub mod Public
pub mod Scheme
pub mod Spec
mod Tests
use tpm2_tools.Alg.Table.{AlgPair, algs}
use tpm2_tools.Base.Bytes.{Bytes}
use tpm2_tools.Base.Text.{str_eq}
use tpm2_tools.Base.{
  ℕ, bit_and, Bool, true, false, not, List, [], ◌∷◌, Option, none, some, ◌==◌, if◌then◌else◌,
}
use tpm2_tools.Util.Number.{string_to_uint16}

-- `alg_iter_res`
pub data AlgIterRes : Type 0 where
  stop go found : AlgIterRes

-- The `alg_pair` that `find_match` gets as its user data.
pub record Search : Type 0 where
  pub name : Option Bytes
  pub id : ℕ
  pub flags : ℕ
  pub found_flags : ℕ

abbrev pub is_named : Option Bytes → Bytes → Bool
is_named none name = false
is_named (some wanted) name = str_eq wanted name

-- `search_data->flags & flags`
abbrev pub overlap : ℕ → ℕ → Bool
overlap wanted flags = not (bit_and wanted flags == 0)

unfoldable pub find_match : AlgPair → Search → AlgIterRes × Search
find_match alg s =
    if is_named s.name alg.name
    then (if overlap s.flags alg.flags
        then (found, record s { id = alg.id; found_flags = alg.flags })
        else (stop, s))
    else if s.id == alg.id
    then (if overlap s.flags alg.flags
        then (found, record s { name = some alg.name; found_flags = alg.flags })
        else (stop, s))
    else (go, s)

-- What the loop of `tpm2_alg_util_for_each_alg` does with the iterator's result.
abbrev pub resume : {S : Type 0} → AlgIterRes × S → (S → S) → S
resume (stop, s) next = s
resume (go, s) next = next s
resume (found, s) next = s

-- `tpm2_alg_util_for_each_alg` on a table: the loop goes on while its iterator says so.
unfoldable pub for_each_alg : {S : Type 0} → (AlgPair → S → AlgIterRes × S) → List AlgPair → S → S
for_each_alg iterator [] s = s
for_each_alg iterator (alg ∷ rest) s = resume (iterator alg s) (for_each_alg iterator rest)

unfoldable pub strtoalg : Bytes → ℕ → ℕ
unfolding for_each_alg find_match algs
strtoalg name flags =
    (for_each_alg find_match algs
      (record { name = some name; id = 0; flags = flags; found_flags = 0 })).id

unfoldable pub algtostr : ℕ → ℕ → Option Bytes
unfolding for_each_alg find_match algs
algtostr id flags =
    (for_each_alg find_match algs
      (record { name = none; id = id; flags = flags; found_flags = 0 })).name

-- `tpm2_alg_util_flags_any`
abbrev pub flags_any : ℕ
flags_any = 0xffffffff

unfoldable pub algtoflags : ℕ → ℕ
unfolding for_each_alg find_match algs
algtoflags id =
    (for_each_alg find_match algs
      (record { name = none; id = id; flags = flags_any; found_flags = 0 })).found_flags

abbrev pub numbered : ℕ → Option Bytes → ℕ
numbered halg none = 0
numbered halg (some name) = halg

-- `tpm2_alg_util_from_optarg`
unfoldable pub from_optarg : Bytes → ℕ → ℕ
unfolding strtoalg algtostr string_to_uint16
from_optarg optarg flags = elim (string_to_uint16 optarg) [
  | none ↦ strtoalg optarg flags
  | some halg ↦ numbered halg (algtostr halg flags)
]
