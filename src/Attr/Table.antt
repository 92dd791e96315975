-- ===== src/Attr/Table.antt =====
-- The attribute tables of lib/tpm2_attr_util.c. The position of an entry is its bit.
use tpm2_tools.Base.Bytes.{Bytes}
use tpm2_tools.Base.Text.{codes}
use tpm2_tools.Base.{ℕ, List, [], ◌∷◌}

-- The callbacks of a table: none, the setting of one bit, and the NT field.
pub data Action : Type 0 where
  reserved : Action
  nv_flag : ℕ → Action
  obj_flag : ℕ → Action
  nt : Action

pub record Dispatch : Type 0 where
  pub name : Bytes
  pub callback : Action
  pub width : ℕ

abbrev reserved_bit : Bytes → Dispatch
reserved_bit name = record { name = name; callback = reserved; width = 1 }

abbrev nv_bit : ℕ → Bytes → Dispatch
nv_bit pos name = record { name = name; callback = nv_flag pos; width = 1 }

abbrev obj_bit : ℕ → Bytes → Dispatch
obj_bit pos name = record { name = name; callback = obj_flag pos; width = 1 }

abbrev nt_bits : ℕ → Dispatch
nt_bits w = record { name = codes "nt"; callback = nt; width = w }

unfoldable pub nv_attr_table : List Dispatch
nv_attr_table =
    nv_bit 0 (codes "ppwrite")
    ∷ nv_bit 1 (codes "ownerwrite")
    ∷ nv_bit 2 (codes "authwrite")
    ∷ nv_bit 3 (codes "policywrite")
    ∷ nt_bits 4
    ∷ nt_bits 3
    ∷ nt_bits 2
    ∷ nt_bits 1
    ∷ reserved_bit (codes "<reserved(8)>")
    ∷ reserved_bit (codes "<reserved(9)>")
    ∷ nv_bit 10 (codes "policydelete")
    ∷ nv_bit 11 (codes "writelocked")
    ∷ nv_bit 12 (codes "writeall")
    ∷ nv_bit 13 (codes "writedefine")
    ∷ nv_bit 14 (codes "write_stclear")
    ∷ nv_bit 15 (codes "globallock")
    ∷ nv_bit 16 (codes "ppread")
    ∷ nv_bit 17 (codes "ownerread")
    ∷ nv_bit 18 (codes "authread")
    ∷ nv_bit 19 (codes "policyread")
    ∷ reserved_bit (codes "<reserved(20)>")
    ∷ reserved_bit (codes "<reserved(21)>")
    ∷ reserved_bit (codes "<reserved(22)>")
    ∷ reserved_bit (codes "<reserved(23)>")
    ∷ reserved_bit (codes "<reserved(24)>")
    ∷ nv_bit 25 (codes "no_da")
    ∷ nv_bit 26 (codes "orderly")
    ∷ nv_bit 27 (codes "clear_stclear")
    ∷ nv_bit 28 (codes "readlocked")
    ∷ nv_bit 29 (codes "written")
    ∷ nv_bit 30 (codes "platformcreate")
    ∷ nv_bit 31 (codes "read_stclear")
    ∷ []

unfoldable pub obj_attr_table : List Dispatch
obj_attr_table =
    reserved_bit (codes "<reserved(0)>")
    ∷ obj_bit 1 (codes "fixedtpm")
    ∷ obj_bit 2 (codes "stclear")
    ∷ reserved_bit (codes "<reserved(3)>")
    ∷ obj_bit 4 (codes "fixedparent")
    ∷ obj_bit 5 (codes "sensitivedataorigin")
    ∷ obj_bit 6 (codes "userwithauth")
    ∷ obj_bit 7 (codes "adminwithpolicy")
    ∷ reserved_bit (codes "<reserved(8)>")
    ∷ reserved_bit (codes "<reserved(9)>")
    ∷ obj_bit 10 (codes "noda")
    ∷ obj_bit 11 (codes "encryptedduplication")
    ∷ reserved_bit (codes "<reserved(12)>")
    ∷ reserved_bit (codes "<reserved(13)>")
    ∷ reserved_bit (codes "<reserved(14)>")
    ∷ reserved_bit (codes "<reserved(15)>")
    ∷ obj_bit 16 (codes "restricted")
    ∷ obj_bit 17 (codes "decrypt")
    ∷ obj_bit 18 (codes "sign")
    ∷ reserved_bit (codes "<reserved(19)>")
    ∷ reserved_bit (codes "<reserved(20)>")
    ∷ reserved_bit (codes "<reserved(21)>")
    ∷ reserved_bit (codes "<reserved(22)>")
    ∷ reserved_bit (codes "<reserved(23)>")
    ∷ reserved_bit (codes "<reserved(24)>")
    ∷ reserved_bit (codes "<reserved(25)>")
    ∷ reserved_bit (codes "<reserved(26)>")
    ∷ reserved_bit (codes "<reserved(27)>")
    ∷ reserved_bit (codes "<reserved(28)>")
    ∷ reserved_bit (codes "<reserved(29)>")
    ∷ reserved_bit (codes "<reserved(30)>")
    ∷ reserved_bit (codes "<reserved(31)>")
    ∷ []
