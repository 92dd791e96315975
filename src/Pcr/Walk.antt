-- ===== src/Pcr/Walk.antt =====
-- The selected PCRs and their values side by side: printing in lib/pcr.c, hashing in
-- lib/tpm2_openssl.c, for structures in the host's byte order and (`_le`) for those of a file. The
-- OpenSSL digest is a parameter.
pub mod Zip
pub mod Pairing
pub mod Both
use tpm2_tools.Base.Bytes.{Bytes}
use tpm2_tools.Base.Outcome.{Outcome, ok, refused, fault, refuse_if, ◌>>=◌, ◌>>◌}
use tpm2_tools.Base.{
  ℕ, zero, suc, ◌+◌, ◌*◌, Bool, true, false, List, [], ◌∷◌, ◌++◌, Option, none, some, ltb, leb,
  if◌then◌else◌, get_elem?, take, length,
}
use tpm2_tools.Pcr.{Selection, Selections, is_pcr_select_bit_set}

-- TPM2B_DIGEST
pub record Digest : Type 0 where
  pub size : ℕ
  pub buffer : Bytes

-- TPML_DIGEST; `digests` is the whole array.
pub record DigestList : Type 0 where
  pub count : ℕ
  pub digests : List Digest

-- `tpm2_pcrs`; `pcr_values` is the whole array.
pub record Pcrs : Type 0 where
  pub count : ℕ
  pub pcr_values : List DigestList

-- le16toh, le32toh and le64toh, or nothing.
pub record ByteOrder : Type 0 where
  pub order_16 : ℕ → ℕ
  pub order_32 : ℕ → ℕ
  pub order_64 : ℕ → ℕ

abbrev pub host_order : ByteOrder
host_order = record { order_16 = λ n. n; order_32 = λ n. n; order_64 = λ n. n }

-- The indices `vi` and `di`, and what is printed or hashed so far.
pub record Place (S : Type 0) : Type 0 where
  pub vi : ℕ
  pub di : ℕ
  pub so_far : S

-- The bytes of a digest, whose size its buffer has to reach.
abbrev pub bytes_of : ByteOrder → Digest → Bytes
bytes_of order b = take (order.order_16 b.size) b.buffer

module _ {S : Type 0} (order : ByteOrder) (pcrs : Pcrs) (enter : ℕ → S → S)
    (emit : ℕ → Bytes → S → Outcome S) where
  -- `++di`, and `++vi` behind the last digest of a list
  abbrev pub advance : ℕ → ℕ → DigestList → S → Place S
  advance vi di v s =
      if ltb (di + 1) (order.order_32 v.count)
      then record { vi = vi; di = di + 1; so_far = s }
      else record { vi = vi + 1; di = 0; so_far = s }

  unfoldable pub visit_digest : ℕ → DigestList → Place S → Outcome (Place S)
  visit_digest pcr_id v p = do
    refuse_if (leb (order.order_32 v.count) p.di)
    elim (get_elem? v.digests p.di) [
      | none ↦ fault
      | some b ↦ do
        s ←
            if leb (order.order_16 b.size) (length b.buffer)
            then emit pcr_id (bytes_of order b) p.so_far
            else fault
        ok (advance p.vi p.di v s)
    ]

  -- What the loops do for a PCR that is selected.
  unfoldable pub visit : ℕ → Place S → Outcome (Place S)
  unfolding visit_digest
  visit pcr_id p = do
    refuse_if (leb (order.order_64 pcrs.count) p.vi)
    elim (get_elem? pcrs.pcr_values p.vi) [ none ↦ fault | some v ↦ visit_digest pcr_id v p ]

  -- The loop over the PCRs of a bank, from `pcr_id` on.
  unfoldable pub walk_bank : ℕ → ℕ → Selection → Place S → Outcome (Place S)
  unfolding visit is_pcr_select_bit_set
  walk_bank zero pcr_id bank p = ok p
  walk_bank (suc left) pcr_id bank p =
      (if is_pcr_select_bit_set bank pcr_id then visit pcr_id p else ok p) >>= λ p'.
      walk_bank left (pcr_id + 1) bank p'

  unfoldable pub walk : List Selection → Place S → Outcome (Place S)
  unfolding walk_bank
  walk [] p = ok p
  walk (bank ∷ banks) p =
      walk_bank (bank.size_of_select * 8) 0 bank
        (record p { so_far = enter (order.order_16 bank.hash) p.so_far })
      >>= λ p'. walk banks p'

  unfoldable pub walk_all : Selections → S → Outcome S
  unfolding walk
  walk_all pcr_select s =
      walk (take (order.order_32 pcr_select.count) pcr_select.banks)
        (record { vi = 0; di = 0; so_far = s })
      >>= λ p. ok p.so_far

-- What is printed: a bank's algorithm, or a PCR with its value.
pub data Line : Type 0 where
  bank_line : ℕ → Line
  pcr_line : ℕ → Bytes → Line

-- `pcr_print_pcr_struct`, and `pcr_print_pcr_struct_le` for the other order
unfoldable pub pcr_print_pcr_struct : ByteOrder → Selections → Pcrs → Outcome (List Line)
unfolding walk_all
pcr_print_pcr_struct order pcr_select pcrs =
    walk_all order pcrs (λ hash out. out ++ bank_line hash ∷ [])
      (λ pcr_id b out. ok (out ++ pcr_line pcr_id b ∷ [])) pcr_select []

-- The EVP_Digest calls, which can fail.
pub record Evp (Ctx : Type 0) : Type 0 where
  pub init : ℕ → Option Ctx
  pub update : Ctx → Bytes → Option Ctx
  pub final : Ctx → Option Bytes

abbrev pub returned : {A : Type 0} → Option A → Outcome A
returned none = refused
returned (some a) = ok a

module _ {Ctx : Type 0} (evp : Evp Ctx) where
  unfoldable pub hash_loop : List Bytes → Ctx → Outcome Ctx
  hash_loop [] ctx = ok ctx
  hash_loop (b ∷ bs) ctx = returned (evp.update ctx b) >>= λ ctx'. hash_loop bs ctx'

  -- `tpm2_openssl_hash_pcr_values`, on the bytes of the digests up to the list's count
  unfoldable pub hash_pcr_values : ℕ → List Bytes → Outcome Bytes
  unfolding hash_loop
  hash_pcr_values halg digests = returned (evp.init halg) >>= λ ctx.
      hash_loop digests ctx >>= λ ctx'. returned (evp.final ctx')

  -- `tpm2_openssl_hash_pcr_banks`, and `tpm2_openssl_hash_pcr_banks_le` for the other order
  unfoldable pub hash_pcr_banks : ByteOrder → ℕ → Selections → Pcrs → Outcome Bytes
  unfolding walk_all
  hash_pcr_banks order halg pcr_select pcrs = returned (evp.init halg) >>= λ ctx.
      walk_all order pcrs (λ hash c. c) (λ pcr_id b c. returned (evp.update c b)) pcr_select ctx
      >>= λ ctx'. returned (evp.final ctx')
