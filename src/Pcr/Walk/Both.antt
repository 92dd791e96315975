-- ===== src/Pcr/Walk/Both.antt =====
-- What is hashed and what is printed of the selected PCRs.
use tpm2_tools.Base.Bytes.{Bytes}
use tpm2_tools.Base.Outcome.{Outcome, ok, refused, ◌>>=◌}
use tpm2_tools.Base.{
  ℕ, suc, Bool, true, false, List, [], ◌∷◌, ◌++◌, append_assoc, append-nil, Option, none, some, leb,
  arith, if◌then◌else◌, take, length, ◌≡◌, refl, ap, sym, ◌∙◌,
}
use tpm2_tools.Pcr.{Selections}
use tpm2_tools.Pcr.Walk.Pairing.{walk_all-pair_up}
use tpm2_tools.Pcr.Walk.Zip.{Item, of_bank, of_pcr, items, digests_of, pair_up, IsPcrs}
use tpm2_tools.Pcr.Walk.{
  Pcrs, ByteOrder, walk_all, Line, bank_line, pcr_line, pcr_print_pcr_struct, Evp, returned,
  hash_loop, hash_pcr_values, hash_pcr_banks,
}

-- How many of the items are PCRs.
abbrev pub pcr_count : List Item → ℕ
pcr_count [] = 0
pcr_count (of_bank hash ∷ is) = pcr_count is
pcr_count (of_pcr pcr_id ∷ is) = suc (pcr_count is)

-- The items of a selection, and the digests of all lists up to their counts.
abbrev pub selected : ByteOrder → Selections → List Item
selected order sel = items order (take (order.order_32 sel.count) sel.banks)

abbrev pub all_digests : ByteOrder → Pcrs → List Bytes
all_digests order pcrs = digests_of order (take (order.order_64 pcrs.count) pcrs.pcr_values)

-- The lines for items and their digests.
abbrev pub lines_of : List Item → List Bytes → List Line
lines_of [] bs = []
lines_of (of_bank hash ∷ is) bs = bank_line hash ∷ lines_of is bs
lines_of (of_pcr pcr_id ∷ is) [] = []
lines_of (of_pcr pcr_id ∷ is) (b ∷ bs) = pcr_line pcr_id b ∷ lines_of is bs

leb-zero : (n : ℕ) → leb 0 n ≡ true
leb-zero n = ground arith

leb-suc_zero : (n : ℕ) → leb (suc n) 0 ≡ false
leb-suc_zero n = ground arith

leb-suc : (m n : ℕ) → leb (suc m) (suc n) ≡ leb m n
leb-suc m n = ground arith

module _ {Ctx : Type 0} (evp : Evp Ctx) where
  abbrev pairing : List Item → List Bytes → Ctx → Outcome Ctx
  pairing is bs ctx =
      pair_up (λ hash c. c) (λ pcr_id b c. returned (evp.update c b)) is bs ctx >>= λ r. ok r.1

  abbrev hashing : List Item → List Bytes → Ctx → Outcome Ctx
  hashing is bs ctx =
      if leb (pcr_count is) (length bs) then hash_loop evp (take (pcr_count is) bs) ctx else refused

  pairing-hashing :
      (is : List Item) (bs : List Bytes) (ctx : Ctx) → pairing is bs ctx ≡ hashing is bs ctx
  unfolding pair_up hash_loop
  pairing-hashing [] bs ctx = rw (leb-zero (length bs)) refl
  pairing-hashing (of_bank hash ∷ is) bs ctx = pairing-hashing is bs ctx
  pairing-hashing (of_pcr pcr_id ∷ is) [] ctx = rw (leb-suc_zero (pcr_count is)) refl
  pairing-hashing (of_pcr pcr_id ∷ is) (b ∷ bs) ctx =
      rw (leb-suc (pcr_count is) (length bs))
        (under (evp.update ctx b) (leb (pcr_count is) (length bs)) (λ c. pairing-hashing is bs c))
    where
      under :
          (m : Option Ctx) (t : Bool)
          → ((c : Ctx)
              → pairing is bs c ≡ (if t then hash_loop evp (take (pcr_count is) bs) c else refused))
          → (returned m
              >>= (λ c. pair_up (λ hash c. c) (λ pcr_id b c. returned (evp.update c b)) is bs c)
              >>= λ r. ok r.1)
            ≡ (if t
                then (returned m >>= λ c. hash_loop evp (take (pcr_count is) bs) c)
                else refused)
      under none true k = refl
      under none false k = refl
      under (some c) true k = k c
      under (some c) false k = k c

  -- Hashing the selected PCRs is hashing the first digests of the lists one after the other, one for
  -- each PCR that is selected, in either byte order, and fails if there are fewer; provided that the
  -- counts are within their arrays and the sizes of the digests within their buffers, and that no
  -- list up to the number of lists is empty.
  pub hash_pcr_banks-hash_pcr_values :
      (order : ByteOrder) (halg : ℕ) (sel : Selections) (pcrs : Pcrs)
      → IsPcrs order pcrs
      → hash_pcr_banks evp order halg sel pcrs ≡ (
          if leb (pcr_count (selected order sel)) (length (all_digests order pcrs))
          then hash_pcr_values evp halg
              (take (pcr_count (selected order sel)) (all_digests order pcrs))
          else refused)
  unfolding hash_pcr_banks hash_pcr_values
  hash_pcr_banks-hash_pcr_values order halg sel pcrs full =
      start (evp.init halg) (leb (pcr_count (selected order sel)) (length (all_digests order pcrs)))
        (λ c.
          walk_all-pair_up order pcrs full (λ hash c. c) (λ pcr_id b c. returned (evp.update c b))
            sel c
          ∙ pairing-hashing (selected order sel) (all_digests order pcrs) c)
    where
      walked : Ctx → Outcome Ctx
      walked c = walk_all order pcrs (λ hash c. c) (λ pcr_id b c. returned (evp.update c b)) sel c

      hashed : Ctx → Outcome Ctx
      hashed c = hash_loop evp (take (pcr_count (selected order sel)) (all_digests order pcrs)) c

      start :
          (m : Option Ctx) (t : Bool)
          → ((c : Ctx) → walked c ≡ (if t then hashed c else refused))
          → (returned m >>= λ c. walked c >>= λ c'. returned (evp.final c')) ≡ (
              if t
              then (returned m >>= λ c. hashed c >>= λ c'. returned (evp.final c'))
              else refused)
      start none true k = refl
      start none false k = refl
      start (some c) true k = ap (λ o. o >>= λ c'. returned (evp.final c')) (k c)
      start (some c) false k = ap (λ o. o >>= λ c'. returned (evp.final c')) (k c)

abbrev print_pairing : List Item → List Bytes → List Line → Outcome (List Line)
print_pairing is bs out =
    pair_up (λ hash out. out ++ bank_line hash ∷ [])
      (λ pcr_id b out. ok (out ++ pcr_line pcr_id b ∷ [])) is bs out
    >>= λ r. ok r.1

print_pairing-lines_of :
    (is : List Item) (bs : List Bytes) (out : List Line)
    → print_pairing is bs out
      ≡ (if leb (pcr_count is) (length bs) then ok (out ++ lines_of is bs) else refused)
unfolding pair_up
print_pairing-lines_of [] bs out = rw (leb-zero (length bs)) (ap ok (sym (append-nil out)))
print_pairing-lines_of (of_bank hash ∷ is) bs out =
    print_pairing-lines_of is bs (out ++ bank_line hash ∷ [])
    ∙ ap (λ l. if leb (pcr_count is) (length bs) then ok l else refused)
        (append_assoc out (bank_line hash ∷ []) (lines_of is bs))
print_pairing-lines_of (of_pcr pcr_id ∷ is) [] out = rw (leb-suc_zero (pcr_count is)) refl
print_pairing-lines_of (of_pcr pcr_id ∷ is) (b ∷ bs) out = rw (leb-suc (pcr_count is) (length bs)) (
    print_pairing-lines_of is bs (out ++ pcr_line pcr_id b ∷ [])
    ∙ ap (λ l. if leb (pcr_count is) (length bs) then ok l else refused)
        (append_assoc out (pcr_line pcr_id b ∷ []) (lines_of is bs)))

-- Printing gives each bank and behind it its selected PCRs with the digests that are hashed for them,
-- and fails if there are fewer digests than PCRs; provided that the counts are within their arrays
-- and the sizes of the digests within their buffers, and that no list up to the number of lists is
-- empty.
pub pcr_print_pcr_struct-lines_of :
    (order : ByteOrder) (sel : Selections) (pcrs : Pcrs)
    → IsPcrs order pcrs
    → pcr_print_pcr_struct order sel pcrs ≡ (
        if leb (pcr_count (selected order sel)) (length (all_digests order pcrs))
        then ok (lines_of (selected order sel) (all_digests order pcrs))
        else refused)
unfolding pcr_print_pcr_struct
pcr_print_pcr_struct-lines_of order sel pcrs full =
    walk_all-pair_up order pcrs full (λ hash out. out ++ bank_line hash ∷ [])
      (λ pcr_id b out. ok (out ++ pcr_line pcr_id b ∷ [])) sel []
    ∙ print_pairing-lines_of (selected order sel) (all_digests order pcrs) []
